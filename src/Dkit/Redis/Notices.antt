-- ===== src/Dkit/Redis/Notices.antt =====
-- The notices of leader changes of `RedisAtomic` in src/core_py/dkit/redis.py.
use core_py.Base.{
  Bool, true, false, not, List, [], ◌∷◌, ◌++◌, ◌≡◌, refl, sym, subst, inl, inr, Bool-cases,
}
use core_py.Base.Text.{Str, str_eq}
use core_py.Dkit.Redis.{Client, to_text}
use core_py.Dkit.Redis.Election.{
  ElectionOption, Node, LeaderChangedEvent, leader_key, notify_leader_change, same_bool,
}

-- Each notice says the opposite of the one before it.
unfoldable pub Alternates : Bool → List LeaderChangedEvent → Type 0
Alternates b [] = Unit
Alternates b (e ∷ es) = (e.is_leader ≡ not b) × Alternates (not b) es

same_bool-true : (a b : Bool) → same_bool a b ≡ true → a ≡ b
same_bool-true true b h = sym h
same_bool-true false true h = absurd cc
same_bool-true false false h = refl

same_bool-false : (a b : Bool) → same_bool a b ≡ false → a ≡ not b
same_bool-false true true h = absurd cc
same_bool-false true false h = refl
same_bool-false false true h = refl
same_bool-false false false h = absurd cc

module _ {σ : Type 0} (c : Client σ) (b64 : Str → Str) (option : ElectionOption) where
  -- The notices of a node that looks at the server one time after the other.
  unfoldable pub observe : Node → List σ → List LeaderChangedEvent × Node
  observe n [] = ([], n)
  observe n (s ∷ ss) =
      let (now, m) = notify_leader_change c b64 option n s in
      let (later, k) = observe m ss in (now ++ later, k)

  abbrev leading : Node → σ → Bool
  leading n s = str_eq (to_text (c.get (leader_key c b64 n option) s)) option.node_key

  -- The notices that a handler gets alternate: each tells of a change against the one before it,
  -- and the first of a change against what the node took itself for.
  pub observe-Alternates :
      (ss : List σ) (n : Node)
      → option.has_handler ≡ true
      → Alternates n.last_is_leader (observe n ss).0
  unfolding observe Alternates notify_leader_change
  observe-Alternates [] n h = tt
  observe-Alternates (s ∷ ss) n h =
      let m = record n { last_is_leader = leading n s } in
      let rest = observe-Alternates ss m h in
      elim (Bool-cases (same_bool (leading n s) n.last_is_leader)) [
        | inl e ↦
            rw (h, e)
              (subst (λ b. Alternates b (observe m ss).0)
                (same_bool-true (leading n s) n.last_is_leader e) rest)
        | inr e ↦
            let changed = same_bool-false (leading n s) n.last_is_leader e in
            rw (h, e) (changed, subst (λ b. Alternates b (observe m ss).0) changed rest)
      ]
