-- ===== src/Dkit/Redis/Leader.antt =====
-- Who leads through the ticks of `RedisAtomic` of src/core_py/dkit/redis.py.
use core_py.Base.{
  ℕ, true, false, ◌&&◌, some, List, [], ◌∷◌, ◌++◌, All, ◌≡◌, refl, ap, ◌∙◌, sym, subst, inl, inr,
  Bool-cases, if_both, append_assoc, arith,
}
use core_py.Base.Text.{Str, codes, is_empty, str_eq, str_eq_iff}
use core_py.Dkit.Redis.{Client, to_text, ttl_ms, holds, pexpire_if_value}
use core_py.Dkit.Redis.Store.{IsStore}
use core_py.Dkit.Redis.Exclusion.{Keeps}
use core_py.Dkit.Redis.Atomic.{
  leader_key_for, heartbeat_key_for, heartbeat_prefix, encode_component,
}
use core_py.Dkit.Redis.Election.{
  ElectionOption, Node, leader_key, heartbeat_key, is_leader, beat, contend, may_elect,
  tick_election, require_election,
}

str_eq-append : (p x y : Str) → str_eq (p ++ x) (p ++ y) ≡ str_eq x y
unfolding str_eq
str_eq-append [] x y = refl
str_eq-append (a ∷ p) x y = ground (arith, str_eq-append p x y)

keys_apart :
    (b64 : Str → Str) (p isolation node isolation2 : Str)
    → str_eq (heartbeat_key_for b64 p isolation node) (leader_key_for b64 p isolation2) ≡ false
unfolding heartbeat_key_for heartbeat_prefix leader_key_for str_eq
keys_apart b64 p isolation node isolation2 =
    ap (λ k. str_eq k (leader_key_for b64 p isolation2))
      (append_assoc p (codes ":heartbeat:" ++ encode_component b64 isolation)
        (codes ":" ++ encode_component b64 node))
    ∙ str_eq-append p _ _

-- One tick of a node, with what others do in it.
pub record Tick (σ : Type 0) : Type 0 where
  pub node : Node
  pub option : ElectionOption
  pub between : σ → σ
  pub before_notify : σ → σ

module _ {σ : Type 0} (c : Client σ) (b64 : Str → Str) (store : IsStore c)
    (p isolation w : Str) where
  abbrev pub lkey : Str
  lkey = leader_key_for b64 p isolation

  abbrev pub Leads : σ → Type 0
  Leads s = c.get lkey s ≡ some w

  -- A tick of a node of the same prefix, in which nothing else changes the leader's key.
  abbrev pub IsPeer : Tick σ → Type 0
  IsPeer t =
      (t.node.election ≡ some t.option)
      × (t.node.key_prefix ≡ p)
      × Keeps c lkey t.between
      × Keeps c lkey t.before_notify

  set-Leads : (k v : Str) (ms : ℕ) (s : σ) → Leads s → Leads ((c.set k v true ms s).1)
  set-Leads k v ms s h = elim (Bool-cases (str_eq k lkey)) [
    | inl e ↦
        let taken : c.get k s ≡ some w =
          subst (λ k. c.get k s ≡ some w) (sym ((str_eq_iff k lkey).0 e)) h in
        subst (λ r. Leads (r.1)) (sym (store.set_taken k v w ms s taken)) h
    | inr e ↦ store.set_other k lkey v true ms s e ∙ h
  ]

  pexpire-Leads : (k v : Str) (ms : ℕ) (s : σ) → Leads s → Leads ((pexpire_if_value c k v ms s).1)
  unfolding pexpire_if_value
  pexpire-Leads k v ms s h = elim (Bool-cases (holds (c.get k s) v)) [
    | inl e ↦ rw e (store.pexpire_keeps k lkey ms s ∙ h)
    | inr e ↦ rw e h
  ]

  contend-Leads :
      (option : ElectionOption) (n : Node) (leader : Str) (s : σ)
      → Leads s
      → Leads (contend c b64 option n leader s)
  contend-Leads option n leader s h =
      let k = leader_key c b64 n option in
      let ms = ttl_ms option.unhealthy_time in
      if_both Leads (str_eq leader option.node_key) (pexpire-Leads k option.node_key ms s h) (
        if_both Leads (is_empty leader && may_elect c b64 option.can_elect)
          (set-Leads k option.node_key ms s h) h)

  beat-Leads :
      (option : ElectionOption) (n : Node) (s : σ)
      → n.key_prefix ≡ p
      → Leads s
      → Leads (beat c b64 option n s)
  beat-Leads option n s same h =
      let k = heartbeat_key c b64 n option in
      let apart : str_eq k lkey ≡ false =
        subst
          (λ q. str_eq (heartbeat_key_for b64 q option.isolation_key option.node_key) lkey ≡ false)
          (sym same) (keys_apart b64 p option.isolation_key option.node_key isolation) in
      if_both Leads option.keep_heartbeat
        (store.set_other k lkey option.node_key false (ttl_ms option.unhealthy_time) s apart ∙ h) h

  -- The server after a tick.
  abbrev pub ticked_server : Tick σ → σ → σ
  ticked_server t s = (tick_election c b64 t.between t.before_notify t.node s).1.1

  tick-Leads : (t : Tick σ) (s : σ) → IsPeer t → Leads s → Leads (ticked_server t s)
  unfolding tick_election require_election
  tick-Leads t s (elected, same, keeps, keeps_last) h =
      let beaten = beat-Leads t.option t.node s same h in
      let met = keeps (beat c b64 t.option t.node s) ∙ beaten in
      rw elected (keeps_last _ ∙ contend-Leads t.option t.node _ _ met)

  unfoldable pub run_ticks : List (Tick σ) → σ → σ
  run_ticks [] s = s
  run_ticks (t ∷ ts) s = run_ticks ts (ticked_server t s)

  run_ticks-Leads : (ts : List (Tick σ)) (s : σ) → All IsPeer ts → Leads s → Leads (run_ticks ts s)
  unfolding run_ticks
  run_ticks-Leads [] s hs h = h
  run_ticks-Leads (t ∷ ts) s (p, hs) h =
      run_ticks-Leads ts (ticked_server t s) hs (tick-Leads t s p h)

  -- The leader's key keeps its leader through any ticks of the nodes of one prefix, the leader's own
  -- ones too, while it does not expire. After them a node of the leader's group takes itself for the
  -- leader exactly if it is the one.
  pub leader_stays :
      (ts : List (Tick σ)) (s : σ) (n : Node) (option : ElectionOption)
      → All IsPeer ts
      → c.get lkey s ≡ some w
      → n.election ≡ some option
      → n.key_prefix ≡ p
      → option.isolation_key ≡ isolation
      → (c.get lkey (run_ticks ts s) ≡ some w)
        × (is_leader c b64 n (run_ticks ts s) ≡ str_eq w option.node_key)
  unfolding is_leader to_text
  leader_stays ts s n option hs h elected same group =
      let still = run_ticks-Leads ts s hs h in
      let key : leader_key_for b64 n.key_prefix option.isolation_key ≡ lkey =
        ap (λ q. leader_key_for b64 q option.isolation_key) same
        ∙ ap (leader_key_for b64 p) group in
      (
        still,
        rw elected
            (ap (λ k. str_eq (to_text (c.get k (run_ticks ts s))) option.node_key) key ∙ rw still),
      )
