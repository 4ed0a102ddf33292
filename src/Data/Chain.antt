-- ===== src/Data/Chain.antt =====
-- The walk along a chain of exceptions ends for every heap, a cyclic one too, and finds the first
-- match: `First n o x` is a chain of `n` links from `o` to the first exception that `pick` accepts.
use core_py.Base.{
  ap, subst, ◌∙◌, ◌↔◌, ℕ, zero, suc, true, false, Option, none, some, List, [], ◌∷◌, ◌==◌, length,
  get_elem?, arith, ◌≡◌, refl, ◌<◌, inl, inr, Bool-cases, Option-cases, ==_iff,
}
use core_py.Base.Unseen.{mem, unseen, unseen-nil, unseen-cons}
use core_py.Data.{Exn, Heap, next, found, ended, out_of_fuel, walk, search_chain}

pub data First {ℓ} {A : Type ℓ} (pick : Exn → Option A) (h : Heap) : ℕ → Option ℕ → A → Type ℓ where
  here :
      {a : ℕ} {e : Exn} {x : A}
      → get_elem? h a ≡ some e
      → pick e ≡ some x
      → First pick h 0 (some a) x
  there :
      {a n : ℕ} {e : Exn} {x : A}
      → get_elem? h a ≡ some e
      → pick e ≡ none
      → First pick h n (next e) x
      → First pick h (suc n) (some a) x

pub get_elem?-lt {ℓ} :
    {A : Type ℓ} (xs : List A) (n : ℕ) (x : A) → get_elem? xs n ≡ some x → n < length xs
get_elem?-lt [] n x e = absurd cc
get_elem?-lt (y ∷ xs) zero x e = omega arith
get_elem?-lt (y ∷ xs) (suc n) x e = omega (arith, get_elem?-lt xs n x e)

-- Two chains from one place have the same length.
First-length {ℓ} :
    {A : Type ℓ} (pick : Exn → Option A) (h : Heap) {o : Option ℕ} {n m : ℕ} {x y : A}
    → First pick h n o x
    → First pick h m o y
    → n ≡ m
First-length pick h (here a b) (here c d) = refl
First-length pick h (here a b) (there c d f) = cc
First-length pick h (there a b f) (here c d) = cc
First-length pick h (there {e = e} a b f) (there {n = k} {e = e'} {x = y} c d g) =
    let same : e' ≡ e = cc in
    ap suc (First-length pick h f (subst (λ e. First pick h k (next e) y) same g))

module _ {ℓ} {A : Type ℓ} (pick : Exn → Option A) (h : Heap) where
  walk-next :
      (fuel : ℕ) (seen : List ℕ) (a : ℕ) {v : Exn}
      → mem a seen ≡ false
      → get_elem? h a ≡ some v
      → pick v ≡ none
      → walk pick h (suc fuel) seen (some a) ≡ walk pick h fuel (a ∷ seen) (next v)
  unfolding walk
  walk-next fuel seen a new e p = rw (new, walk, e, p)

  walk-pick :
      (fuel : ℕ) (seen : List ℕ) (a : ℕ) {v : Exn} {y : A}
      → mem a seen ≡ false
      → get_elem? h a ≡ some v
      → pick v ≡ some y
      → walk pick h (suc fuel) seen (some a) ≡ found y
  unfolding walk
  walk-pick fuel seen a new e p = rw (new, walk, e, p)

  walk-seen :
      (fuel : ℕ) (seen : List ℕ) (a : ℕ)
      → mem a seen ≡ true
      → walk pick h (suc fuel) seen (some a) ≡ ended
  unfolding walk
  walk-seen fuel seen a old = rw (old, walk)

  walk-missing :
      (fuel : ℕ) (seen : List ℕ) (a : ℕ)
      → mem a seen ≡ false
      → get_elem? h a ≡ none
      → walk pick h (suc fuel) seen (some a) ≡ ended
  unfolding walk
  walk-missing fuel seen a new e = rw (new, walk, e)

  less_unseen :
      (fuel a : ℕ) (seen : List ℕ) {v : Exn}
      → unseen (length h) seen < suc fuel
      → mem a seen ≡ false
      → get_elem? h a ≡ some v
      → unseen (length h) (a ∷ seen) < fuel
  less_unseen fuel a seen {v = v} enough new e =
      omega (arith, unseen-cons (length h) a seen (get_elem?-lt h a v e) new)

  -- Enough fuel for the walk: more than there are exceptions that it has not seen.
  walk-ends :
      (fuel : ℕ) (seen : List ℕ) (cur : Option ℕ)
      → unseen (length h) seen < fuel
      → ¬ (walk pick h fuel seen cur ≡ out_of_fuel)
  unfolding walk
  walk-ends fuel seen none enough = λ r. cc
  walk-ends zero seen (some a) enough = absurd (omega arith)
  walk-ends (suc fuel) seen (some a) enough = elim (Bool-cases (mem a seen)) [
    | inl old ↦ rw (walk-seen fuel seen a old) (λ r. cc)
    | inr new ↦ elim (Option-cases (get_elem? h a)) [
      | inl e ↦ rw (walk-missing fuel seen a new e) (λ r. cc)
      | inr (v, e) ↦ elim (Option-cases (pick v)) [
        | inl p ↦
            rw (walk-next fuel seen a new e p)
              (walk-ends fuel (a ∷ seen) (next v) (less_unseen fuel a seen enough new e))
        | inr (y, p) ↦ rw (walk-pick fuel seen a new e p) (λ r. cc)
      ]
    ]
  ]

  walk-First :
      (fuel : ℕ) (seen : List ℕ) (cur : Option ℕ) (x : A)
      → walk pick h fuel seen cur ≡ found x
      → (n : ℕ) × First pick h n cur x
  unfolding walk
  walk-First fuel seen none x r = absurd cc
  walk-First zero seen (some a) x r = absurd cc
  walk-First (suc fuel) seen (some a) x r = elim (Bool-cases (mem a seen)) [
    | inl old ↦ absurd (cc (walk-seen fuel seen a old))
    | inr new ↦ elim (Option-cases (get_elem? h a)) [
      | inl e ↦ absurd (cc (walk-missing fuel seen a new e))
      | inr (v, e) ↦ elim (Option-cases (pick v)) [
        | inl p ↦
            let (n, f) =
              walk-First fuel (a ∷ seen) (next v) x (rw (walk-next fuel seen a new e p) at r) in
            (suc n, there e p f)
        | inr (y, p) ↦ (0, here e (cc (walk-pick fuel seen a new e p)))
      ]
    ]
  ]

  -- A chain that a walk has not entered yet: what it has seen is further from a match.
  pub Ahead : ℕ → List ℕ → Type ℓ
  Ahead n seen = (s m : ℕ) (y : A) → mem s seen ≡ true → First pick h m (some s) y → n < m

  Ahead-new :
      (n a : ℕ) (seen : List ℕ) (x : A)
      → Ahead n seen
      → First pick h n (some a) x
      → mem a seen ≡ false
  unfolding Ahead
  Ahead-new n a seen x ahead f = elim (Bool-cases (mem a seen)) [
    | inl old ↦ absurd (omega (arith, ahead a n x old f))
    | inr new ↦ new
  ]

  Ahead-cons :
      (n a : ℕ) (seen : List ℕ) (x : A)
      → Ahead (suc n) seen
      → First pick h (suc n) (some a) x
      → Ahead n (a ∷ seen)
  unfolding Ahead mem
  Ahead-cons n a seen x ahead f s m y old g = elim (Bool-cases (s == a)) [
    | inl e ↦
        let same : s ≡ a = (==_iff s a).0 e in
        omega (arith, First-length pick h f (subst (λ s. First pick h m (some s) y) same g))
    | inr e ↦ omega (arith, ahead s m y (rw e at old) g)
  ]

  First-walk :
      (fuel n : ℕ) (seen : List ℕ) (cur : Option ℕ) (x : A)
      → unseen (length h) seen < fuel
      → Ahead n seen
      → First pick h n cur x
      → walk pick h fuel seen cur ≡ found x
  First-walk zero n seen cur x enough ahead f = absurd (omega arith)
  First-walk (suc fuel) n seen cur x enough ahead (here {a = a} e p) =
      walk-pick fuel seen a (Ahead-new 0 a seen x ahead (here e p)) e p
  First-walk (suc fuel) n seen cur x enough ahead (there {a = a} {n = k} {e = v} e p f) =
      let new = Ahead-new (suc k) a seen x ahead (there e p f) in
      walk-next fuel seen a new e p
      ∙ First-walk fuel k (a ∷ seen) (next v) x (less_unseen fuel a seen enough new e)
          (Ahead-cons k a seen x ahead (there e p f)) f

  -- The search gives an answer for every heap and every exception, on a cyclic chain too: it never
  -- runs out of fuel, however the links of the heap go.
  pub search_chain-ends : (err : Option ℕ) → ¬ (search_chain pick h err ≡ out_of_fuel)
  unfolding search_chain
  search_chain-ends err = walk-ends (suc (length h)) [] err (omega (arith, unseen-nil (length h)))

  -- The search finds x exactly if the chain of causes, with a context in place of a missing cause,
  -- leads from the exception to one that the test accepts with x, over exceptions that it refuses.
  pub search_chain_iff :
      (err : Option ℕ) (x : A)
      → (search_chain pick h err ≡ found x) ↔ ((n : ℕ) × First pick h n err x)
  unfolding search_chain Ahead mem
  search_chain_iff err x = (
    walk-First (suc (length h)) [] err x,
    λ r.
        First-walk (suc (length h)) r.0 [] err x (omega (arith, unseen-nil (length h)))
          (λ s m y old g. absurd cc) r.1,
  )
