-- ===== src/Dkit/Numbers.antt =====
-- `InMemoryAtomic.get_unique_random_number` of src/core_py/dkit/memory.py: the set of numbers given
-- out, and the search for a free one.
use core_py.Base.{
  ℕ, zero, suc, Bool, true, false, Option, none, some, List, ◌∷◌, if◌then◌else◌, leb, ◌==◌, length,
  Result, ok, err, arith, ◌≡◌, ap, ◌∙◌, subst, ◌+◌, ◌-◌, ◌%◌, ◌<◌, ◌≤◌, inl, inr, Bool-cases,
  leb→le,
}
use core_py.Base.Unseen.{mem, unseen, unseen-pos, unseen_number}
use core_py.Base.Int.{ℤ, pos, negsuc}
use core_py.Dkit.Errors.{DkitError, no_available_number}
use native.Mathlib.Nat.{mod-lt, mod-eq_of_lt, add-mod_right}

-- The loop over `offset`, with `left` rounds to come.
unfoldable pub first_free : ℕ → ℕ → ℕ → ℕ → List ℕ → Option ℕ
unfolding mem
first_free zero offset start max_value allocated = none
first_free (suc left) offset start max_value allocated =
    let num = (start + offset) % max_value in
    let rest = first_free left (suc offset) start max_value allocated in
    if mem num allocated then rest else some num

abbrev pub allocate : Option ℕ → List ℕ → Result DkitError (ℕ × List ℕ)
allocate none allocated = err no_available_number
allocate (some num) allocated = ok (num, num ∷ allocated)

-- `start` is `random.randrange(max_value)`.
unfoldable pub get_unique_random_number : ℤ → ℕ → List ℕ → Result DkitError (ℕ × List ℕ)
unfolding first_free
get_unique_random_number (negsuc n) start allocated = err no_available_number
get_unique_random_number (pos zero) start allocated = err no_available_number
get_unique_random_number (pos (suc n)) start allocated =
    if leb (suc n) (length allocated)
    then err no_available_number
    else allocate (first_free (suc n) 0 start (suc n) allocated) allocated

-- What the search returns is a number below the bound that was not given out.
first_free-IsFree :
    (left offset start max_value : ℕ) (allocated : List ℕ) (num : ℕ)
    → 0 < max_value
    → first_free left offset start max_value allocated ≡ some num
    → (num < max_value) × (mem num allocated ≡ false)
unfolding first_free
first_free-IsFree zero offset start max_value allocated num h e = absurd cc
first_free-IsFree (suc left) offset start max_value allocated num h e =
    elim (Bool-cases (mem ((start + offset) % max_value) allocated)) [
      | inl used ↦
          first_free-IsFree left (suc offset) start max_value allocated num h (rw used at e)
      | inr free ↦
          let same : (start + offset) % max_value ≡ num = cc (rw free at e) in
          subst (λ n. (n < max_value) × (mem n allocated ≡ false)) same
            (mod-lt (start + offset) h, free)
    ]

-- The search finds a number if one of the offsets that it tries leads to a free one.
first_free-finds :
    (left offset start max_value k : ℕ) (allocated : List ℕ)
    → offset ≤ k
    → k < offset + left
    → mem ((start + k) % max_value) allocated ≡ false
    → (num : ℕ) × (first_free left offset start max_value allocated ≡ some num)
unfolding first_free
first_free-finds zero offset start max_value k allocated a b free = absurd (omega arith)
first_free-finds (suc left) offset start max_value k allocated a b free =
    elim (Bool-cases (mem ((start + offset) % max_value) allocated)) [
      | inr e ↦ ((start + offset) % max_value, rw e)
      | inl used ↦ elim (Bool-cases (offset == k)) [
        | inl same ↦ let e : offset ≡ k = ground arith in absurd (differ (rw (← e) at free) used)
        | inr other ↦
            let (num, f) =
              first_free-finds left (suc offset) start max_value k allocated (ground arith)
                (omega arith) free in
            (num, rw used f)
      ]
    ]
  where
    differ : {b : Bool} → b ≡ false → b ≡ true → ⊥
    differ e f = cc

-- The offset that leads from the start to a number.
offset_to :
    (start a max_value : ℕ)
    → start < max_value
    → a < max_value
    → (k : ℕ) × (k < max_value) × ((start + k) % max_value ≡ a)
offset_to start a max_value s h = elim (Bool-cases (leb start a)) [
  | inl e ↦
      let le : start ≤ a = leb→le start a e in
      (a - start, omega arith, ap (λ n. n % max_value) (same le) ∙ mod-eq_of_lt h)
  | inr e ↦
      let lt : a < start = ground arith in
      (
        a + max_value - start,
        omega arith,
        ap (λ n. n % max_value) (round lt) ∙ (add-mod_right a max_value ∙ mod-eq_of_lt h),
      )
]
  where
    same : start ≤ a → start + (a - start) ≡ a
    same le = omega arith

    round : a < start → start + (a + max_value - start) ≡ a + max_value
    round lt = omega arith

-- While fewer numbers were given out than the bound, a call returns a number below the bound that
-- was not given out before, and records it.
pub get_unique_random_number_lem :
    (max_value start : ℕ) (allocated : List ℕ)
    → start < max_value
    → length allocated < max_value
    → (num : ℕ) × (get_unique_random_number (pos max_value) start allocated
        ≡ ok (num, num ∷ allocated))
      × (num < max_value)
      × (mem num allocated ≡ false)
unfolding get_unique_random_number
get_unique_random_number_lem zero start allocated s few = absurd (omega arith)
get_unique_random_number_lem (suc n) start allocated s few =
    let many : 0 < unseen (suc n) allocated = omega (arith, unseen-pos (suc n) allocated) in
    let (a, below, free) = unseen_number (suc n) allocated many in
    let (k, small, e) = offset_to start a (suc n) s below in
    let (num, f) =
      first_free-finds (suc n) 0 start (suc n) k allocated (omega arith) (omega arith)
        (rw e free) in
    let room : leb (suc n) (length allocated) ≡ false = ground arith in
    let (low, new) = first_free-IsFree (suc n) 0 start (suc n) allocated num (omega arith) f in
    (num, rw (room, f), low, new)
