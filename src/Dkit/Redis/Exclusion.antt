-- ===== src/Dkit/Redis/Exclusion.antt =====
-- `RedisMutex` of src/core_py/dkit/redis.py: who holds a lock through the steps of others.
use core_py.Base.{
  ℕ, Bool, true, false, none, some, List, [], ◌∷◌, ◌==◌, ok, All, ◌≡◌, ap, ◌∙◌, sym, subst, ◌⊎◌,
  inl, inr, Bool-cases,
}
use core_py.Base.Text.{or_else_twice, Str, str_eq, str_eq_iff}
use core_py.Dkit.Options.{LockOptionOp, new_lock_option}
use core_py.Dkit.Redis.{
  Client, holds, ttl_ms, delete_if_value, RedisMutex, taken_by, attempt, try_lock, holder_of,
  unlock, unlocked,
}
use core_py.Dkit.Redis.Store.{IsStore, owner_of, try_lock-takes, unlock-frees}

-- A step of some mutex, or something else that happens to the server.
pub data Step {ℓ} (σ : Type ℓ) : Type ℓ where
  attempts : (ops : List LockOptionOp) (between : σ → σ) (m : RedisMutex) → Step σ
  releases : (m : RedisMutex) → Step σ
  happens : (σ → σ) → Step σ

module _ {σ : Type 0} (c : Client σ) where
  unfoldable pub step : Step σ → σ → σ
  step (attempts ops between m) s = (try_lock c ops between m s).1.1
  step (releases m) s = (unlock c m s).1.1
  step (happens f) s = f s

  unfoldable pub run : List (Step σ) → σ → σ
  unfolding step
  run [] s = s
  run (x ∷ xs) s = run xs (step x s)

  -- The key keeps its value.
  abbrev pub Keeps : Str → (σ → σ) → Type 0
  Keeps key f = (s : σ) → c.get key (f s) ≡ c.get key s

  -- A step of another owner, or one that leaves the key: it neither expires nor is it changed.
  unfoldable pub IsForeign : Str → Str → Step σ → Type 0
  IsForeign key holder (attempts ops between m) =
      ((str_eq m.key key ≡ false) ⊎ (str_eq holder (owner_of ops m) ≡ false)) × Keeps key between
  IsForeign key holder (releases m) =
      (str_eq m.key key ≡ false) ⊎ (str_eq holder (holder_of c m) ≡ false)
  IsForeign key holder (happens f) = Keeps key f

module _ {σ : Type 0} (c : Client σ) (store : IsStore c) (key holder : Str) where
  abbrev pub Holds : σ → Type 0
  Holds s = c.get key s ≡ some holder

  at_key : (k : Str) (s : σ) → str_eq k key ≡ true → Holds s → c.get k s ≡ some holder
  at_key k s same h = subst (λ k. c.get k s ≡ some holder) (sym ((str_eq_iff k key).0 same)) h

  attempt-Holds :
      (owner : Str) (m : RedisMutex) (r : Bool × σ) → Holds r.1 → Holds ((attempt c owner m r).1.1)
  attempt-Holds owner m (true, s) h = h
  attempt-Holds owner m (false, s) h = h

  unlocked-Holds : (m : RedisMutex) (r : ℕ × σ) → Holds r.1 → Holds ((unlocked c m r).1.1)
  unlocked-Holds m (n, s) h = elim (Bool-cases (n == 0)) [ inl e ↦ rw e h | inr e ↦ rw e h ]

  -- An attempt of another owner on the key is refused.
  pub try_lock-refused :
      (ops : List LockOptionOp) (between : σ → σ) (m : RedisMutex) (s : σ)
      → str_eq m.key key ≡ true
      → str_eq holder (owner_of ops m) ≡ false
      → Keeps c key between
      → Holds s
      → try_lock c ops between m s ≡ (false, (m, between s))
  unfolding try_lock holds
  try_lock-refused ops between m s same differs keeps h =
      let later : Holds (between s) = keeps s ∙ h in
      rw (
        at_key m.key s same h,
        differs,
        store.set_taken m.key (owner_of ops m) holder _ (between s)
            (at_key m.key (between s) same later),
      )

  other_key-Holds :
      (ops : List LockOptionOp) (between : σ → σ) (m : RedisMutex) (s : σ)
      → str_eq m.key key ≡ false
      → Keeps c key between
      → Holds s
      → Holds ((try_lock c ops between m s).1.1)
  unfolding try_lock
  other_key-Holds ops between m s other keeps h =
      let owner = owner_of ops m in
      let px = ttl_ms ((new_lock_option m.default_ttl ops).ttl) in
      let later : Holds (between s) = keeps s ∙ h in
      elim (Bool-cases (holds (c.get m.key s) owner)) [
        | inl e ↦ rw e (store.set_other m.key key owner false px (between s) other ∙ later)
        | inr e ↦ rw e (
            attempt-Holds owner m (c.set m.key owner true px (between s))
              (store.set_other m.key key owner true px (between s) other ∙ later))
      ]

  attempts-Holds :
      (ops : List LockOptionOp) (between : σ → σ) (m : RedisMutex) (s : σ)
      → IsForeign c key holder (attempts ops between m)
      → Holds s
      → Holds ((try_lock c ops between m s).1.1)
  unfolding IsForeign
  attempts-Holds ops between m s (inl other, keeps) h =
      other_key-Holds ops between m s other keeps h
  attempts-Holds ops between m s (inr differs, keeps) h = elim (Bool-cases (str_eq m.key key)) [
    | inl same ↦
        subst (λ r. Holds (r.1.1)) (sym (try_lock-refused ops between m s same differs keeps h))
          (keeps s ∙ h)
    | inr other ↦ other_key-Holds ops between m s other keeps h
  ]

  delete-Holds :
      (m : RedisMutex) (s : σ)
      → (str_eq m.key key ≡ false) ⊎ (str_eq holder (holder_of c m) ≡ false)
      → Holds s
      → Holds ((delete_if_value c m.key (holder_of c m) s).1)
  unfolding delete_if_value holds
  delete-Holds m s f h = elim (Bool-cases (str_eq m.key key)) [
    | inr other ↦ elim (Bool-cases (holds (c.get m.key s) (holder_of c m))) [
      | inl e ↦ rw e (store.del_other m.key key s other ∙ h)
      | inr e ↦ rw e h
    ]
    | inl same ↦ elim f [
      | inl other ↦ absurd cc
      | inr differs ↦ rw (at_key m.key s same h, differs) h
    ]
  ]

  step-Holds : (x : Step σ) (s : σ) → IsForeign c key holder x → Holds s → Holds (step c x s)
  unfolding step IsForeign unlock
  step-Holds (attempts ops between m) s f h = attempts-Holds ops between m s f h
  step-Holds (releases m) s f h =
      unlocked-Holds m (delete_if_value c m.key (holder_of c m) s) (delete-Holds m s f h)
  step-Holds (happens g) s f h = f s ∙ h

  pub run-Holds :
      (xs : List (Step σ)) (s : σ) → All (IsForeign c key holder) xs → Holds s → Holds (run c xs s)
  unfolding run
  run-Holds [] s fs h = h
  run-Holds (x ∷ xs) s (f, fs) h = run-Holds xs (step c x s) fs (step-Holds x s f h)

module _ {σ : Type 0} (c : Client σ) (store : IsStore c) where
  -- A lock that an attempt took stays with its owner through any steps of other owners, while the
  -- key does not expire: an attempt of another owner is refused, and the owner's release returns
  -- and frees the key.
  pub redis_exclusion :
      (ops : List LockOptionOp) (between : σ → σ) (m : RedisMutex) (s : σ) (xs : List (Step σ))
      (rival_ops : List LockOptionOp) (rival_between : σ → σ) (rival : RedisMutex)
      → (try_lock c ops between m s).0 ≡ true
      → All (IsForeign c m.key (owner_of ops m)) xs
      → str_eq rival.key m.key ≡ true
      → str_eq (owner_of ops m) (owner_of rival_ops rival) ≡ false
      → Keeps c m.key rival_between
      → let taken = try_lock c ops between m s in
        let after = run c xs taken.1.1 in
        (c.get m.key after ≡ some (owner_of ops m))
        × ((try_lock c rival_ops rival_between rival after).0 ≡ false)
        × ((unlock c taken.1.0 after).0 ≡ ok tt)
        × (c.get m.key ((unlock c taken.1.0 after).1.1) ≡ none)
  redis_exclusion ops between m s xs rival_ops rival_between rival h fs same differs keeps =
      let (held, mine) = try_lock-takes c store ops between m s h in
      let owner = owner_of ops m in
      let after = run c xs ((try_lock c ops between m s).1.1) in
      let still = run-Holds c store m.key owner xs ((try_lock c ops between m s).1.1) fs held in
      let refused =
        try_lock-refused c store m.key owner rival_ops rival_between rival after same differs keeps
          still in
      let back : owner ≡ holder_of c (taken_by owner m) =
        sym (or_else_twice ((new_lock_option m.default_ttl ops).reentrant_identity) m.owner) in
      let (freed, gone) = unlock-frees c store (taken_by owner m) after (still ∙ ap some back) in
      rw mine (still, ap (λ r. r.0) refused, freed, gone)
