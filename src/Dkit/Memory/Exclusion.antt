-- ===== src/Dkit/Memory/Exclusion.antt =====
-- Mutual exclusion: a lock that was taken stays with its owner until it expires, through any
-- sequence of steps that other owners take on the same table.
use core_py.Base.{
  ℕ, true, false, Option, none, some, List, [], ◌∷◌, ok, All, ◌≡◌, ap, ◌∙◌, sym, ◌⊎◌, inl, inr,
  Bool-cases, subst,
}
use core_py.Base.Text.{or_else_twice, Str, or_else, str_eq, str_eq_iff, str_eq_refl}
use core_py.Base.Int.{ℤ, pos, ◌+ℤ◌}
use core_py.Base.Dict
use core_py.Base.Dict.{Dict}
use core_py.Dkit.Options.{LockOptionOp, new_lock_option}
use core_py.Dkit.Memory.{
  Locks, Mutex, expired, is_held, try_lock, unlock, unlock_entry, exist_lock, exist_entry,
  holder_of, with_locked_owner,
}

-- One step of some mutex of the backend, with the readings of the clock.
pub data Step : Type 0 where
  attempt : (ops : List LockOptionOp) (now later : ℕ) (m : Mutex) → Step
  release : (now : ℕ) (m : Mutex) → Step
  probe : (now : ℕ) (m : Mutex) → Step

unfoldable pub step : Step → Locks → Locks
step (attempt ops now later m) locks = (try_lock ops now later m locks).2
step (release now m) locks = (unlock now m locks).2
step (probe now m) locks = (exist_lock now m locks).1

unfoldable pub run : List Step → Locks → Locks
unfolding step
run [] locks = locks
run (s ∷ steps) locks = run steps (step s locks)

-- A step that the holder of a lock does not take, before the lock expires: on another key, or under
-- another identity.
unfoldable pub IsForeign : Str → Str → ℤ → Step → Type 0
IsForeign key holder expires_at (attempt ops now later m) =
    (str_eq m.key key ≡ false)
    ⊎ ((expired expires_at now ≡ false)
        × (str_eq holder ((new_lock_option m.default_ttl ops).reentrant_identity) ≡ false))
IsForeign key holder expires_at (release now m) =
    (str_eq m.key key ≡ false)
    ⊎ ((expired expires_at now ≡ false) × (str_eq holder (holder_of m) ≡ false))
IsForeign key holder expires_at (probe now m) =
    (str_eq m.key key ≡ false) ⊎ (expired expires_at now ≡ false)

module _ (key holder : Str) (expires_at : ℤ) where
  abbrev pub Holds : Locks → Type 0
  Holds locks = Dict.get key locks ≡ some (holder, expires_at)

  remove-Holds :
      (k : Str) (locks : Locks) → str_eq k key ≡ false → Holds locks → Holds (Dict.remove k locks)
  remove-Holds k locks other h = Dict.get-remove k key locks ∙ rw other h

  at_key :
      (m : Mutex) (locks : Locks)
      → str_eq m.key key ≡ true
      → Holds locks
      → Dict.get m.key locks ≡ some (holder, expires_at)
  at_key m locks same h =
      subst (λ k. Dict.get k locks ≡ some (holder, expires_at))
        (sym ((str_eq_iff m.key key).0 same)) h

  -- A foreign attempt on the key fails and leaves the table as it is.
  pub try_lock-refused :
      (ops : List LockOptionOp) (now later : ℕ) (m : Mutex) (locks : Locks)
      → str_eq m.key key ≡ true
      → IsForeign key holder expires_at (attempt ops now later m)
      → Holds locks
      → try_lock ops now later m locks ≡ (false, m, locks)
  unfolding try_lock IsForeign is_held
  try_lock-refused ops now later m locks same (inl other) h = absurd cc
  try_lock-refused ops now later m locks same (inr (live, differs)) h =
      rw (at_key m locks same h, is_held, live, differs)

  put-Holds :
      (k : Str) (v : Str × ℤ) (locks : Locks)
      → str_eq k key ≡ false
      → Holds locks
      → Holds (Dict.put k v locks)
  put-Holds k v locks other h = Dict.get-put_ne k key v locks other ∙ h

  attempt-Holds :
      (ops : List LockOptionOp) (now later : ℕ) (m : Mutex) (locks : Locks)
      → IsForeign key holder expires_at (attempt ops now later m)
      → Holds locks
      → Holds ((try_lock ops now later m locks).2)
  unfolding try_lock
  attempt-Holds ops now later m locks f h = elim (Bool-cases (str_eq m.key key)) [
    | inl same ↦ subst (λ r. Holds (r.2)) (sym (try_lock-refused ops now later m locks same f h)) h
    | inr other ↦
        let opt = new_lock_option m.default_ttl ops in
        elim (Bool-cases (is_held (Dict.get m.key locks) opt.reentrant_identity now)) [
          | inl e ↦ rw e h
          | inr e ↦ rw e (
              put-Holds m.key (or_else opt.reentrant_identity m.owner, pos later +ℤ opt.ttl) locks
                other h)
        ]
  ]

  unlock_entry-Holds :
      (o : Option (Str × ℤ)) (now : ℕ) (m : Mutex) (locks : Locks)
      → str_eq m.key key ≡ false
      → Holds locks
      → Holds ((unlock_entry o now m locks).2)
  unlock_entry-Holds none now m locks other h = h
  unlock_entry-Holds (some (owner, t)) now m locks other h = elim (Bool-cases (expired t now)) [
    | inl e ↦ rw e (remove-Holds m.key locks other h)
    | inr e ↦ elim (Bool-cases (str_eq owner (holder_of m))) [
      | inl d ↦ rw (e, d) (remove-Holds m.key locks other h)
      | inr d ↦ rw (e, d) h
    ]
  ]

  exist_entry-Holds :
      (o : Option (Str × ℤ)) (now : ℕ) (k : Str) (locks : Locks)
      → str_eq k key ≡ false
      → Holds locks
      → Holds ((exist_entry o now k locks).1)
  exist_entry-Holds none now k locks other h = h
  exist_entry-Holds (some (owner, t)) now k locks other h = elim (Bool-cases (expired t now)) [
    | inl e ↦ rw e (remove-Holds k locks other h)
    | inr e ↦ rw e h
  ]

  step-Holds :
      (s : Step) (locks : Locks)
      → IsForeign key holder expires_at s
      → Holds locks
      → Holds (step s locks)
  unfolding step IsForeign unlock exist_lock
  step-Holds (attempt ops now later m) locks f h = attempt-Holds ops now later m locks f h
  step-Holds (release now m) locks (inl other) h =
      unlock_entry-Holds (Dict.get m.key locks) now m locks other h
  step-Holds (release now m) locks (inr (live, differs)) h = elim (Bool-cases (str_eq m.key key)) [
    | inl same ↦
        subst (λ o. Holds ((unlock_entry o now m locks).2)) (sym (at_key m locks same h))
          (rw (live, differs) h)
    | inr other ↦ unlock_entry-Holds (Dict.get m.key locks) now m locks other h
  ]
  step-Holds (probe now m) locks (inl other) h =
      exist_entry-Holds (Dict.get m.key locks) now m.key locks other h
  step-Holds (probe now m) locks (inr live) h = elim (Bool-cases (str_eq m.key key)) [
    | inl same ↦
        subst (λ o. Holds ((exist_entry o now m.key locks).1)) (sym (at_key m locks same h))
          (rw live h)
    | inr other ↦ exist_entry-Holds (Dict.get m.key locks) now m.key locks other h
  ]

  pub run-Holds :
      (steps : List Step) (locks : Locks)
      → All (IsForeign key holder expires_at) steps
      → Holds locks
      → Holds (run steps locks)
  unfolding run
  run-Holds [] locks f h = h
  run-Holds (s ∷ steps) locks (f, fs) h = run-Holds steps (step s locks) fs (step-Holds s locks f h)

-- The owner under which an attempt takes the lock, and when the lock then expires.
abbrev pub owner_of : List LockOptionOp → Mutex → Str
owner_of ops m = or_else ((new_lock_option m.default_ttl ops).reentrant_identity) m.owner

abbrev pub expiry_of : List LockOptionOp → ℕ → Mutex → ℤ
expiry_of ops later m = pos later +ℤ (new_lock_option m.default_ttl ops).ttl

abbrev pub after_lock : List LockOptionOp → ℕ → Mutex → Locks → Locks
after_lock ops later m locks = Dict.put m.key (owner_of ops m, expiry_of ops later m) locks

pub try_lock-true :
    (ops : List LockOptionOp) (now later : ℕ) (m : Mutex) (locks : Locks)
    → (try_lock ops now later m locks).0 ≡ true
    → try_lock ops now later m locks
      ≡ (true, with_locked_owner (owner_of ops m) m, after_lock ops later m locks)
unfolding try_lock
try_lock-true ops now later m locks h =
    let opt = new_lock_option m.default_ttl ops in
    elim (Bool-cases (is_held (Dict.get m.key locks) opt.reentrant_identity now)) [
      | inl e ↦ absurd (true_not_false (sym (rw e at h)))
      | inr e ↦ rw e
    ]
  where
    true_not_false : true ≡ false → ⊥
    true_not_false e = cc

-- The mutex that holds a live lock gives it back.
pub unlock-holds :
    (now : ℕ) (m : Mutex) (expires_at : ℤ) (locks : Locks)
    → Dict.get m.key locks ≡ some (holder_of m, expires_at)
    → expired expires_at now ≡ false
    → unlock now m locks ≡ (ok tt, with_locked_owner [] m, Dict.remove m.key locks)
unfolding unlock
unlock-holds now m expires_at locks h live = rw (h, live, str_eq_refl (holder_of m))

-- The steps of others leave a lock that was taken to its holder, who frees it before it expires.
pub lock-unlock :
    (ops : List LockOptionOp) (now later : ℕ) (m : Mutex) (locks : Locks) (steps : List Step)
    (at : ℕ)
    → (try_lock ops now later m locks).0 ≡ true
    → All (IsForeign m.key (owner_of ops m) (expiry_of ops later m)) steps
    → expired (expiry_of ops later m) at ≡ false
    → let taken = try_lock ops now later m locks in
      let after = run steps taken.2 in
      (Dict.get m.key after ≡ some (owner_of ops m, expiry_of ops later m))
      × ((unlock at taken.1 after).0 ≡ ok tt)
      × (Dict.get m.key ((unlock at taken.1 after).2) ≡ none)
lock-unlock ops now later m locks steps at h fs live =
    let owner = owner_of ops m in
    let expires_at = expiry_of ops later m in
    let after = run steps (after_lock ops later m locks) in
    let holds =
      run-Holds m.key owner expires_at steps (after_lock ops later m locks) fs
        (Dict.get-put_self m.key (owner, expires_at) locks) in
    let mine : or_else owner m.owner ≡ owner =
      or_else_twice ((new_lock_option m.default_ttl ops).reentrant_identity) m.owner in
    let freed = unlock-holds at (with_locked_owner owner m) expires_at after (rw mine holds) live in
    rw (try_lock-true ops now later m locks h) (
      holds,
      ap (λ r. r.0) freed,
      rw freed (Dict.get-remove m.key m.key after ∙ rw (str_eq_refl m.key)),
    )

-- A lock that was taken stays through any steps that others take before it expires. After them an
-- attempt of another identity on its key fails, and its holder's release before it expires returns
-- without an error and frees the key.
pub mutual_exclusion :
    (ops : List LockOptionOp) (now later : ℕ) (m : Mutex) (locks : Locks) (steps : List Step)
    (rival_ops : List LockOptionOp) (rival_now rival_later : ℕ) (rival : Mutex) (at : ℕ)
    → (try_lock ops now later m locks).0 ≡ true
    → All (IsForeign m.key (owner_of ops m) (expiry_of ops later m)) steps
    → str_eq rival.key m.key ≡ true
    → IsForeign m.key
        (owner_of ops m)
        (expiry_of ops later m)
        (attempt rival_ops rival_now rival_later rival)
    → expired (expiry_of ops later m) at ≡ false
    → let taken = try_lock ops now later m locks in
      let after = run steps taken.2 in
      (Dict.get m.key after ≡ some (owner_of ops m, expiry_of ops later m))
      × (try_lock rival_ops rival_now rival_later rival after ≡ (false, rival, after))
      × ((unlock at taken.1 after).0 ≡ ok tt)
      × (Dict.get m.key ((unlock at taken.1 after).2) ≡ none)
mutual_exclusion ops now later m locks steps rival_ops rival_now rival_later rival at h fs same f
      live =
    let (holds, freed, gone) = lock-unlock ops now later m locks steps at h fs live in
    (
      holds,
      try_lock-refused m.key (owner_of ops m) (expiry_of ops later m) rival_ops rival_now
          rival_later rival (run steps ((try_lock ops now later m locks).2)) same f holds,
      freed,
      gone,
    )
