-- ===== src/Dkit/Kit/Locked.antt =====
-- The default kit over the in-memory backend: an action runs with the lock held, and the lock is
-- free afterwards, however the action ends.
use core_py.Base.{
  ℕ, Bool, true, false, Option, none, some, List, [], ◌∷◌, Result, ok, err, All, length, arith, ◌≡◌,
  refl, ap, ◌<◌, ltb,
}
use core_py.Base.Text.{Str, str_eq_refl}
use core_py.Base.Int.{ℤ, pos}
use core_py.Base.Dict
use core_py.Base.Dict.{Dict}
use core_py.Base.Unseen.{mem}
use native.Mathlib.Nat.{mod-eq_of_lt}
use core_py.Dkit.Errors.{DkitError}
use core_py.Dkit.Memory.{Locks, Mutex, try_lock, unlock, expired}
use core_py.Dkit.Memory.Waiting.{Round, Wait, acquired, lock_not_acquired, waiting, lock}
use core_py.Dkit.Memory.Exclusion.{
  Step, IsForeign, run, owner_of, expiry_of, attempt, lock-unlock, try_lock-refused,
}
use core_py.Dkit.Numbers.{get_unique_random_number, get_unique_random_number_lem}
use core_py.Dkit.Kit.{
  KitError, raised, Run, DistributedMutex, Atomic, DefaultKit, mutex_try_do, run_locked_action,
  new_default_kit, init_kit,
}

-- What a step of an in-memory mutex raises: an error of the kit, or the cancellation of a sleep.
pub data MemoryError : Type 0 where
  dkit : DkitError → MemoryError
  cancelled : MemoryError

abbrev pub is_exception : MemoryError → Bool
is_exception (dkit e) = true
is_exception cancelled = false

abbrev pub lift_dkit {ℓ} : {A : Type ℓ} → Result DkitError A → Result MemoryError A
lift_dkit (ok x) = ok x
lift_dkit (err e) = err (dkit e)

-- A task that still waits when the rounds end is cancelled in its sleep.
abbrev wait_result : Wait → Result MemoryError (Unit {0})
wait_result acquired = ok tt
wait_result lock_not_acquired = err (dkit DkitError.lock_not_acquired)
wait_result waiting = err cancelled

-- The readings of the clock that a task sees: `now` and `later` in an attempt, `at` in a release,
-- `start` and `rounds` in `lock`.
pub record Clock : Type 0 where
  pub now : ℕ
  pub later : ℕ
  pub at : ℕ
  pub start : ℕ
  pub rounds : List Round

-- `InMemoryMutex` as a mutex of the kit; a state is the mutex with the table.
unfoldable pub memory_mutex : Clock → DistributedMutex (Mutex × Locks) MemoryError
unfolding try_lock unlock lock
memory_mutex c = record {
  try_lock = λ s. let r = try_lock [] c.now c.later s.0 s.1 in (ok (r.0), (r.1, r.2));
  lock = λ ops s. let w = lock ops c.start c.rounds s.0 s.1 in (wait_result w.0, (w.1, w.2));
  unlock = λ s. let r = unlock c.at s.0 s.1 in (lift_dkit r.0, (r.1, r.2));
}

-- What an action returns and does to the table, by steps of other mutexes.
abbrev pub acting :
    Result MemoryError (Unit {0}) → List Step → Run (Mutex × Locks) MemoryError (Unit {0})
acting acted steps s = (acted, (s.0, run steps s.1))

-- With the lock taken, and where other mutexes hold the key no more, the action's steps leave the
-- lock alone and it ends before the lock expires: `mutex_try_do` returns True if the action
-- returns, raises what the action raises, and either way the key is free afterwards.
pub mutex_try_do_frees :
    (kit : DefaultKit (Mutex × Locks) MemoryError) (c : Clock) (m : Mutex) (locks : Locks)
    (acted : Result MemoryError (Unit {0})) (steps : List Step)
    → kit.atomic.new_mutex m.key ≡ some (memory_mutex c)
    → (try_lock [] c.now c.later m locks).0 ≡ true
    → All (IsForeign m.key (owner_of [] m) (expiry_of [] c.later m)) steps
    → expired (expiry_of [] c.later m) c.at ≡ false
    → let done = mutex_try_do is_exception kit m.key (some (acting acted steps)) (m, locks) in
      (acted ≡ ok tt → done.0 ≡ ok true)
      × ((e : MemoryError) → acted ≡ err e → done.0 ≡ err (raised e))
      × (Dict.get m.key done.1.1 ≡ none)
unfolding mutex_try_do run_locked_action memory_mutex
mutex_try_do_frees kit c m locks (ok u) steps made h fs live =
    let (holds, freed, gone) = lock-unlock [] c.now c.later m locks steps c.at h fs live in
    rw (made, h) (rw freed (λ _. refl), λ e raises. absurd (clash raises), gone)
  where
    clash : {e : MemoryError} → ◌≡◌ {A = Result MemoryError (Unit {0})} (ok tt) (err e) → ⊥
    clash e = cc
mutex_try_do_frees kit c m locks (err x) steps made h fs live =
    let (holds, freed, gone) = lock-unlock [] c.now c.later m locks steps c.at h fs live in
    rw (made, h)
      (
        rw freed (λ returns. absurd (clash returns)),
        λ e raises. rw freed (ap (λ y. err (raised y)) (err_eq raises)),
        gone,
      )
  where
    clash : ◌≡◌ {A = Result MemoryError (Unit {0})} (err x) (ok tt) → ⊥
    clash e = cc

    err_eq : {e : MemoryError} → ◌≡◌ {A = Result MemoryError (Unit {0})} (err x) (err e) → x ≡ e
    err_eq e = cc

-- While another identity holds the key, `mutex_try_do` reports false, does not run the action and
-- leaves the table as it is, whatever the action is.
pub mutex_try_do_skips :
    (kit : DefaultKit (Mutex × Locks) MemoryError) (c : Clock) (m : Mutex) (locks : Locks)
    (holder : Str) (expires_at : ℤ) (action : Run (Mutex × Locks) MemoryError (Unit {0}))
    → kit.atomic.new_mutex m.key ≡ some (memory_mutex c)
    → Dict.get m.key locks ≡ some (holder, expires_at)
    → IsForeign m.key holder expires_at (attempt [] c.now c.later m)
    → mutex_try_do is_exception kit m.key (some action) (m, locks) ≡ (ok false, (m, locks))
unfolding mutex_try_do memory_mutex
mutex_try_do_skips kit c m locks holder expires_at action made held f = rw (
  made,
  try_lock-refused m.key holder expires_at [] c.now c.later m locks (str_eq_refl m.key) f held,
)

-- The in-memory backend gives kits their machine numbers; a state is the set of numbers given out,
-- and `start` is the random start of the search.
abbrev as_int : Result DkitError (ℕ × List ℕ) → List ℕ → Result DkitError ℤ × List ℕ
as_int (err e) allocated = (err e, allocated)
as_int (ok (num, left)) allocated = (ok (pos num), left)

abbrev pub memory_atomic :
    ℕ → ℤ → (Str → Option (DistributedMutex (List ℕ) DkitError)) → Atomic (List ℕ) DkitError
memory_atomic start default_ttl make = record {
  get_unique_random_number =
      λ max_value allocated. as_int (get_unique_random_number max_value start allocated) allocated;
  new_mutex = make;
  get_mutex_default_ttl = default_ttl;
}

abbrev pub machine_of : Result (KitError DkitError) (DefaultKit (List ℕ) DkitError) → Option ℕ
machine_of (ok kit) = some kit.machine_id
machine_of (err e) = none

-- While fewer than 65535 numbers were given out, a new kit over the in-memory backend comes about,
-- and its machine number is in range and differs from every number given out before.
pub new_default_kit_fresh :
    (start : ℕ) (default_ttl : ℤ) (make : Str → Option (DistributedMutex (List ℕ) DkitError))
    (allocated : List ℕ)
    → start < 65535
    → length allocated < 65535
    → let made = new_default_kit (some (memory_atomic start default_ttl make)) allocated in
      (num : ℕ) × (machine_of made.0 ≡ some num)
      × (made.1 ≡ num ∷ allocated)
      × (num < 65535)
      × (mem num allocated ≡ false)
unfolding new_default_kit init_kit
new_default_kit_fresh start default_ttl make allocated s few =
    let (num, e, low, new) = get_unique_random_number_lem 65535 start allocated s few in
    let fits : ltb 65535 num ≡ false = ground arith in
    let small : num < 65536 = omega arith in
    (num, rw (e, fits) (ap some (mod-eq_of_lt small)), rw e, low, new)
