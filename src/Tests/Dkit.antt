-- ===== src/Tests/Dkit.antt =====
-- src/core_py/dkit at concrete inputs: the key "k", a holder "a" and a rival "b".
use core_py.Base.{
  ℕ, true, false, none, some, Option, List, [], ◌∷◌, arith, ◌≡◌, refl, ◌<◌, inr, Result, ok, err,
  All,
}
use core_py.Base.Text.{Str, codes, str_eq}
use core_py.Base.Int.{pos}
use core_py.Base.Dict
use core_py.Base.Unseen.{mem}
use core_py.Dkit.Errors.{DkitError}
use core_py.Dkit.Options.{LockOptionOp, new_lock_option, lock_with_max_wait, reentrant}
use core_py.Dkit.Memory.{Mutex, Locks, try_lock, unlock, expired, is_held}
use core_py.Dkit.Memory.Exclusion.{Step, attempt, release, probe, IsForeign, run, mutual_exclusion}
use core_py.Dkit.Memory.Waiting.{Round, is_over, lock, lock_not_acquired, lock_rounds}
use core_py.Dkit.Numbers.{get_unique_random_number, get_unique_random_number_lem, first_free}
use core_py.Dkit.Kit.{DefaultKit, DistributedMutex, raised, mutex_try_do, new_default_kit}
use core_py.Dkit.Kit.Locked.{
  MemoryError, Clock, memory_mutex, acting, is_exception, mutex_try_do_frees, mutex_try_do_skips,
  memory_atomic, machine_of, new_default_kit_fresh,
}

abbrev holder : Mutex
holder = record { key = codes "k"; default_ttl = pos 100; owner = codes "a"; locked_owner = [] }

abbrev rival : Mutex
rival = record { key = codes "k"; default_ttl = pos 100; owner = codes "b"; locked_owner = [] }

free : (try_lock [] 1 2 holder []).0 ≡ true
unfolding try_lock is_held Dict.get new_lock_option
free = refl

abbrev steps : List Step
steps = attempt [] 3 3 rival ∷ release 5 rival ∷ probe 6 holder ∷ []

rival-IsForeign : IsForeign (codes "k") (codes "a") (pos 102) (attempt [] 3 3 rival)
unfolding IsForeign expired new_lock_option str_eq
rival-IsForeign = inr (refl, refl)

steps-IsForeign : All (IsForeign (codes "k") (codes "a") (pos 102)) steps
unfolding IsForeign expired new_lock_option str_eq
steps-IsForeign = (inr (refl, refl), (inr (refl, refl), (inr refl, tt)))

reentrant-again :
    (try_lock (reentrant (codes "a") ∷ []) 3 3 rival ((try_lock [] 1 2 holder []).2)).0 ≡ true
unfolding try_lock is_held Dict.get Dict.put new_lock_option reentrant expired str_eq
reentrant-again = refl

mutual_exclusion_example :
    let taken = try_lock [] 1 2 holder [] in
    let after = run steps taken.2 in
    (Dict.get (codes "k") after ≡ some (codes "a", pos 102))
    × (try_lock [] 3 3 rival after ≡ (false, rival, after))
    × ((unlock 50 taken.1 after).0 ≡ ok tt)
    × (Dict.get (codes "k") ((unlock 50 taken.1 after).2) ≡ none)
unfolding new_lock_option
mutual_exclusion_example =
    mutual_exclusion [] 1 2 holder [] steps [] 3 3 rival 50 free steps-IsForeign
      (unfold str_eq in refl) rival-IsForeign (unfold expired in refl)

-- A table that the holder "a" keeps, and a rival that waits at most 10 ticks.
abbrev held : Locks
held = (codes "k", (codes "a", pos 100)) ∷ []

abbrev waits : List LockOptionOp
waits = lock_with_max_wait (pos 10) ∷ []

abbrev rounds : List Round
rounds =
    record { others = λ l. l; now = 1; later = 1; check = 1; again = 1 }
    ∷ record { others = λ l. l; now = 11; later = 11; check = 11; again = 11 }
    ∷ []

lock-times_out : (lock waits 1 rounds rival held).0 ≡ lock_not_acquired
unfolding lock lock_rounds is_over new_lock_option lock_with_max_wait try_lock is_held Dict.get
    expired str_eq
lock-times_out = refl

get_unique_random_number-wraps : get_unique_random_number (pos 3) 2 (2 ∷ []) ≡ ok (0, 0 ∷ 2 ∷ [])
unfolding get_unique_random_number first_free mem
get_unique_random_number-wraps = refl

get_unique_random_number_lem_example :
    (num : ℕ) × (get_unique_random_number (pos 3) 2 (2 ∷ 0 ∷ []) ≡ ok (num, num ∷ 2 ∷ 0 ∷ []))
    × (num < 3)
    × (mem num (2 ∷ 0 ∷ []) ≡ false)
get_unique_random_number_lem_example =
    get_unique_random_number_lem 3 2 (2 ∷ 0 ∷ []) (omega arith) (omega arith)

abbrev clock : Clock
clock = record { now = 1; later = 2; at = 50; start = 1; rounds = [] }

abbrev kit : DefaultKit (Mutex × Locks) MemoryError
kit = record {
  atomic = record {
    get_unique_random_number = λ n s. (ok (pos 0), s);
    new_mutex = λ key. some (memory_mutex clock);
    get_mutex_default_ttl = pos 100;
  };
  machine_id = 0;
}

mutex_try_do_frees_example :
    let acted : Result MemoryError (Unit {0}) = err MemoryError.cancelled in
    let done = mutex_try_do is_exception kit (codes "k") (some (acting acted steps)) (holder, []) in
    (acted ≡ ok tt → done.0 ≡ ok true)
    × ((e : MemoryError) → acted ≡ err e → done.0 ≡ err (raised e))
    × (Dict.get (codes "k") done.1.1 ≡ none)
unfolding new_lock_option
mutex_try_do_frees_example =
    mutex_try_do_frees kit clock holder [] (err MemoryError.cancelled) steps refl free
      steps-IsForeign (unfold expired in refl)

abbrev no_mutex : Str → Option (DistributedMutex (List ℕ) DkitError)
no_mutex key = none

abbrev rival_clock : Clock
rival_clock = record { now = 3; later = 3; at = 50; start = 1; rounds = [] }

abbrev rival_kit : DefaultKit (Mutex × Locks) MemoryError
rival_kit = record {
  atomic = record {
    get_unique_random_number = λ n s. (ok (pos 0), s);
    new_mutex = λ key. some (memory_mutex rival_clock);
    get_mutex_default_ttl = pos 100;
  };
  machine_id = 0;
}

-- The holder "a" has the key while the rival "b" tries.
mutex_try_do_skips_example :
    mutex_try_do is_exception rival_kit (codes "k") (some (acting (ok tt) [])) (rival, held)
    ≡ (ok false, (rival, held))
mutex_try_do_skips_example =
    mutex_try_do_skips rival_kit rival_clock rival held (codes "a") (pos 100) (acting (ok tt) [])
      refl (unfold Dict.get str_eq in refl)
      (unfold IsForeign expired new_lock_option str_eq in inr (refl, refl))

new_default_kit_fresh_example :
    let made = new_default_kit (some (memory_atomic 3 (pos 100) no_mutex)) (3 ∷ []) in
    (num : ℕ) × (machine_of made.0 ≡ some num)
    × (made.1 ≡ num ∷ 3 ∷ [])
    × (num < 65535)
    × (mem num (3 ∷ []) ≡ false)
new_default_kit_fresh_example =
    new_default_kit_fresh 3 (pos 100) no_mutex (3 ∷ []) (omega arith) (omega arith)
