-- ===== src/Dkit/Memory/Waiting.antt =====
-- `InMemoryMutex.lock` of src/core_py/dkit/memory.py: attempts with sleeps between them, until one
-- takes the lock or the longest wait is over. A round says what other tasks have done to the table
-- before its attempt, and the readings of the clock.
use core_py.Base.{ℕ, Bool, true, false, ◌&&◌, some, List, [], ◌∷◌, if◌then◌else◌, ◌≡◌, ◌+◌, ◌⊎◌}
use core_py.Base.Int.{ℤ, pos, negsuc, sub_ℕ, ◌+ℤ◌, leb_ℤ, is_positive}
use core_py.Base.Dict
use core_py.Dkit.Options.{LockOption, LockOptionOp, new_lock_option}
use core_py.Dkit.Memory.{Locks, Mutex, try_lock}
use core_py.Dkit.Memory.Exclusion.{owner_of, expiry_of}

pub record Round : Type 0 where
  pub others : Locks → Locks
  pub now : ℕ
  pub later : ℕ
  pub check : ℕ
  pub again : ℕ

pub data Wait : Type 0 where
  acquired : Wait
  lock_not_acquired : Wait
  waiting : Wait

abbrev pub min_ℤ : ℤ → ℤ → ℤ
min_ℤ a b = if leb_ℤ a b then a else b

abbrev pub max_ℤ : ℤ → ℤ → ℤ
max_ℤ a b = if leb_ℤ a b then b else a

-- `opt.max_wait_time > 0 and time.time() - start >= opt.max_wait_time`
unfoldable pub is_over : LockOption → ℕ → ℕ → Bool
is_over opt start check =
    is_positive opt.max_wait_time && leb_ℤ opt.max_wait_time (sub_ℕ check start)

abbrev pub neg_ℤ : ℤ → ℤ
neg_ℤ (pos n) = sub_ℕ 0 n
neg_ℤ (negsuc n) = pos (n + 1)

unfoldable pub sleep_for : LockOption → ℕ → ℕ → ℤ
sleep_for opt start again =
    if is_positive opt.max_wait_time
    then min_ℤ opt.spin_interval (max_ℤ (pos 0) (opt.max_wait_time +ℤ neg_ℤ (sub_ℕ again start)))
    else opt.spin_interval

-- The result, the mutex and the table, and how long the sleeps were.
abbrev pub Waited : Type 0
Waited = Wait × Mutex × Locks × List ℤ

abbrev add_sleep : ℤ → Waited → Waited
add_sleep t (w, m, locks, sleeps) = (w, m, locks, t ∷ sleeps)

unfoldable pub lock_rounds :
    LockOption → List LockOptionOp → ℕ → List Round → Mutex → Locks → Waited
unfolding is_over sleep_for
lock_rounds opt ops start [] m locks = (waiting, m, locks, [])
lock_rounds opt ops start (r ∷ rounds) m locks =
    let tried = try_lock ops r.now r.later m (r.others locks) in
    let rest = lock_rounds opt ops start rounds tried.1 tried.2 in
    if tried.0
    then (acquired, tried.1, tried.2, [])
    else if is_over opt start r.check
    then (lock_not_acquired, tried.1, tried.2, [])
    else add_sleep (sleep_for opt start r.again) rest

unfoldable pub lock : List LockOptionOp → ℕ → List Round → Mutex → Locks → Waited
unfolding lock_rounds
lock ops start rounds m locks =
    lock_rounds (new_lock_option m.default_ttl ops) ops start rounds m locks

pub data Among : Round → List Round → Type 0 where
  here : {r : Round} {rounds : List Round} → Among r (r ∷ rounds)
  there : {r x : Round} {rounds : List Round} → Among r rounds → Among r (x ∷ rounds)

-- How the attempts end: in some round the lock is taken, for the full time to live from that
-- round's clock, or the wait is over; else no round's clock shows that it is over.
abbrev Ends : LockOption → List LockOptionOp → ℕ → List Round → Mutex → Waited → Type 0
Ends opt ops start rounds m w =
    ((w.0 ≡ waiting) × ((r : Round) → Among r rounds → is_over opt start r.check ≡ false))
    ⊎ ((r : Round) × Among r rounds
        × (((w.0 ≡ lock_not_acquired) × (is_over opt start r.check ≡ true))
            ⊎ ((w.0 ≡ acquired)
                × (Dict.get m.key w.2 ≡ some (owner_of ops m, expiry_of ops r.later m)))))
