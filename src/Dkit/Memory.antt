-- ===== src/Dkit/Memory.antt =====
-- `InMemoryMutex` of src/core_py/dkit/memory.py. The locks are shared by the mutexes of one backend;
-- each step runs under the guard, so that steps do not interleave. A reading of the clock is an
-- argument, in ticks.
pub mod Exclusion
pub mod Waiting
use core_py.Base.{
  ℕ, Bool, true, false, not, ◌&&◌, Option, none, some, List, [], ◌∷◌, if◌then◌else◌, Result, ok,
  err,
}
use core_py.Base.Text.{Str, or_else, str_eq}
use core_py.Base.Int.{ℤ, pos, ◌+ℤ◌, leb_ℤ}
use core_py.Base.Dict
use core_py.Base.Dict.{Dict}
use core_py.Dkit.Options.{LockOption, LockOptionOp, new_lock_option}
use core_py.Dkit.Errors.{DkitError, already_unlocked}

-- `self._locks`: the owner of each lock, and when it expires.
abbrev pub Locks : Type 0
Locks = Dict (Str × ℤ)

pub record Mutex : Type 0 where
  pub key : Str
  pub default_ttl : ℤ
  pub owner : Str
  pub locked_owner : Str

abbrev pub with_locked_owner : Str → Mutex → Mutex
with_locked_owner locked_owner m = record {
  key = m.key;
  default_ttl = m.default_ttl;
  owner = m.owner;
  locked_owner = locked_owner;
}

unfoldable pub expired : ℤ → ℕ → Bool
expired expires_at now = leb_ℤ expires_at (pos now)

-- `existing and not self._expired(existing[1]) and existing[0] != opt.reentrant_identity`
unfoldable pub is_held : Option (Str × ℤ) → Str → ℕ → Bool
unfolding expired str_eq
is_held none identity now = false
is_held (some (owner, expires_at)) identity now =
    not (expired expires_at now) && not (str_eq owner identity)

-- `now` is the reading of the test, `later` that of the write.
unfoldable pub try_lock : List LockOptionOp → ℕ → ℕ → Mutex → Locks → Bool × Mutex × Locks
unfolding new_lock_option is_held Dict.get Dict.put
try_lock ops now later m locks =
    let opt = new_lock_option m.default_ttl ops in
    let owner = or_else opt.reentrant_identity m.owner in
    if is_held (Dict.get m.key locks) opt.reentrant_identity now
    then (false, m, locks)
    else (true, with_locked_owner owner m, Dict.put m.key (owner, pos later +ℤ opt.ttl) locks)

-- The owner that `unlock` looks for.
abbrev pub holder_of : Mutex → Str
holder_of m = or_else m.locked_owner m.owner

abbrev pub unlock_entry :
    Option (Str × ℤ) → ℕ → Mutex → Locks → Result DkitError (Unit {0}) × Mutex × Locks
unlock_entry none now m locks = (err already_unlocked, m, locks)
unlock_entry (some (owner, expires_at)) now m locks =
    if expired expires_at now
    then (err already_unlocked, m, Dict.remove m.key locks)
    else if not (str_eq owner (holder_of m))
    then (err already_unlocked, m, locks)
    else (ok tt, with_locked_owner [] m, Dict.remove m.key locks)

unfoldable pub unlock : ℕ → Mutex → Locks → Result DkitError (Unit {0}) × Mutex × Locks
unlock now m locks = unlock_entry (Dict.get m.key locks) now m locks

abbrev pub exist_entry : Option (Str × ℤ) → ℕ → Str → Locks → Bool × Locks
exist_entry none now key locks = (false, locks)
exist_entry (some (owner, expires_at)) now key locks =
    if expired expires_at now then (false, Dict.remove key locks) else (true, locks)

unfoldable pub exist_lock : ℕ → Mutex → Locks → Bool × Locks
exist_lock now m locks = exist_entry (Dict.get m.key locks) now m.key locks

-- `InMemoryAtomic.new_mutex`; `identity` is the fresh `f"{id(self)}-{random.random()}"`.
unfoldable pub new_mutex : ℤ → Str → Str → Mutex
new_mutex default_ttl identity key = record {
  key = key;
  default_ttl = default_ttl;
  owner = identity;
  locked_owner = [];
}
