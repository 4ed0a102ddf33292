-- ===== src/Dkit/Redis.antt =====
-- src/core_py/dkit/redis.py: the client, the scripts, and `RedisMutex`. The client is a parameter: a
-- record of the calls that the source makes. What others do to the server between two calls of one
-- operation is a function on its state.
pub mod Store
pub mod Exclusion
pub mod Renewal
pub mod Atomic
pub mod Election
pub mod Leader
pub mod Notices
pub mod Backends
use core_py.Base.{
  ℕ, Bool, true, false, Option, none, some, List, [], ◌∷◌, if◌then◌else◌, ◌==◌, Result, ok, err,
  max,
}
use core_py.Base.Text.{Str, or_else, str_eq}
use core_py.Base.Int.{ℤ, pos_part}
use core_py.Dkit.Options.{LockOption, LockOptionOp, new_lock_option}
use core_py.Dkit.Errors.{DkitError, already_unlocked}

-- A duration is in milliseconds. `set` answers whether the key was written; with `nx` it writes
-- only a key that is not there. `delete` and `pexpire` answer how many keys they found.
pub record Client {ℓ} (σ : Type ℓ) : Type ℓ where
  pub get : Str → σ → Option Str
  pub set : (key value : Str) (nx : Bool) (px : ℕ) → σ → Bool × σ
  pub exists : Str → σ → Bool
  pub del : Str → σ → ℕ × σ
  pub pexpire : Str → ℕ → σ → ℕ × σ
  pub scan_iter : (pattern : Str) → σ → List Str
  pub has_delete : Bool

-- `_to_text`
unfoldable pub to_text : Option Str → Str
to_text none = []
to_text (some value) = value

-- `_ttl_ms`
unfoldable pub ttl_ms : ℤ → ℕ
ttl_ms value = max 1 (pos_part value)

-- `redis.call("get", KEYS[1]) == ARGV[1]`; a key that is not there is no text.
unfoldable pub holds : Option Str → Str → Bool
unfolding str_eq
holds none value = false
holds (some v) value = str_eq v value

module _ {ℓ} {σ : Type ℓ} (client : Client σ) where
  -- The scripts, which the server runs as one step.
  unfoldable pub delete_if_value : Str → Str → σ → ℕ × σ
  unfolding holds
  delete_if_value key value s = if holds (client.get key s) value then client.del key s else (0, s)

  unfoldable pub pexpire_if_value : Str → Str → ℕ → σ → ℕ × σ
  unfolding holds
  pexpire_if_value key value ms s =
      if holds (client.get key s) value then client.pexpire key ms s else (0, s)

-- `owner` is the fresh `uuid.uuid4().hex`.
pub record RedisMutex : Type 0 where
  pub key : Str
  pub default_ttl : ℤ
  pub owner : Str
  pub locked_owner : Str

abbrev pub taken_by : Str → RedisMutex → RedisMutex
taken_by owner m = record m { locked_owner = owner }

module _ {ℓ} {σ : Type ℓ} (client : Client σ) where
  abbrev pub attempt : Str → RedisMutex → Bool × σ → Bool × (RedisMutex × σ)
  attempt owner m (false, s) = (false, (m, s))
  attempt owner m (true, s) = (true, (taken_by owner m, s))

  -- `between` is what others do after the read. A lock that the owner already has is written again
  -- without a test.
  unfoldable pub try_lock :
      List LockOptionOp → (between : σ → σ) → RedisMutex → σ → Bool × (RedisMutex × σ)
  unfolding new_lock_option holds ttl_ms
  try_lock ops between m s =
      let opt = new_lock_option m.default_ttl ops in
      let owner = or_else opt.reentrant_identity m.owner in
      if holds (client.get m.key s) owner
      then (true, (taken_by owner m, (client.set m.key owner false (ttl_ms opt.ttl) (between s)).1))
      else attempt owner m (client.set m.key owner true (ttl_ms opt.ttl) (between s))

  abbrev pub holder_of : RedisMutex → Str
  holder_of m = or_else m.locked_owner m.owner

  abbrev pub unlocked : RedisMutex → ℕ × σ → Result DkitError (Unit {0}) × (RedisMutex × σ)
  unlocked m (deleted, s) =
      if deleted == 0 then (err already_unlocked, (m, s)) else (ok tt, (taken_by [] m, s))

  unfoldable pub unlock : RedisMutex → σ → Result DkitError (Unit {0}) × (RedisMutex × σ)
  unfolding delete_if_value
  unlock m s = unlocked m (delete_if_value client m.key (holder_of m) s)

  unfoldable pub exist_lock : RedisMutex → σ → Bool
  exist_lock m s = client.exists m.key s
