-- ===== src/Dkit/Mongo.antt =====
-- `MongoMutex` of src/core_py/dkit/mongo.py. The collection of the locks is a parameter: a record of
-- the calls that the source makes. What others do to it between two calls of one operation is a
-- function on its state; a reading of the clock is an argument, in ticks.
pub mod Store
pub mod Steps
pub mod Exclusion
use core_py.Base.{
  ℕ, Bool, true, false, not, ◌&&◌, Option, none, some, List, if◌then◌else◌, ◌==◌, Result, ok, err,
}
use core_py.Base.Text.{Str, is_empty, str_eq}
use core_py.Base.Int.{ℤ, pos, ◌+ℤ◌, leb_ℤ, ltb_ℤ}
use core_py.Dkit.Options.{LockOption, LockOptionOp, new_lock_option}
use core_py.Dkit.Errors.{DkitError, already_unlocked}

-- The document of a lock, under its key.
pub record Detail : Type 0 where
  pub identity : Str
  pub expires : ℤ

-- `insert_one` answers whether the key was free; `update_one` and `delete_one` ask for the time of
-- expiry too, `delete_key` does not, and they answer how many documents they matched.
pub record LockCollection {ℓ} (σ : Type ℓ) : Type ℓ where
  pub find_one : Str → σ → Option Detail
  pub insert_one : Str → Detail → σ → Bool × σ
  pub update_one : (key : Str) (expires : ℤ) → Detail → σ → ℕ × σ
  pub delete_one : (key : Str) (expires : ℤ) → σ → ℕ × σ
  pub delete_key : Str → σ → σ

pub record MongoMutex : Type 0 where
  pub key : Str
  pub default_ttl : ℤ
  pub lock_detail : Option Detail

unfoldable pub eq_ℤ : ℤ → ℤ → Bool
eq_ℤ a b = leb_ℤ a b && leb_ℤ b a

abbrev pub with_detail : Option Detail → MongoMutex → MongoMutex
with_detail detail m = record m { lock_detail = detail }

-- The mutex's own lock is still there and has not expired.
abbrev pub matches : ℕ → Option Detail → Option Detail → Bool
matches now none held = false
matches now (some d) none = false
matches now (some d) (some h) =
    ltb_ℤ (pos now) h.expires && (str_eq h.identity d.identity && eq_ℤ h.expires d.expires)

abbrev pub new_detail : LockOption → ℕ → Detail
new_detail opt now = record { identity = opt.reentrant_identity; expires = pos now +ℤ opt.ttl }

module _ {ℓ} {σ : Type ℓ} (c : LockCollection σ) where
  abbrev pub inserted : Detail → MongoMutex → Bool × σ → Bool × (MongoMutex × σ)
  inserted d m (true, s) = (true, (with_detail (some d) m, s))
  inserted d m (false, s) = (false, (m, s))

  abbrev pub updated : Detail → MongoMutex → ℕ × σ → Bool × (MongoMutex × σ)
  updated d m (count, s) =
      if count == 0 then (false, (m, s)) else (true, (with_detail (some d) m, s))

  -- What an attempt does about the document that it has read.
  abbrev pub contend :
      LockOption → ℕ → Option Detail → (σ → σ) → MongoMutex → σ → Bool × (MongoMutex × σ)
  contend opt now none between m s =
      let d = new_detail opt now in inserted d m (c.insert_one m.key d (between s))
  contend opt now (some doc) between m s =
      let d = new_detail opt now in
      if ltb_ℤ doc.expires (pos now)
      then updated d m (c.update_one m.key doc.expires d (between s))
      else if not (is_empty opt.reentrant_identity) && str_eq doc.identity opt.reentrant_identity
      then (true, (with_detail (some doc) m, s))
      else (false, (m, s))

  -- `before` is what others do after the look for the own lock, `between` what they do after the
  -- second read.
  unfoldable pub try_lock :
      List LockOptionOp → ℕ → (before between : σ → σ) → MongoMutex → σ → Bool × (MongoMutex × σ)
  unfolding new_lock_option eq_ℤ str_eq
  try_lock ops now before between m s =
      let opt = new_lock_option m.default_ttl ops in
      if matches now m.lock_detail (c.find_one m.key s)
      then (true, (m, s))
      else contend opt now (c.find_one m.key (before s)) between (with_detail none m) (before s)

  abbrev pub deleted : MongoMutex → ℕ × σ → Result DkitError (Unit {0}) × (MongoMutex × σ)
  deleted m (count, s) =
      if count == 0 then (err already_unlocked, (m, s)) else (ok tt, (with_detail none m, s))

  abbrev pub unlock_detail :
      Option Detail → MongoMutex → σ → Result DkitError (Unit {0}) × (MongoMutex × σ)
  unlock_detail none m s = (err already_unlocked, (m, s))
  unlock_detail (some d) m s = deleted m (c.delete_one m.key d.expires s)

  unfoldable pub unlock : MongoMutex → σ → Result DkitError (Unit {0}) × (MongoMutex × σ)
  unlock m s = unlock_detail m.lock_detail m s

  abbrev pub exist_doc : Option Detail → ℕ → (σ → σ) → MongoMutex → σ → Bool × σ
  exist_doc none now between m s = (false, s)
  exist_doc (some doc) now between m s =
      if leb_ℤ doc.expires (pos now) then (false, c.delete_key m.key (between s)) else (true, s)

  -- `between` is what others do after the read. An expired lock is deleted without a test.
  unfoldable pub exist_lock : ℕ → (between : σ → σ) → MongoMutex → σ → Bool × σ
  exist_lock now between m s = exist_doc (c.find_one m.key s) now between m s
