-- ===== src/Dkit/Mongo/Exclusion.antt =====
-- `MongoMutex` of src/core_py/dkit/mongo.py: who holds a lock through the steps of others.
use core_py.Base.{ℕ, true, false, not, ◌&&◌, none, some, List, ok, All, ◌≡◌, refl, ap, ◌∙◌}
use core_py.Base.Text.{Str, is_empty, str_eq, str_eq_iff}
use core_py.Base.Int.{pos, ltb_ℤ}
use core_py.Dkit.Options.{LockOption, LockOptionOp, new_lock_option}
use core_py.Dkit.Mongo.Steps.{Step, run, Holds, Keeps, IsForeign, at_key, run-Holds}
use core_py.Dkit.Mongo.Store.{IsStore, try_lock-IsOwn, try_lock-key}
use core_py.Dkit.Mongo.{
  Detail, LockCollection, MongoMutex, with_detail, matches, contend, try_lock, unlock,
}

module _ {σ : Type 0} (c : LockCollection σ) (store : IsStore c) (key : Str) (h : Detail) where
  -- A rival whose own lock is not the one there, and who names no identity or another.
  refused_at_key :
      (opt : LockOption) (now : ℕ) (between : σ → σ) (m : MongoMutex) (s : σ)
      → ltb_ℤ h.expires (pos now) ≡ false
      → (not (is_empty opt.reentrant_identity) && str_eq h.identity opt.reentrant_identity) ≡ false
      → contend c opt now (some h) between m s ≡ (false, (m, s))
  refused_at_key opt now between m s live differs = rw live (rw differs refl)

  try_lock-refused :
      (ops : List LockOptionOp) (now : ℕ) (before between : σ → σ) (m : MongoMutex) (s : σ)
      → str_eq m.key key ≡ true
      → ltb_ℤ h.expires (pos now) ≡ false
      → matches now m.lock_detail (some h) ≡ false
      → (let identity = (new_lock_option m.default_ttl ops).reentrant_identity in
          (not (is_empty identity) && str_eq h.identity identity) ≡ false)
      → Keeps c key h before
      → Holds c key h s
      → try_lock c ops now before between m s ≡ (false, (with_detail none m, before s))
  unfolding try_lock
  try_lock-refused ops now before between m s same live own differs keeps holds =
      rw (at_key c store key h m.key s same holds) (
        rw own (
          rw (at_key c store key h m.key (before s) same (keeps s ∙ holds)) (
            refused_at_key (new_lock_option m.default_ttl ops) now between (with_detail none m)
              (before s) live differs)))

  unlock-frees :
      (m : MongoMutex) (s : σ)
      → str_eq m.key key ≡ true
      → m.lock_detail ≡ some h
      → Holds c key h s
      → ((unlock c m s).0 ≡ ok tt) × (c.find_one key ((unlock c m s).1.1) ≡ none)
  unfolding unlock
  unlock-frees m s same mine holds =
      let hit = store.delete_hit key h s holds in
      rw mine (rw ((str_eq_iff m.key key).0 same) (rw hit.0 (refl, hit.1)))

module _ {σ : Type 0} (c : LockCollection σ) (store : IsStore c) where
  -- A lock that an attempt took stays as it was taken through any steps before it expires, while
  -- no release of the key has its time of expiry and nothing else changes the key: then an attempt
  -- that remembers another lock and names no identity, or another, is refused, and the holder's
  -- release returns and frees the key.
  pub mongo_exclusion :
      (ops : List LockOptionOp) (now : ℕ) (before between : σ → σ) (m : MongoMutex) (s : σ)
      (h : Detail) (xs : List (Step σ)) (rival_ops : List LockOptionOp) (later : ℕ)
      (rival_before rival_between : σ → σ) (rival : MongoMutex)
      → (try_lock c ops now before between m s).0 ≡ true
      → (try_lock c ops now before between m s).1.0.lock_detail ≡ some h
      → All (IsForeign c m.key h) xs
      → str_eq rival.key m.key ≡ true
      → ltb_ℤ h.expires (pos later) ≡ false
      → matches later rival.lock_detail (some h) ≡ false
      → (let identity = (new_lock_option rival.default_ttl rival_ops).reentrant_identity in
          (not (is_empty identity) && str_eq h.identity identity) ≡ false)
      → Keeps c m.key h rival_before
      → let taken = try_lock c ops now before between m s in
        let after = run c xs taken.1.1 in
        (c.find_one m.key after ≡ some h)
        × ((try_lock c rival_ops later rival_before rival_between rival after).0 ≡ false)
        × ((unlock c taken.1.0 after).0 ≡ ok tt)
        × (c.find_one m.key ((unlock c taken.1.0 after).1.1) ≡ none)
  mongo_exclusion ops now before between m s h xs rival_ops later rival_before rival_between rival
        took mine foreign same live own differs keeps =
      let taken = (try_lock c ops now before between m s).1 in
      let held = try_lock-IsOwn c store ops now before between m s took ∙ mine in
      let still = run-Holds c store m.key h xs taken.1 foreign held in
      let after = run c xs taken.1 in
      let refused =
        try_lock-refused c store m.key h rival_ops later rival_before rival_between rival after same
          live own differs keeps still in
      let same_key =
        (str_eq_iff taken.0.key m.key).1 (try_lock-key c store ops now before between m s) in
      let freed = unlock-frees c store m.key h taken.0 after same_key mine still in
      (still, ap (λ r. r.0) refused, freed.0, freed.1)
