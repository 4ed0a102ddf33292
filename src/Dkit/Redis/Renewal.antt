-- ===== src/Dkit/Redis/Renewal.antt =====
-- The renewal of a lock by `RedisMutex.try_lock` of src/core_py/dkit/redis.py.
use core_py.Base.{true, false, none, some, List, err, ◌≡◌, sym, subst}
use core_py.Base.Text.{or_else_twice, str_eq}
use core_py.Dkit.Options.{LockOptionOp, new_lock_option}
use core_py.Dkit.Errors.{already_unlocked}
use core_py.Dkit.Redis.{Client, RedisMutex, taken_by, try_lock, holder_of, unlock}
use core_py.Dkit.Redis.Store.{
  IsStore, owner_of, try_lock-takes, free-taken, renewed, unlock-foreign,
}

module _ {σ : Type 0} (c : Client σ) (store : IsStore c) where
  -- A mutex that already has the lock renews it without a test. Where the key expires after its
  -- read and another mutex takes the lock, both attempts return True, and the release of the other
  -- one then raises: its lock was overwritten.
  pub renewal_overwrites :
      (ops : List LockOptionOp) (m : RedisMutex) (s : σ) (expire : σ → σ)
      (rival_ops : List LockOptionOp) (rival : RedisMutex)
      → c.get m.key s ≡ some (owner_of ops m)
      → c.get m.key (expire s) ≡ none
      → rival.key ≡ m.key
      → str_eq (owner_of ops m) (owner_of rival_ops rival) ≡ false
      → let theirs = try_lock c rival_ops (λ s. s) rival (expire s) in
        let ours = try_lock c ops (λ s. theirs.1.1) m s in
        (theirs.0 ≡ true)
        × (ours.0 ≡ true)
        × ((unlock c theirs.1.0 ours.1.1).0 ≡ err already_unlocked)
  renewal_overwrites ops m s expire rival_ops rival mine gone same differs =
      let theirs = try_lock c rival_ops (λ s. s) rival (expire s) in
      let took : theirs.0 ≡ true = free-taken c store rival_ops rival (expire s) (rw same gone) in
      let after = (try_lock c ops (λ s. theirs.1.1) m s).1.1 in
      let (ours, kept) = renewed c store ops (λ s. theirs.1.1) m s mine in
      let (_, holder) = try_lock-takes c store rival_ops (λ s. s) rival (expire s) took in
      let owner = owner_of rival_ops rival in
      let back : holder_of c (taken_by owner rival) ≡ owner =
        or_else_twice ((new_lock_option rival.default_ttl rival_ops).reentrant_identity)
          rival.owner in
      (
        took,
        ours,
        rw holder (
            unlock-foreign c store (taken_by owner rival) _ (owner_of ops m)
              (subst (λ k. c.get k after ≡ some (owner_of ops m)) (sym same) kept)
              (rw back differs)),
      )
