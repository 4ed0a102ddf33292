-- ===== src/Dkit/Redis/Store.antt =====
-- What `RedisMutex` of src/core_py/dkit/redis.py relies on, and its single steps on a key.
use core_py.Base.{
  ℕ, Bool, true, false, none, some, List, ok, err, ◌≡◌, refl, ap, inl, inr, Bool-cases,
  Option-cases,
}
use core_py.Base.Text.{Str, or_else, str_eq, str_eq_refl}
use core_py.Dkit.Options.{LockOptionOp, new_lock_option}
use core_py.Dkit.Errors.{already_unlocked}
use core_py.Dkit.Redis.{
  Client, holds, ttl_ms, delete_if_value, RedisMutex, taken_by, attempt, try_lock, holder_of,
  unlock,
}

-- What the mutex relies on: the server's keys, while none of them expires in a call.
pub record IsStore {ℓ} {σ : Type ℓ} (c : Client σ) : Type ℓ where
  pub set_put : (k v : Str) (px : ℕ) (s : σ) → c.get k ((c.set k v false px s).1) ≡ some v
  pub set_free :
      (k v : Str) (px : ℕ) (s : σ)
      → c.get k s ≡ none
      → ((c.set k v true px s).0 ≡ true) × (c.get k ((c.set k v true px s).1) ≡ some v)
  pub set_taken :
      (k v w : Str) (px : ℕ) (s : σ) → c.get k s ≡ some w → c.set k v true px s ≡ (false, s)
  pub set_other :
      (k j v : Str) (nx : Bool) (px : ℕ) (s : σ)
      → str_eq k j ≡ false
      → c.get j ((c.set k v nx px s).1) ≡ c.get j s
  pub del_found :
      (k w : Str) (s : σ)
      → c.get k s ≡ some w
      → ((c.del k s).0 ≡ 1) × (c.get k ((c.del k s).1) ≡ none)
  pub del_other : (k j : Str) (s : σ) → str_eq k j ≡ false → c.get j ((c.del k s).1) ≡ c.get j s
  pub pexpire_keeps : (k j : Str) (ms : ℕ) (s : σ) → c.get j ((c.pexpire k ms s).1) ≡ c.get j s

abbrev pub owner_of : List LockOptionOp → RedisMutex → Str
owner_of ops m = or_else ((new_lock_option m.default_ttl ops).reentrant_identity) m.owner

not_both : {b : Bool} → b ≡ false → b ≡ true → ⊥
not_both f t = cc

module _ {σ : Type 0} (c : Client σ) (store : IsStore c) where
  attempt-true :
      (owner : Str) (m : RedisMutex) (r : Bool × σ)
      → (attempt c owner m r).0 ≡ true
      → (r.0 ≡ true) × (attempt c owner m r ≡ (true, (taken_by owner m, r.1)))
  attempt-true owner m (true, s) h = (refl, refl)
  attempt-true owner m (false, s) h = absurd cc

  pub set_nx-takes :
      (k v : Str) (px : ℕ) (s : σ)
      → (c.set k v true px s).0 ≡ true
      → c.get k ((c.set k v true px s).1) ≡ some v
  set_nx-takes k v px s h = elim (Option-cases (c.get k s)) [
    | inl free ↦ (store.set_free k v px s free).1
    | inr (w, taken) ↦ absurd (not_both (ap (λ r. r.0) (store.set_taken k v w px s taken)) h)
  ]

  -- An attempt that succeeds leaves the lock to its owner.
  pub try_lock-takes :
      (ops : List LockOptionOp) (between : σ → σ) (m : RedisMutex) (s : σ)
      → (try_lock c ops between m s).0 ≡ true
      → (c.get m.key ((try_lock c ops between m s).1.1) ≡ some (owner_of ops m))
        × ((try_lock c ops between m s).1.0 ≡ taken_by (owner_of ops m) m)
  unfolding try_lock
  try_lock-takes ops between m s h =
      let owner = owner_of ops m in
      let px = ttl_ms ((new_lock_option m.default_ttl ops).ttl) in
      elim (Bool-cases (holds (c.get m.key s) owner)) [
        | inl e ↦ rw e (store.set_put m.key owner px (between s), refl)
        | inr e ↦
            let (wrote, same) =
              attempt-true owner m (c.set m.key owner true px (between s)) (rw e at h) in
            rw (e, same) (set_nx-takes m.key owner px (between s) wrote, refl)
      ]

  pub unlock-frees :
      (m : RedisMutex) (s : σ)
      → c.get m.key s ≡ some (holder_of c m)
      → ((unlock c m s).0 ≡ ok tt) × (c.get m.key ((unlock c m s).1.1) ≡ none)
  unfolding unlock delete_if_value holds
  unlock-frees m s h =
      let (one, gone) = store.del_found m.key (holder_of c m) s h in
      rw (h, str_eq_refl (holder_of c m), one) (refl, gone)

  pub free-taken :
      (ops : List LockOptionOp) (m : RedisMutex) (s : σ)
      → c.get m.key s ≡ none
      → (try_lock c ops (λ s. s) m s).0 ≡ true
  unfolding try_lock holds
  free-taken ops m s free =
      let owner = owner_of ops m in
      let px = ttl_ms ((new_lock_option m.default_ttl ops).ttl) in
      rw free (
        attempt-wrote owner m (c.set m.key owner true px s)
          (store.set_free m.key owner px s free).0)
    where
      attempt-wrote :
          (owner : Str) (m : RedisMutex) (r : Bool × σ)
          → r.0 ≡ true
          → (attempt c owner m r).0 ≡ true
      attempt-wrote owner m (true, s) h = refl
      attempt-wrote owner m (false, s) h = absurd cc

  pub renewed :
      (ops : List LockOptionOp) (between : σ → σ) (m : RedisMutex) (s : σ)
      → c.get m.key s ≡ some (owner_of ops m)
      → ((try_lock c ops between m s).0 ≡ true)
        × (c.get m.key ((try_lock c ops between m s).1.1) ≡ some (owner_of ops m))
  unfolding try_lock holds
  renewed ops between m s mine =
      rw (mine, str_eq_refl (owner_of ops m))
        (refl, store.set_put m.key (owner_of ops m) _ (between s))

  pub unlock-foreign :
      (m : RedisMutex) (s : σ) (w : Str)
      → c.get m.key s ≡ some w
      → str_eq w (holder_of c m) ≡ false
      → (unlock c m s).0 ≡ err already_unlocked
  unfolding unlock delete_if_value holds
  unlock-foreign m s w h differs = rw (h, differs)
