-- ===== src/Dkit/Redis/Backends.antt =====
-- The mutexes of src/core_py/dkit/memory.py and src/core_py/dkit/redis.py side by side.
use core_py.Base.{
  ℕ, Bool, true, false, ◌&&◌, ◌||◌, Option, none, some, List, [], ◌∷◌, if◌then◌else◌, ◌≡◌, refl, ap,
  ◌∙◌, sym, subst, inl, inr, Bool-cases, Option-cases, arith,
}
use core_py.Base.Text.{Str, is_empty, or_else, str_eq, str_eq_iff}
use core_py.Base.Int.{ℤ, pos, negsuc, ◌+ℤ◌, is_positive}
use core_py.Base.Dict
use core_py.Base.Dict.{Dict}
use core_py.Dkit.Options.{LockOptionOp, LockOption, new_lock_option, new_lock_option-IsUsable}
use core_py.Dkit.Memory
use core_py.Dkit.Memory.{Mutex, Locks, expired, is_held}
use core_py.Dkit.Redis
use core_py.Dkit.Redis.{Client, RedisMutex, holds, ttl_ms, attempt, taken_by}
use core_py.Dkit.Redis.Store.{IsStore}

-- The owner of a lock that has not expired.
abbrev pub live : ℕ → Option (Str × ℤ) → Option Str
live now none = none
live now (some (owner, expires_at)) = if expired expires_at now then none else some owner

-- The mutex on the same key, with the same owner.
abbrev pub redis_of : Mutex → RedisMutex
redis_of m = record {
  key = m.key;
  default_ttl = m.default_ttl;
  owner = m.owner;
  locked_owner = m.locked_owner;
}

not_expired : (now : ℕ) (ttl : ℤ) → is_positive ttl ≡ true → expired (pos now +ℤ ttl) now ≡ false
unfolding expired
not_expired now (pos n) h = ground arith
not_expired now (negsuc n) h = absurd cc

nonempty : (h i : Str) → is_empty h ≡ false → is_empty i ≡ true → str_eq h i ≡ false
unfolding str_eq
nonempty (a ∷ h) [] n e = refl
nonempty h (b ∷ i) n e = absurd cc
nonempty [] [] n e = absurd cc

or_else-nonempty : (a b : Str) → is_empty a ≡ false → or_else a b ≡ a
or_else-nonempty [] b h = absurd cc
or_else-nonempty (x ∷ a) b h = refl

and_false : (a : Bool) → (a && false) ≡ false
and_false true = refl
and_false false = refl

module _ {σ : Type 0} (c : Client σ) (store : IsStore c) (ops : List LockOptionOp) (now : ℕ)
    (m : Mutex) (locks : Locks) (s : σ) where
  abbrev opt : LockOption
  opt = new_lock_option m.default_ttl ops

  abbrev owner : Str
  owner = or_else opt.reentrant_identity m.owner

  abbrev on_redis : Bool × (RedisMutex × σ)
  on_redis = Redis.try_lock c ops (λ s. s) (redis_of m) s

  abbrev in_memory : Bool × Mutex × Locks
  in_memory = Memory.try_lock ops now now m locks

  -- The Redis server and the table in memory agree on the key.
  abbrev Agree : σ → Locks → Type 0
  Agree s locks = c.get m.key s ≡ live now (Dict.get m.key locks)

  -- Redis also grants a lock to its own holder where the attempt has no identity.
  abbrev Granted : Type 0
  Granted =
      (on_redis.0
        ≡ (in_memory.0 || (is_empty opt.reentrant_identity && holds (c.get m.key s) owner)))
      × Agree on_redis.1.1 in_memory.2

  free-Granted :
      c.get m.key s ≡ none
      → is_held (Dict.get m.key locks) opt.reentrant_identity now ≡ false
      → Granted
  unfolding Redis.try_lock Memory.try_lock holds
  free-Granted free none_holds =
      let (wrote, has) = store.set_free m.key owner (ttl_ms opt.ttl) s free in
      let fresh = not_expired now opt.ttl (new_lock_option-IsUsable m.default_ttl ops).0 in
      rw (free, none_holds, attempted (c.set m.key owner true (ttl_ms opt.ttl) s) wrote)
        (refl, has ∙ rw (Dict.get-put_self m.key (owner, pos now +ℤ opt.ttl) locks, fresh))
    where
      attempted :
          (r : Bool × σ)
          → r.0 ≡ true
          → attempt c owner (redis_of m) r ≡ (true, (taken_by owner (redis_of m), r.1))
      attempted (true, t) h = refl
      attempted (false, t) h = absurd cc

  -- A lock that is live in both, under a given owner.
  module _ (h : Str) (t : ℤ) (entry : Dict.get m.key locks ≡ some (h, t))
      (alive : expired t now ≡ false) (there : c.get m.key s ≡ some h)
      (named : is_empty h ≡ false) where
    still_live : some h ≡ live now (Dict.get m.key locks)
    still_live = rw (entry, alive)

    mine-Granted : str_eq h owner ≡ true → Granted
    unfolding Redis.try_lock Memory.try_lock holds is_held
    mine-Granted mine = elim (Bool-cases (is_empty opt.reentrant_identity)) [
      | inl e ↦
          rw (there, mine, entry, alive, nonempty h opt.reentrant_identity named e, e)
            (
              refl,
              store.set_put m.key owner (ttl_ms opt.ttl) s
                  ∙ (ap some (sym ((str_eq_iff h owner).0 mine)) ∙ still_live),
            )
      | inr e ↦
          let same : str_eq h opt.reentrant_identity ≡ true =
            subst (λ o. str_eq h o ≡ true) (or_else-nonempty opt.reentrant_identity m.owner e)
              mine in
          let fresh = not_expired now opt.ttl (new_lock_option-IsUsable m.default_ttl ops).0 in
          rw (there, mine, entry, alive, same)
            (
              refl,
              store.set_put m.key owner (ttl_ms opt.ttl) s
                  ∙ rw (Dict.get-put_self m.key (owner, pos now +ℤ opt.ttl) locks, fresh),
            )
    ]

    other-Granted : str_eq h owner ≡ false → Granted
    unfolding Redis.try_lock Memory.try_lock holds is_held
    other-Granted other =
        let held : str_eq h opt.reentrant_identity ≡ false =
          elim (Bool-cases (is_empty opt.reentrant_identity)) [
            | inl e ↦ nonempty h opt.reentrant_identity named e
            | inr e ↦
                subst (λ o. str_eq h o ≡ false) (or_else-nonempty opt.reentrant_identity m.owner e)
                  other
          ] in
        rw
          (
            there,
            other,
            entry,
            alive,
            held,
            store.set_taken m.key owner h (ttl_ms opt.ttl) s there,
            and_false (is_empty opt.reentrant_identity),
          )
          (refl, there ∙ still_live)

  -- Where a Redis server and the table in memory agree on a key, an attempt on it has the same
  -- answer in both, but that Redis also grants the lock to its own holder where the attempt has no
  -- identity; and they agree on the key afterwards. The owners in the table are not empty.
  pub backends_agree :
      c.get m.key s ≡ live now (Dict.get m.key locks)
      → ((h : Str) (t : ℤ) → Dict.get m.key locks ≡ some (h, t) → is_empty h ≡ false)
      → (on_redis.0
          ≡ (in_memory.0 || (is_empty opt.reentrant_identity && holds (c.get m.key s) owner)))
        × (c.get m.key on_redis.1.1 ≡ live now (Dict.get m.key in_memory.2))
  backends_agree agree named = elim (Option-cases (Dict.get m.key locks)) [
    | inl e ↦ free-Granted (agree ∙ rw e) (unfold is_held in rw e)
    | inr ((h, t), e) ↦ elim (Bool-cases (expired t now)) [
      | inl gone ↦ free-Granted (agree ∙ rw (e, gone)) (unfold is_held in rw (e, gone))
      | inr alive ↦
          let there : c.get m.key s ≡ some h = agree ∙ rw (e, alive) in
          elim (Bool-cases (str_eq h owner)) [
            | inl mine ↦ mine-Granted h t e alive there (named h t e) mine
            | inr other ↦ other-Granted h t e alive there (named h t e) other
          ]
    ]
  ]
