-- ===== src/Dkit/Mongo/Store.antt =====
-- `MongoMutex` of src/core_py/dkit/mongo.py: what an attempt that returns True leaves behind.
use core_py.Base.{
  ℕ, Bool, true, false, not, ◌&&◌, Option, none, some, List, ◌==◌, ◌≡◌, refl, ap, inl, inr,
  Bool-cases, and_parts, if_both, arith,
}
use core_py.Base.Text.{Str, is_empty, str_eq, str_eq_iff}
use core_py.Base.Int.{ℤ, pos, negsuc, ltb_ℤ}
use core_py.Dkit.Options.{LockOption, LockOptionOp, new_lock_option}
use core_py.Dkit.Mongo.{
  Detail, LockCollection, MongoMutex, eq_ℤ, with_detail, matches, new_detail, inserted, updated,
  contend, try_lock,
}

-- What the mutex relies on: one document to a key, and conditions on the time of expiry.
pub record IsStore {ℓ} {σ : Type ℓ} (c : LockCollection σ) : Type ℓ where
  pub insert_taken :
      (k : Str) (d h : Detail) (s : σ) → c.find_one k s ≡ some h → c.insert_one k d s ≡ (false, s)
  pub insert_put :
      (k : Str) (d : Detail) (s : σ)
      → (c.insert_one k d s).0 ≡ true
      → c.find_one k ((c.insert_one k d s).1) ≡ some d
  pub insert_other :
      (k j : Str) (d : Detail) (s : σ)
      → str_eq k j ≡ false
      → c.find_one j ((c.insert_one k d s).1) ≡ c.find_one j s
  pub update_miss :
      (k : Str) (e : ℤ) (d h : Detail) (s : σ)
      → c.find_one k s ≡ some h
      → eq_ℤ h.expires e ≡ false
      → c.update_one k e d s ≡ (0, s)
  pub update_put :
      (k : Str) (e : ℤ) (d : Detail) (s : σ)
      → ((c.update_one k e d s).0 == 0) ≡ false
      → c.find_one k ((c.update_one k e d s).1) ≡ some d
  pub update_other :
      (k j : Str) (e : ℤ) (d : Detail) (s : σ)
      → str_eq k j ≡ false
      → c.find_one j ((c.update_one k e d s).1) ≡ c.find_one j s
  pub delete_hit :
      (k : Str) (h : Detail) (s : σ)
      → c.find_one k s ≡ some h
      → ((c.delete_one k h.expires s).0 ≡ 1)
        × (c.find_one k ((c.delete_one k h.expires s).1) ≡ none)
  pub delete_miss :
      (k : Str) (e : ℤ) (h : Detail) (s : σ)
      → c.find_one k s ≡ some h
      → eq_ℤ h.expires e ≡ false
      → c.delete_one k e s ≡ (0, s)
  pub delete_other :
      (k j : Str) (e : ℤ) (s : σ)
      → str_eq k j ≡ false
      → c.find_one j ((c.delete_one k e s).1) ≡ c.find_one j s
  pub delete_key_other :
      (k j : Str) (s : σ) → str_eq k j ≡ false → c.find_one j (c.delete_key k s) ≡ c.find_one j s

eq_ℤ-≡ : (a b : ℤ) → eq_ℤ a b ≡ true → a ≡ b
unfolding eq_ℤ
eq_ℤ-≡ (pos a) (pos b) h = ground arith
eq_ℤ-≡ (pos a) (negsuc b) h = ground arith
eq_ℤ-≡ (negsuc a) (pos b) h = ground arith
eq_ℤ-≡ (negsuc a) (negsuc b) h = ground arith

Detail-≡ : (a b : Detail) → a.identity ≡ b.identity → a.expires ≡ b.expires → a ≡ b
Detail-≡ a b who when = λ i. record { identity = who i; expires = when i }

matches-≡ : (now : ℕ) (d held : Option Detail) → matches now d held ≡ true → held ≡ d
matches-≡ now none held h = cc
matches-≡ now (some d) none h = cc
matches-≡ now (some d) (some e) h =
    let (live, same) = and_parts (ltb_ℤ (pos now) e.expires) _ h in
    let (who, when) = and_parts (str_eq e.identity d.identity) _ same in
    ap some
      (Detail-≡ e d ((str_eq_iff e.identity d.identity).0 who) (eq_ℤ-≡ e.expires d.expires when))

module _ {σ : Type 0} (c : LockCollection σ) (store : IsStore c) where
  -- The key holds what the mutex remembers.
  abbrev pub IsOwn : Str → MongoMutex × σ → Type 0
  IsOwn key (m, s) = c.find_one key s ≡ m.lock_detail

  inserted-IsOwn :
      (k : Str) (d : Detail) (m : MongoMutex) (r : Bool × σ)
      → (r.0 ≡ true → c.find_one k r.1 ≡ some d)
      → (inserted c d m r).0 ≡ true
      → IsOwn k ((inserted c d m r).1)
  inserted-IsOwn k d m (true, s) put h = put refl
  inserted-IsOwn k d m (false, s) put h = cc

  updated-IsOwn :
      (k : Str) (d : Detail) (m : MongoMutex) (r : ℕ × σ)
      → ((r.0 == 0) ≡ false → c.find_one k r.1 ≡ some d)
      → (updated c d m r).0 ≡ true
      → IsOwn k ((updated c d m r).1)
  updated-IsOwn k d m (n, s) put h = elim (Bool-cases (n == 0)) [
    | inl e ↦ cc
    | inr e ↦ rw e (put e)
  ]

  contend-IsOwn :
      (opt : LockOption) (now : ℕ) (between : σ → σ) (m : MongoMutex) (s : σ) (doc : Option Detail)
      → c.find_one m.key s ≡ doc
      → (contend c opt now doc between m s).0 ≡ true
      → IsOwn m.key ((contend c opt now doc between m s).1)
  contend-IsOwn opt now between m s none at h =
      inserted-IsOwn m.key (new_detail opt now) m _
        (store.insert_put m.key (new_detail opt now) (between s)) h
  contend-IsOwn opt now between m s (some doc) at h =
      elim (Bool-cases (ltb_ℤ doc.expires (pos now))) [
        | inl e ↦ rw e (
            updated-IsOwn m.key (new_detail opt now) m _
              (store.update_put m.key doc.expires (new_detail opt now) (between s)) (rw e at h))
        | inr e ↦
            elim (Bool-cases (
              not (is_empty opt.reentrant_identity)
              && str_eq doc.identity opt.reentrant_identity)) [
                | inl i ↦ rw e (rw i at)
                | inr i ↦ cc
              ]
      ]

  pub try_lock-IsOwn :
      (ops : List LockOptionOp) (now : ℕ) (before between : σ → σ) (m : MongoMutex) (s : σ)
      → (try_lock c ops now before between m s).0 ≡ true
      → IsOwn m.key ((try_lock c ops now before between m s).1)
  unfolding try_lock
  try_lock-IsOwn ops now before between m s h =
      elim (Bool-cases (matches now m.lock_detail (c.find_one m.key s))) [
        | inl e ↦ rw e (matches-≡ now m.lock_detail (c.find_one m.key s) e)
        | inr e ↦ rw e (
            contend-IsOwn (new_lock_option m.default_ttl ops) now between (with_detail none m)
              (before s) (c.find_one m.key (before s)) refl (rw e at h))
      ]

  inserted-key : (d : Detail) (m : MongoMutex) (r : Bool × σ) → (inserted c d m r).1.0.key ≡ m.key
  inserted-key d m (true, s) = refl
  inserted-key d m (false, s) = refl

  updated-key : (d : Detail) (m : MongoMutex) (r : ℕ × σ) → (updated c d m r).1.0.key ≡ m.key
  updated-key d m (n, s) =
      if_both (λ (x : Bool × (MongoMutex × σ)). x.1.0.key ≡ m.key) (n == 0) refl refl

  contend-key :
      (opt : LockOption) (now : ℕ) (doc : Option Detail) (between : σ → σ) (m : MongoMutex) (s : σ)
      → (contend c opt now doc between m s).1.0.key ≡ m.key
  contend-key opt now none between m s = inserted-key (new_detail opt now) m _
  contend-key opt now (some doc) between m s =
      if_both (λ (x : Bool × (MongoMutex × σ)). x.1.0.key ≡ m.key) (ltb_ℤ doc.expires (pos now))
        (updated-key (new_detail opt now) m _)
        (if_both (λ (x : Bool × (MongoMutex × σ)). x.1.0.key ≡ m.key)
          (not (is_empty opt.reentrant_identity) && str_eq doc.identity opt.reentrant_identity) refl
          refl)

  pub try_lock-key :
      (ops : List LockOptionOp) (now : ℕ) (before between : σ → σ) (m : MongoMutex) (s : σ)
      → (try_lock c ops now before between m s).1.0.key ≡ m.key
  unfolding try_lock
  try_lock-key ops now before between m s =
      if_both (λ (x : Bool × (MongoMutex × σ)). x.1.0.key ≡ m.key)
        (matches now m.lock_detail (c.find_one m.key s)) refl
        (contend-key (new_lock_option m.default_ttl ops) now (c.find_one m.key (before s)) between
          (with_detail none m) (before s))
