-- ===== src/Dkit/Mongo/Steps.antt =====
-- `MongoMutex` of src/core_py/dkit/mongo.py: the steps of others, and what they leave of a lock.
use core_py.Base.{
  ℕ, Bool, true, false, not, ◌&&◌, Option, none, some, List, [], ◌∷◌, ◌==◌, Result, All, ◌≡◌, refl,
  ap, ◌∙◌, sym, subst, ◌⊎◌, inl, inr, Bool-cases, if_both,
}
use core_py.Base.Text.{Str, is_empty, str_eq, str_eq_iff}
use core_py.Base.Int.{ℤ, pos, leb_ℤ, ltb_ℤ}
use core_py.Dkit.Options.{LockOption, LockOptionOp, new_lock_option}
use core_py.Dkit.Errors.{DkitError}
use core_py.Dkit.Mongo.Store.{IsStore}
use core_py.Dkit.Mongo.{
  Detail, LockCollection, MongoMutex, eq_ℤ, with_detail, matches, new_detail, inserted, updated,
  contend, try_lock, deleted, unlock_detail, unlock, exist_doc, exist_lock,
}

pub data Step (σ : Type 0) : Type 0 where
  attempts : (ops : List LockOptionOp) (now : ℕ) (before between : σ → σ) (m : MongoMutex) → Step σ
  releases : (m : MongoMutex) → Step σ
  probes : (now : ℕ) (between : σ → σ) (m : MongoMutex) → Step σ
  happens : (σ → σ) → Step σ

abbrev pub expires_of : Option Detail → ℤ → Bool
expires_of none e = false
expires_of (some d) e = eq_ℤ e d.expires

abbrev expires_or : ℤ → Option Detail → ℤ
expires_or e none = e
expires_or e (some d) = d.expires

some-expires : {a b : Detail} → some a ≡ some b → a.expires ≡ b.expires
some-expires {a} e = ap (expires_or a.expires) e

module _ {σ : Type 0} (c : LockCollection σ) where
  unfoldable pub step : Step σ → σ → σ
  step (attempts ops now before between m) s = (try_lock c ops now before between m s).1.1
  step (releases m) s = (unlock c m s).1.1
  step (probes now between m) s = (exist_lock c now between m s).1
  step (happens f) s = f s

  unfoldable pub run : List (Step σ) → σ → σ
  run [] s = s
  run (x ∷ xs) s = run xs (step x s)

module _ {σ : Type 0} (c : LockCollection σ) (key : Str) (h : Detail) where
  abbrev pub Holds : σ → Type 0
  Holds s = c.find_one key s ≡ some h

  abbrev pub Keeps : (σ → σ) → Type 0
  Keeps f = (s : σ) → c.find_one key (f s) ≡ c.find_one key s

  -- A step before the lock expires, by any mutex that does not release a lock with the same time of
  -- expiry; nothing else changes the key.
  unfoldable pub IsForeign : Step σ → Type 0
  IsForeign (attempts ops now before between m) =
      (ltb_ℤ h.expires (pos now) ≡ false) × Keeps before × Keeps between
  IsForeign (releases m) = (str_eq m.key key ≡ false) ⊎ (expires_of m.lock_detail h.expires ≡ false)
  IsForeign (probes now between m) = (leb_ℤ h.expires (pos now) ≡ false) × Keeps between
  IsForeign (happens f) = Keeps f

module _ {σ : Type 0} (c : LockCollection σ) (store : IsStore c) (key : Str) (h : Detail) where
  pub at_key : (k : Str) (s : σ) → str_eq k key ≡ true → Holds c key h s → c.find_one k s ≡ some h
  at_key k s same holds =
      subst (λ k. c.find_one k s ≡ some h) (sym ((str_eq_iff k key).0 same)) holds

  inserted-Holds :
      (d : Detail) (m : MongoMutex) (r : Bool × σ)
      → Holds c key h r.1
      → Holds c key h ((inserted c d m r).1.1)
  inserted-Holds d m (true, s) holds = holds
  inserted-Holds d m (false, s) holds = holds

  updated-Holds :
      (d : Detail) (m : MongoMutex) (r : ℕ × σ)
      → Holds c key h r.1
      → Holds c key h ((updated c d m r).1.1)
  updated-Holds d m (n, s) holds =
      if_both (λ (x : Bool × (MongoMutex × σ)). Holds c key h (x.1.1)) (n == 0) holds holds

  deleted-Holds :
      (m : MongoMutex) (r : ℕ × σ) → Holds c key h r.1 → Holds c key h ((deleted c m r).1.1)
  deleted-Holds m (n, s) holds =
      if_both (λ (x : Result DkitError (Unit {0}) × (MongoMutex × σ)). Holds c key h (x.1.1))
        (n == 0) holds holds

  -- What an attempt writes on another key.
  other_key-Holds :
      (opt : LockOption) (now : ℕ) (doc : Option Detail) (between : σ → σ) (m : MongoMutex) (s : σ)
      → str_eq m.key key ≡ false
      → Keeps c key h between
      → Holds c key h s
      → Holds c key h ((contend c opt now doc between m s).1.1)
  other_key-Holds opt now none between m s other keeps holds =
      inserted-Holds (new_detail opt now) m _
        (store.insert_other m.key key (new_detail opt now) (between s) other ∙ (keeps s ∙ holds))
  other_key-Holds opt now (some doc) between m s other keeps holds =
      if_both (λ (x : Bool × (MongoMutex × σ)). Holds c key h (x.1.1)) (ltb_ℤ doc.expires (pos now))
        (updated-Holds (new_detail opt now) m _ (
          store.update_other m.key key doc.expires (new_detail opt now) (between s) other
          ∙ (keeps s ∙ holds)))
        (if_both (λ (x : Bool × (MongoMutex × σ)). Holds c key h (x.1.1))
          (not (is_empty opt.reentrant_identity) && str_eq doc.identity opt.reentrant_identity)
          holds holds)

  -- On the key itself an attempt finds the live lock and writes nothing.
  live_key-Holds :
      (opt : LockOption) (now : ℕ) (between : σ → σ) (m : MongoMutex) (s : σ)
      → ltb_ℤ h.expires (pos now) ≡ false
      → Holds c key h s
      → Holds c key h ((contend c opt now (some h) between m s).1.1)
  live_key-Holds opt now between m s live holds = rw live (
      if_both (λ (x : Bool × (MongoMutex × σ)). Holds c key h (x.1.1))
        (not (is_empty opt.reentrant_identity) && str_eq h.identity opt.reentrant_identity) holds
        holds)

  contend-Holds :
      (opt : LockOption) (now : ℕ) (between : σ → σ) (m : MongoMutex) (s : σ)
      → ltb_ℤ h.expires (pos now) ≡ false
      → Keeps c key h between
      → Holds c key h s
      → Holds c key h ((contend c opt now (c.find_one m.key s) between m s).1.1)
  contend-Holds opt now between m s live keeps holds = elim (Bool-cases (str_eq m.key key)) [
    | inl same ↦ rw (at_key m.key s same holds) (live_key-Holds opt now between m s live holds)
    | inr other ↦ other_key-Holds opt now (c.find_one m.key s) between m s other keeps holds
  ]

  try_lock-Holds :
      (ops : List LockOptionOp) (now : ℕ) (before between : σ → σ) (m : MongoMutex) (s : σ)
      → ltb_ℤ h.expires (pos now) ≡ false
      → Keeps c key h before
      → Keeps c key h between
      → Holds c key h s
      → Holds c key h ((try_lock c ops now before between m s).1.1)
  unfolding try_lock
  try_lock-Holds ops now before between m s live keeps_b keeps holds =
      if_both (λ (x : Bool × (MongoMutex × σ)). Holds c key h (x.1.1))
        (matches now m.lock_detail (c.find_one m.key s)) holds
        (contend-Holds (new_lock_option m.default_ttl ops) now between (with_detail none m)
          (before s) live keeps (keeps_b s ∙ holds))

  unlock_detail-Holds :
      (d : Option Detail) (m : MongoMutex) (s : σ)
      → (str_eq m.key key ≡ false) ⊎ (expires_of d h.expires ≡ false)
      → Holds c key h s
      → Holds c key h ((unlock_detail c d m s).1.1)
  unlock_detail-Holds none m s foreign holds = holds
  unlock_detail-Holds (some d) m s (inl other) holds =
      deleted-Holds m _ (store.delete_other m.key key d.expires s other ∙ holds)
  unlock_detail-Holds (some d) m s (inr foreign) holds = elim (Bool-cases (str_eq m.key key)) [
    | inl same ↦ deleted-Holds m _ (
        ap (λ r. c.find_one key r.1)
          (store.delete_miss m.key d.expires h s (at_key m.key s same holds) foreign)
        ∙ holds)
    | inr other ↦ deleted-Holds m _ (store.delete_other m.key key d.expires s other ∙ holds)
  ]

  exist_doc-Holds :
      (now : ℕ) (between : σ → σ) (m : MongoMutex) (s : σ) (doc : Option Detail)
      → c.find_one m.key s ≡ doc
      → leb_ℤ h.expires (pos now) ≡ false
      → Keeps c key h between
      → Holds c key h s
      → Holds c key h ((exist_doc c doc now between m s).1)
  exist_doc-Holds now between m s none at live keeps holds = holds
  exist_doc-Holds now between m s (some doc) at live keeps holds =
      elim (Bool-cases (str_eq m.key key)) [
        | inl same ↦
            rw
              (subst (λ e. leb_ℤ e (pos now) ≡ false)
                (some-expires (sym (at_key m.key s same holds) ∙ at)) live)
              holds
        | inr other ↦
            if_both (λ (x : Bool × σ). Holds c key h x.1) (leb_ℤ doc.expires (pos now))
              (store.delete_key_other m.key key (between s) other ∙ (keeps s ∙ holds)) holds
      ]

  step-Holds :
      (x : Step σ) (s : σ) → IsForeign c key h x → Holds c key h s → Holds c key h (step c x s)
  unfolding step IsForeign unlock exist_lock
  step-Holds (attempts ops now before between m) s (live, keeps_b, keeps) holds =
      try_lock-Holds ops now before between m s live keeps_b keeps holds
  step-Holds (releases m) s f holds = unlock_detail-Holds m.lock_detail m s f holds
  step-Holds (probes now between m) s (live, keeps) holds =
      exist_doc-Holds now between m s (c.find_one m.key s) refl live keeps holds
  step-Holds (happens g) s f holds = f s ∙ holds

  pub run-Holds :
      (xs : List (Step σ)) (s : σ)
      → All (IsForeign c key h) xs
      → Holds c key h s
      → Holds c key h (run c xs s)
  unfolding run
  run-Holds [] s foreign holds = holds
  run-Holds (x ∷ xs) s (foreign, rest) holds =
      run-Holds xs (step c x s) rest (step-Holds x s foreign holds)
