-- ===== src/Tests/Mongo.antt =====
-- src/core_py/dkit/mongo.py at concrete inputs: a collection is a dictionary of the documents.
use core_py.Base.{
  ℕ, Bool, true, false, Option, none, some, [], ◌∷◌, ok, if◌then◌else◌, ◌==◌, All, ◌≡◌, refl, ap,
  ◌∙◌, inl, inr, if_both, Bool-cases, arith,
}
use core_py.Base.Text.{Str, codes, str_eq, str_eq_refl}
use core_py.Base.Int.{ℤ, pos, negsuc}
use core_py.Base.Dict
use core_py.Base.Dict.{Dict}
use core_py.Dkit.Options.{new_lock_option}
use core_py.Dkit.Mongo
use core_py.Dkit.Mongo.{Detail, LockCollection, MongoMutex, eq_ℤ, matches}
use core_py.Dkit.Mongo.Store.{IsStore}
use core_py.Dkit.Mongo.Steps.{attempts, releases, probes, IsForeign, run}
use core_py.Dkit.Mongo.Exclusion.{mongo_exclusion}

abbrev Docs : Type 0
Docs = Dict Detail

abbrev insert_free : Option Detail → Str → Detail → Docs → Bool × Docs
insert_free none k d s = (true, Dict.put k d s)
insert_free (some h) k d s = (false, s)

abbrev update_met : Option Detail → Str → ℤ → Detail → Docs → ℕ × Docs
update_met none k e d s = (0, s)
update_met (some h) k e d s = if eq_ℤ h.expires e then (1, Dict.put k d s) else (0, s)

abbrev delete_met : Option Detail → Str → ℤ → Docs → ℕ × Docs
delete_met none k e s = (0, s)
delete_met (some h) k e s = if eq_ℤ h.expires e then (1, Dict.remove k s) else (0, s)

abbrev docs : LockCollection Docs
docs = record {
  find_one = λ k s. Dict.get k s;
  insert_one = λ k d s. insert_free (Dict.get k s) k d s;
  update_one = λ k e d s. update_met (Dict.get k s) k e d s;
  delete_one = λ k e s. delete_met (Dict.get k s) k e s;
  delete_key = λ k s. Dict.remove k s;
}

eq_ℤ-refl : (a : ℤ) → eq_ℤ a a ≡ true
unfolding eq_ℤ
eq_ℤ-refl (pos n) = ground arith
eq_ℤ-refl (negsuc n) = ground arith

insert_put_lem :
    (o : Option Detail) (k : Str) (d : Detail) (s : Docs)
    → (insert_free o k d s).0 ≡ true
    → Dict.get k ((insert_free o k d s).1) ≡ some d
insert_put_lem none k d s h = Dict.get-put_self k d s
insert_put_lem (some e) k d s h = cc

insert_other_lem :
    (o : Option Detail) (k j : Str) (d : Detail) (s : Docs)
    → str_eq k j ≡ false
    → Dict.get j ((insert_free o k d s).1) ≡ Dict.get j s
insert_other_lem none k j d s h = Dict.get-put_ne k j d s h
insert_other_lem (some e) k j d s h = refl

unmet : true ≡ false → ⊥
unmet h = cc

update_put_lem :
    (o : Option Detail) (k : Str) (e : ℤ) (d : Detail) (s : Docs)
    → ((update_met o k e d s).0 == 0) ≡ false
    → Dict.get k ((update_met o k e d s).1) ≡ some d
update_put_lem none k e d s h = cc
update_put_lem (some x) k e d s h = elim (Bool-cases (eq_ℤ x.expires e)) [
  | inl same ↦ rw same (Dict.get-put_self k d s)
  | inr differs ↦ absurd (unmet (rw differs at h))
]

update_other_lem :
    (o : Option Detail) (k j : Str) (e : ℤ) (d : Detail) (s : Docs)
    → str_eq k j ≡ false
    → Dict.get j ((update_met o k e d s).1) ≡ Dict.get j s
update_other_lem none k j e d s h = refl
update_other_lem (some x) k j e d s h =
    if_both (λ (r : ℕ × Docs). Dict.get j r.1 ≡ Dict.get j s) (eq_ℤ x.expires e)
      (Dict.get-put_ne k j d s h) refl

delete_other_lem :
    (o : Option Detail) (k j : Str) (e : ℤ) (s : Docs)
    → str_eq k j ≡ false
    → Dict.get j ((delete_met o k e s).1) ≡ Dict.get j s
delete_other_lem none k j e s h = refl
delete_other_lem (some x) k j e s h =
    if_both (λ (r : ℕ × Docs). Dict.get j r.1 ≡ Dict.get j s) (eq_ℤ x.expires e)
      (Dict.get-remove k j s ∙ rw h refl) refl

docs-IsStore : IsStore docs
docs-IsStore = record {
  insert_taken = λ k d h s e. rw e;
  insert_put = λ k d s. insert_put_lem (Dict.get k s) k d s;
  insert_other = λ k j d s. insert_other_lem (Dict.get k s) k j d s;
  update_miss = λ k e d h s f m. rw f (rw m refl);
  update_put = λ k e d s. update_put_lem (Dict.get k s) k e d s;
  update_other = λ k j e d s. update_other_lem (Dict.get k s) k j e d s;
  delete_hit =
      λ k h s f. rw f (rw (eq_ℤ-refl h.expires) (refl, Dict.get-remove k k s ∙ rw (str_eq_refl k)));
  delete_miss = λ k e h s f m. rw f (rw m refl);
  delete_other = λ k j e s. delete_other_lem (Dict.get k s) k j e s;
  delete_key_other = λ k j s h. Dict.get-remove k j s ∙ rw h;
}

abbrev mutex : MongoMutex
mutex = record { key = codes "k"; default_ttl = pos 5; lock_detail = none }

abbrev idle : Docs → Docs
idle s = s

abbrev lock_doc : Detail
lock_doc = record { identity = []; expires = pos 8 }

-- Taken at 3 for 5 ticks.
taken_lock : Mongo.try_lock docs [] 3 idle idle mutex [] ≡ (
  true,
  (
    record { key = codes "k"; default_ttl = pos 5; lock_detail = some lock_doc },
    (codes "k", lock_doc) ∷ [],
  ),
)
unfolding Mongo.try_lock Dict.get Dict.put new_lock_option
taken_lock = refl

rival_steps :
    All
      (IsForeign docs (codes "k") lock_doc)
      (attempts [] 4 idle idle mutex ∷ probes 7 idle mutex ∷ releases mutex ∷ [])
unfolding IsForeign
rival_steps = ((refl, λ s. refl, λ s. refl), ((refl, λ s. refl), (inr refl, tt)))

mongo_exclusion_example :
    let taken = Mongo.try_lock docs [] 3 idle idle mutex [] in
    let after =
      run docs
        (attempts [] 4 idle idle mutex ∷ probes 7 idle mutex ∷ releases mutex ∷ [])
        taken.1.1 in
    (Dict.get (codes "k") after ≡ some lock_doc)
    × ((Mongo.try_lock docs [] 8 idle idle mutex after).0 ≡ false)
    × ((Mongo.unlock docs taken.1.0 after).0 ≡ ok tt)
    × (Dict.get (codes "k") ((Mongo.unlock docs taken.1.0 after).1.1) ≡ none)
unfolding new_lock_option
mongo_exclusion_example =
    mongo_exclusion docs docs-IsStore [] 3 idle idle mutex [] lock_doc
      (attempts [] 4 idle idle mutex ∷ probes 7 idle mutex ∷ releases mutex ∷ []) [] 8 idle idle
      mutex (ap (λ r. r.0) taken_lock) (ap (λ r. r.1.0.lock_detail) taken_lock) rival_steps
      (str_eq_refl (codes "k")) refl refl refl (λ s. refl)
