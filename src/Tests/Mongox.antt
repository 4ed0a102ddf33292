-- ===== src/Tests/Mongox.antt =====
-- src/core_py/model/mongox at concrete inputs: a collection that is a list of documents.
mod Reads
mod Writes
use core_py.Base.{
  ℕ, Bool, true, false, not, ◌&&◌, Option, none, some, List, [], ◌∷◌, ◌++◌, if◌then◌else◌, ok, err,
  All, ◌≡◌, refl, sym, inl, inr, Bool-cases, and_parts, length, take, map, some_inj, subst, Result,
}
use core_py.Base.Text.{Str, codes, str_eq, starts_with, lower, strip}
use core_py.Base.Dict
use core_py.Context.{Var, text, get_operator, get_tenant_id, current_context}
use core_py.Context.Keys.{fixed_key, normalize_key, dash_char}
use core_py.Model.Options.{merge_repo_opt}
use core_py.Model.Audit.{Stamp, Entity}
use core_py.Model.RepoOpt.{RepoOpt, new_repo_opt}
use core_py.Mongox.Value.{
  Value, Items, nil, cons, Fields, end, field, Attrs, stop, attr, null, bool, int, float, date,
  snowflake, arr, dict, dataclass, plain_object, get_field, put_field, remove_field, has_field,
}
use core_py.Mongox.Codec.{
  DbError, to_bson_fields, to_bson_value, parse_bson_meta, field_name, rename_id,
}
use core_py.Mongox.Codec.Plain.{IsPlain, to_bson_value-IsPlain}
use core_py.Model.RepoOpt.{soft_delete_disable}
use core_py.Mongox.Act.{known}
use core_py.Mongox.Repository.{resource_by_filter}
use core_py.Mongox.Repository.Writes.{update, modified_by_other}
use core_py.Mongox.Repository.Writes.Changes.{patch, patch_raw, delete}
use core_py.Mongox.Repository.Writes.Batch.{batch_delete_by_filter}
use core_py.Mongox.Repository.Writes.Scoped.{
  Writers, Agrees, with_writers, raw_input, writes-scoped,
}
use core_py.Mongox.Repository.Writes.Soft.{with_deletes, soft_delete-keeps}
use core_py.Mongox.Repository.Writes.Locking.{version_filter, update-stale}
use core_py.Mongox.Query.{
  str_type, FeedQueryInput, merge_feed_filter, feed_cursor_filter, normalize_feed_cursor_field,
  parse_feed_token, unwrap_optional_type,
}
use core_py.Mongox.Act.{Collection, FindOpts, UpdateResult, Supports, EntityClass, Env, Texts, Call}
use core_py.Mongox.Repository.{
  Repository, get_merged_repo_opt, supports_delete_audit, supports_tenant_audit, inject_cond,
  not_exists,
}
use core_py.Mongox.Repository.Scope.{demanded, inject_cond_lem}
use core_py.Mongox.Repository.Reads.Sound.{MeetsAll, IsSound, Read, rows_of, find_all}
use core_py.Mongox.Repository.Reads.Scoped.{rows_of-scoped}
use core_py.Mongox.Repository.Reads.{feed_cursor_field_type}
use core_py.Mongox.Repository.Reads.Feed.{
  IsOrdered, HasToken, follow, follow-all, cursor_field, page_opts,
}
use core_py.Model.Pages.{Pager}
use core_py.Base.Int.{pos}

abbrev pub said : Option Value → Str → Bool
said (some (Value.text u)) t = str_eq t u
said _ t = false

-- The conditions of the tests: a text, `$exists` and `$and`.
unfoldable mutual
  unfolding get_field str_eq

  pub meets : Str → Value → Fields → Bool
  meets k (Value.text t) d = said (get_field k d) t
  meets k (dict (field op (bool b) end)) d = not (has_field k d)
  meets k (arr xs) d = str_eq k (codes "$and") && meets_items xs d
  meets k _ d = false

  pub meets_items : Items → Fields → Bool
  meets_items nil d = true
  meets_items (cons (dict f) xs) d = meets_fields f d && meets_items xs d
  meets_items (cons _ xs) d = false

  pub meets_fields : Fields → Fields → Bool
  meets_fields end d = true
  meets_fields (field k v fs) d = meets k v d && meets_fields fs d

abbrev pub keep_met : Fields → List Fields → List Fields
keep_met f [] = []
keep_met f (d ∷ ds) = let rest = keep_met f ds in if meets_fields f d then d ∷ rest else rest

abbrev pub first_met : Fields → List Fields → Option Fields
first_met f [] = none
first_met f (d ∷ ds) = let rest = first_met f ds in if meets_fields f d then some d else rest

abbrev pub IsMet : Str → Value → Fields → Type 0
IsMet k v d = meets k v d ≡ true

meets_fields-MeetsAll : (f d : Fields) → meets_fields f d ≡ true → MeetsAll IsMet f d
unfolding meets MeetsAll
meets_fields-MeetsAll end d h = tt
meets_fields-MeetsAll (field k v fs) d h =
    let (a, b) = and_parts (meets k v d) (meets_fields fs d) h in (a, meets_fields-MeetsAll fs d b)

keep_met-All : (f : Fields) (ds : List Fields) → All (MeetsAll IsMet f) (keep_met f ds)
keep_met-All f [] = tt
keep_met-All f (d ∷ ds) = elim (Bool-cases (meets_fields f d)) [
  | inl e ↦ rw e (meets_fields-MeetsAll f d e, keep_met-All f ds)
  | inr e ↦ rw e (keep_met-All f ds)
]

first_met-MeetsAll :
    (f d : Fields) (ds : List Fields) → first_met f ds ≡ some d → MeetsAll IsMet f d
first_met-MeetsAll f d [] h = absurd cc
first_met-MeetsAll f d (x ∷ ds) h = elim (Bool-cases (meets_fields f x)) [
  | inl e ↦
      let same : x ≡ d = some_inj (rw e at h) in
      subst (MeetsAll IsMet f) same (meets_fields-MeetsAll f x e)
  | inr e ↦ first_met-MeetsAll f d ds (rw e at h)
]

abbrev pub unused : Fields → Fields → Call (List Fields) UpdateResult
unused f u s = (ok (record { matched_count = 0; modified_count = 0; upserted = false }), s)

abbrev pub rows : Collection (List Fields)
rows = record {
  name = some (codes "notes");
  class_name = codes "Collection";
  find = λ f o s. (ok (keep_met f s), s);
  find_one = λ f s. (ok (first_met f s), s);
  count_documents = λ f s. (ok (length (keep_met f s)), s);
  insert_one = λ p s. (ok tt, p ∷ s);
  insert_many = λ ps s. (ok tt, s);
  replace_one = λ f p b s. unused f p s;
  update_one = unused;
  update_many = unused;
  delete_one = λ f s. (ok 1, []);
  delete_many = λ f s. (ok 1, []);
  pause = λ s. s;
}

meets-and-MeetsAll :
    (f g d : Fields)
    → IsMet (codes "$and") (arr (cons (dict f) (cons (dict g) nil))) d
    → MeetsAll IsMet f d × MeetsAll IsMet g d
unfolding meets str_eq
meets-and-MeetsAll f g d h =
    let (a, rest) = and_parts (meets_fields f d) _ h in
    let (b, _) = and_parts (meets_fields g d) true rest in
    (meets_fields-MeetsAll f d a, meets_fields-MeetsAll g d b)

pub rows-IsSound : IsSound rows IsMet
rows-IsSound = record {
  found = λ f o s s2 docs h.
      subst (All (MeetsAll IsMet f)) (kept (keep_met f s) docs s s2 h) (keep_met-All f s);
  found_one = λ f s s2 d h. first_met-MeetsAll f d s (one (first_met f s) d s s2 h);
  both = λ f g d h. meets-and-MeetsAll f g d h;
}
  where
    kept :
        (a b : List Fields) (s t : List Fields)
        → ◌≡◌ {A = Result DbError (List Fields) × List Fields} (ok a, s) (ok b, t)
        → a ≡ b
    kept a b s t h = cc

    one :
        (o : Option Fields) (d : Fields) (s t : List Fields)
        → ◌≡◌ {A = Result DbError (Option Fields) × List Fields} (ok o, s) (ok (some d), t)
        → o ≡ some d
    one o d s t h = cc

-- A note of a tenant, with the audit parts of its class.
pub record Note : Type 0 where
  pub id : Str
  pub audit : Entity

abbrev pub blank : Stamp
blank = record { at = none; by = [] }

abbrev pub no_audit : Entity
no_audit = record {
  created = some blank;
  updated = some blank;
  deleted = some blank;
  tenant = none;
}

abbrev pub text_of : Option Value → Str
text_of (some (Value.text t)) = t
text_of _ = []

abbrev pub notes : EntityClass Note
notes = record {
  supports = some (record { creator = true; updater = true; deleter = true; tenant = true });
  get_id = λ n. Value.text n.id;
  attrs = λ n. attr (codes "id") none (Value.text n.id) stop;
  audit_of = λ n. n.audit;
  with_audit = λ e n. record n { audit = e };
  decode = λ d. record { id = text_of (get_field (codes "_id") d); audit = no_audit };
  field_type = λ k. some str_type;
  time = λ n. date n;
}

abbrev pub texts : Texts
texts = record { show = λ v. text_of (some v); to_float = λ s. none; from_isoformat = λ s. none }

abbrev pub repository : Repository (List Fields) Note
repository = record {
  collection = rows;
  entity = notes;
  opt = record new_repo_opt { data_isolation = codes "tenant" };
  texts = texts;
}

abbrev pub signed_in : Env
signed_in = record {
  ctx = some (
      (codes "ofa-pass-operator", text (codes "u"))
      ∷ (codes "ofa-pass-tenant-id", text (codes "t"))
      ∷ []);
  objects = [];
  now = 9;
  later = 10;
}

abbrev pub doc : Str → Str → Fields
doc id tenant =
    field (codes "_id") (Value.text id) (field (codes "tenant_id") (Value.text tenant) end)

abbrev pub stored : List Fields
stored =
    doc (codes "a") (codes "t") ∷ doc (codes "b") (codes "x") ∷ doc (codes "c") (codes "t") ∷ []

pub tenant_demanded :
    Dict.get (codes "tenant_id") (demanded repository signed_in) ≡ some (Value.text (codes "t"))
unfolding demanded get_merged_repo_opt merge_repo_opt supports_delete_audit supports_tenant_audit
    get_tenant_id current_context fixed_key normalize_key dash_char starts_with lower strip str_eq
    Dict.get
tenant_demanded = refl

abbrev pub note : Str → Note
note id = record { id = id; audit = no_audit }
