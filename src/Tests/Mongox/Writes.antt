-- ===== src/Tests/Mongox/Writes.antt =====
-- The writes of src/core_py/model/mongox/repository.py, and its codec, at concrete inputs.
use core_py.Base.{
  ℕ, zero, suc, ◌&&◌, ◌==◌, Result, length, true, false, none, some, List, [], ◌∷◌, if◌then◌else◌,
  ok, err, ◌≡◌, refl,
}
use core_py.Base.Text.{codes, str_eq, starts_with, lower, strip}
use core_py.Base.Dict
use core_py.Context.{get_operator, get_tenant_id, current_context}
use core_py.Context.Keys.{fixed_key, normalize_key, dash_char}
use core_py.Model.Options.{merge_repo_opt}
use core_py.Mongox.Value.{
  Value, Fields, end, field, stop, attr, int, date, snowflake, dict, dataclass, get_field,
  put_field, remove_field, has_field,
}
use core_py.Mongox.Codec.{
  DbError, Unsupported, to_document, to_bson_fields, to_bson_value, parse_bson_meta, field_name,
  rename_id,
}
use core_py.Mongox.Codec.Plain.{IsPlain, IsFit, to_bson_value-IsPlain}
use core_py.Model.RepoOpt.{soft_delete_disable}
use core_py.Mongox.Act.{known, UpdateResult}
use core_py.Data.{new_resource_not_found_error}
use core_py.Mongox.Repository.{resource_by_filter}
use core_py.Mongox.Repository.Writes.{update, document, modified_by_other, locking_failed}
use core_py.Mongox.Repository.Writes.Changes.{patch, patch_raw, delete}
use core_py.Mongox.Repository.Writes.Batch.{batch_delete_by_filter}
use core_py.Mongox.Repository.Writes.Scoped.{
  Writers, Agrees, with_writers, raw_input, writes-scoped,
}
use core_py.Mongox.Repository.Writes.Soft.{with_deletes, soft_delete-keeps}
use core_py.Mongox.Repository.Writes.Locking.{none_matched, Replaces, version_filter, update-stale}
use core_py.Mongox.Act.{Call}
use core_py.Mongox.Repository.{
  Repository, get_merged_repo_opt, supports_delete_audit, supports_tenant_audit, inject_cond,
  not_exists,
}
use core_py.Mongox.Repository.Scope.{demanded}
use core_py.Base.Int.{pos}
use core_py.Tests.Mongox.{
  Note, blank, keep_met, meets_fields, no_audit, note, repository, rows, said, signed_in, stored,
  tenant_demanded,
}

-- Calls that do nothing on filters without the tenant's condition.
abbrev checked {ℓ} : {A : Type ℓ} → Fields → A → A → A
checked f x y = if said (get_field (codes "tenant_id") f) (codes "t") then x else y

abbrev careful : Writers (List Fields)
careful = record {
  replace_one = λ f p b s.
      checked f (rows.replace_one f p b s) (err (record { class_name = []; code = 0 }), s);
  update_one =
      λ f u s. checked f (rows.update_one f u s) (err (record { class_name = []; code = 0 }), s);
  update_many =
      λ f u s. checked f (rows.update_many f u s) (err (record { class_name = []; code = 0 }), s);
  delete_one =
      λ f s. checked f (rows.delete_one f s) (err (record { class_name = []; code = 0 }), s);
  delete_many =
      λ f s. checked f (rows.delete_many f s) (err (record { class_name = []; code = 0 }), s);
}

careful-Agrees : Agrees (codes "tenant_id") (Value.text (codes "t")) rows careful
unfolding str_eq
careful-Agrees = record {
  replaces = λ f p b s h. rw h;
  updates_one = λ f u s h. rw h;
  updates_many = λ f u s h. rw h;
  deletes_one = λ f s h. rw h;
  deletes_many = λ f s h. rw h;
}

abbrev state : List Fields × Note
state = (stored, note (codes "a"))

abbrev careful_repository : Repository (List Fields) Note
careful_repository = with_writers careful repository

writes-scoped_example :
    (update careful_repository signed_in state ≡ update repository signed_in state)
    × (patch careful_repository signed_in state ≡ patch repository signed_in state)
    × (patch_raw careful_repository signed_in (raw_input end end true) stored
        ≡ patch_raw repository signed_in (raw_input end end true) stored)
    × (delete careful_repository signed_in state ≡ delete repository signed_in state)
    × (batch_delete_by_filter careful_repository signed_in end stored
        ≡ batch_delete_by_filter repository signed_in end stored)
writes-scoped_example =
    writes-scoped repository signed_in (codes "tenant_id") (Value.text (codes "t")) tenant_demanded
      careful careful-Agrees state end end true stored

abbrev never : Fields → Call (List Fields) ℕ
never f s = (err (record { class_name = []; code = 0 }), s)

is_soft_delete :
    str_eq (get_merged_repo_opt repository signed_in).soft_delete soft_delete_disable ≡ false
unfolding demanded get_merged_repo_opt merge_repo_opt supports_delete_audit supports_tenant_audit
    get_tenant_id current_context fixed_key normalize_key dash_char starts_with lower strip str_eq
    Dict.get
is_soft_delete = refl

deletes_softly : supports_delete_audit repository ≡ true
unfolding supports_delete_audit
deletes_softly = refl

soft_delete-keeps_example :
    (delete (with_deletes never never repository) signed_in state
      ≡ delete repository signed_in state)
    × (batch_delete_by_filter (with_deletes never never repository) signed_in end stored
        ≡ batch_delete_by_filter repository signed_in end stored)
soft_delete-keeps_example =
    soft_delete-keeps repository signed_in never never is_soft_delete stored (note (codes "a"))
      blank end refl deletes_softly

-- A document of an update before.
abbrev old_note : Note
old_note = record {
  id = codes "a";
  audit = record no_audit { updated = some (record { at = some 4; by = codes "u" }) };
}

has_operator : get_operator signed_in.ctx ≡ (codes "u", true)
unfolding get_operator get_merged_repo_opt merge_repo_opt supports_delete_audit
    supports_tenant_audit get_tenant_id current_context fixed_key normalize_key dash_char
    starts_with lower strip str_eq Dict.get
has_operator = refl

-- A collection that replaces the first document that the filter selects.
abbrev replace_met : Fields → Fields → List Fields → List Fields
replace_met f p [] = []
replace_met f p (d ∷ ds) =
    let rest = replace_met f p ds in if meets_fields f d then p ∷ ds else d ∷ rest

abbrev replace_if : ℕ → Fields → Fields → List Fields → Result DbError UpdateResult × List Fields
replace_if zero f p s = (ok none_matched, s)
replace_if (suc n) f p s =
    (ok (record { matched_count = 1; modified_count = 1; upserted = false }), replace_met f p s)

abbrev versions : Repository (List Fields) Note
versions = record repository {
  collection = record rows {
    replace_one = λ f p is_upsert s. replace_if (length (keep_met f s)) f p s;
  };
}

abbrev versioned : Fields
versioned = field (codes "_id") (Value.text (codes "a")) (
    field (codes "updated_at") (date 4) (
      field (codes "tenant_id") (Value.text (codes "t"))
        (field (codes "deleted_at") not_exists end)))

version_injected :
    inject_cond versions signed_in
      (version_filter versions signed_in old_note (codes "u") 4 has_operator refl refl)
    ≡ ok versioned
unfolding inject_cond put_field to_bson_fields get_merged_repo_opt merge_repo_opt
    supports_delete_audit supports_tenant_audit get_tenant_id current_context fixed_key
    normalize_key dash_char starts_with lower strip str_eq Dict.get
version_injected = refl

versions-Replaces :
    Replaces versions.collection (λ f s. length (keep_met f s)) (λ f p s. 1) replace_met
versions-Replaces = record {
  counts = λ f s. refl;
  misses = λ f p s h. rw h;
  hits = λ f p s n h. rw h;
}

abbrev stamped_note : Note
stamped_note = record old_note {
  audit = record no_audit { updated = some (record { at = some 9; by = codes "u" }) };
}

abbrev payload_of : Result Unsupported Fields → Fields
payload_of (ok p) = p
payload_of (err e) = end

abbrev payload : Fields
payload = payload_of (document versions stamped_note)

-- No document is left with the time 4, and one has the id.
update-stale_example :
    (length (keep_met versioned stored) ≡ 0
      → update versions signed_in (stored, old_note) ≡ (
        err (
            known (
              if length (keep_met (remove_field (codes "updated_at") versioned) stored) == 0
              then new_resource_not_found_error (resource_by_filter versions versioned)
              else modified_by_other (resource_by_filter versions versioned))),
        (stored, stamped_note),
      ))
    × ((n : ℕ)
        → length (keep_met versioned stored) ≡ suc n
        → update versions signed_in (stored, old_note) ≡ (
          (if has_field (codes "updated_at") versioned && 1 == 0
              then err (known (locking_failed (resource_by_filter versions versioned)))
              else ok tt),
          (replace_met versioned payload stored, stamped_note),
        ))
update-stale_example =
    update-stale versions signed_in old_note (codes "u") 4 has_operator refl refl
      (λ f s. length (keep_met f s)) (λ f p s. 1) replace_met versions-Replaces stored versioned
      payload version_injected (unfold to_document in refl)

to_bson_value-IsPlain_example :
    IsPlain (dict (field (codes "_id") (int (pos 7)) end))
    × (to_bson_value (codes "_id") (dict (field (codes "_id") (int (pos 7)) end))
        ≡ dict (field (codes "_id") (int (pos 7)) end))
unfolding IsPlain IsFit to_bson_value put_field remove_field get_field parse_bson_meta field_name
    rename_id str_eq
to_bson_value-IsPlain_example =
    to_bson_value-IsPlain (codes "_id") (dataclass (attr (codes "id") none (snowflake 7) stop))
      (tt, tt)
