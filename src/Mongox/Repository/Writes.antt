-- ===== src/Mongox/Repository/Writes.antt =====
-- The writes of `CollectionRepository` on one document: `create`, `update` and `upsert`. A document
-- is the caller's object, which the audit functions change, so that it is part of the state.
pub mod Changes
pub mod Batch
pub mod Scoped
pub mod Soft
pub mod Locking
use core_py.Base.{
  ℕ, Bool, true, false, not, ◌&&◌, Option, none, some, List, if◌then◌else◌, ◌==◌, ◌^◌, Result, ok,
  err,
}
use core_py.Base.Text.{Str, codes, is_empty, str_eq}
use core_py.Base.Int.{ℤ, pos, negsuc}
use core_py.Context.{get_operator}
use core_py.Data.{
  Kind, new_validate_error, new_validation_error, new_resource_error, new_resource_not_found_error,
  new_resource_conflict_error, err_code_conflict,
}
use core_py.Model.RepoOpt.{soft_delete_disable}
use core_py.Model.Audit.{
  Entity, Stamp, UpdatesResult, create_audit, delete_audit, update_lock_and_audit, is_time,
}
use core_py.Mongox.Value.{
  Value, null, bool, int, float, text, date, arr, dict, nil, dataclass, Fields, end, field,
  has_field, put_field, remove_field,
}
use core_py.Mongox.Codec.{DbError, Unsupported, is_duplicate_error, to_document, to_bson_fields}
use core_py.Mongox.Patch.{build_patch_payload}
use core_py.Mongox.Query.{PatchRawInput}
use core_py.Mongox.Act.{
  Raised, known, db, type_error, Act, after, ◌>>=◌, ◌>>◌, done, raise, lift, called, UpdateResult,
  Call, Collection, EntityClass, Env,
}
use core_py.Mongox.Repository.{
  Repository, id_key, get_merged_repo_opt, inject_cond, supports_update_audit, resource_by_doc,
  resource_by_filter,
}

-- What `not value` tests.
unfoldable pub truthy : Value → Bool
truthy null = false
truthy (bool b) = b
truthy (int (pos n)) = not (n == 0)
truthy (float n) = not (n == 0) && not (n == 2 ^ 63)
truthy (text t) = not (is_empty t)
truthy (arr nil) = false
truthy (dict end) = false
truthy _ = true

abbrev pub lift_document {ℓ} : {S : Type ℓ} → Result Unsupported Fields → Act S Fields
lift_document (ok p) = done p
lift_document (err e) = λ s. (err (type_error e), s)

-- `except Exception`: a duplicate key is a conflict, anything else goes on.
abbrev pub on_exception : Kind → DbError → Raised
on_exception conflict e = if is_duplicate_error e then known conflict else db e

abbrev pub handled {ℓ κ} :
    {σ : Type ℓ} {A : Type κ} → Kind → Result DbError A × σ → Result Raised A × σ
handled conflict (ok a, s) = (ok a, s)
handled conflict (err e, s) = (err (on_exception conflict e), s)

-- A step on the collection leaves the document.
abbrev pub on_store {ℓ κ μ} : {σ : Type ℓ} {T : Type κ} {A : Type μ} → Act σ A → Act (σ × T) A
on_store m (s, d) = let (x, t) = m s in (x, (t, d))

abbrev pub the_doc {ℓ κ} : {σ : Type ℓ} {T : Type κ} → Act (σ × T) T
the_doc (s, d) = (ok d, (s, d))

abbrev is_creator_unset : Option Stamp → Bool
is_creator_unset none = false
is_creator_unset (some c) = not (is_time c.at)

abbrev pub modified_by_other : Str → Kind
modified_by_other resource =
    new_resource_error err_code_conflict (codes "data is modified by other") resource

abbrev pub locking_failed : Str → Kind
locking_failed resource =
    new_resource_error err_code_conflict (codes "optimistic locking failed") resource

module _ {ℓ κ} {σ : Type ℓ} {T : Type κ} (r : Repository σ T) where
  abbrev pub document : T → Result Unsupported Fields
  document doc = to_document (dataclass (r.entity.attrs doc)) id_key

  -- An audit function on the document's audit parts.
  abbrev pub stamped {μ} : {A : Type μ} → (Entity → Result Kind A × Entity) → Act (σ × T) A
  stamped f (s, d) = let (x, e) = f (r.entity.audit_of d) in lift x (s, r.entity.with_audit e d)

  unfoldable pub check_id_existed : T → Result Kind (Unit {0})
  unfolding truthy
  check_id_existed doc =
      if truthy (r.entity.get_id doc)
      then ok tt
      else err (new_validation_error (codes "id can not be empty"))

  -- What `create` and `batch_create` do with a document before they insert it.
  unfoldable pub prepare : Env → Act (σ × T) Fields
  unfolding check_id_existed create_audit to_document
  prepare env = do
    doc ← the_doc
    lift (check_id_existed doc)
    stamped (create_audit env.ctx env.now env.later)
    audited ← the_doc
    lift_document (document audited)

  unfoldable pub create : Env → Act (σ × T) (Unit {0})
  unfolding prepare is_duplicate_error resource_by_doc
  create env = do
    payload ← prepare env
    doc ← the_doc
    on_store (λ s.
        handled (new_resource_conflict_error (resource_by_doc r doc))
          (r.collection.insert_one payload s))

  abbrev pub with_original : UpdatesResult → Fields → Fields
  with_original ret filter =
      if ret.has_original_update
      then put_field (codes "updated_at") (original ret.original_updated_at) filter
      else filter
    where
      original : Option ℕ → Value
      original none = null
      original (some n) = r.entity.time n

  unfoldable pub base_update_filter : Env → Act (σ × T) Fields
  unfolding update_lock_and_audit get_merged_repo_opt inject_cond
  base_update_filter env = do
    ret ← stamped (update_lock_and_audit env.ctx env.now (some (get_merged_repo_opt r env)))
    doc ← the_doc
    lift (inject_cond r env (with_original ret (field id_key (r.entity.get_id doc) end)))

  unfoldable pub audit_and_build_replace_filter : Env → Bool → Act (σ × T) Fields
  unfolding base_update_filter create_audit
  audit_and_build_replace_filter env is_upsert (s, d) =
      if is_upsert && is_creator_unset (r.entity.audit_of d).created
      then (do
        stamped (create_audit env.ctx env.now env.later)
        doc ← the_doc
        done (field id_key (r.entity.get_id doc) end))
          (s, d)
      else base_update_filter env (s, d)

  -- The outcome where the collection has matched no document.
  abbrev pub unmatched : Fields → Act (σ × T) (Unit {0})
  unmatched filter = do
    count ←
        on_store (called (r.collection.count_documents (remove_field (codes "updated_at") filter)))
    if count == 0
        then raise (new_resource_not_found_error (resource_by_filter r filter))
        else raise (modified_by_other (resource_by_filter r filter))

  abbrev pub settle_replace : Bool → Fields → UpdateResult → Act (σ × T) (Unit {0})
  settle_replace is_upsert filter result =
      if is_upsert && result.upserted
      then done tt
      else if result.matched_count == 0
      then unmatched filter
      else if has_field (codes "updated_at") filter && result.modified_count == 0
      then raise (locking_failed (resource_by_filter r filter))
      else done tt

  abbrev pub replace_by : Bool → Fields → Act (σ × T) (Unit {0})
  replace_by is_upsert filter = do
    doc ← the_doc
    payload ← lift_document (document doc)
    result ← on_store (λ s.
        handled (new_resource_conflict_error (resource_by_doc r doc))
          (r.collection.replace_one filter payload is_upsert s))
    settle_replace is_upsert filter result

  unfoldable pub common_replace : Env → Bool → Act (σ × T) (Unit {0})
  unfolding audit_and_build_replace_filter to_document is_duplicate_error resource_by_doc
      resource_by_filter
  common_replace env is_upsert = do
    filter ← audit_and_build_replace_filter env is_upsert
    replace_by is_upsert filter

  unfoldable pub update : Env → Act (σ × T) (Unit {0})
  unfolding common_replace
  update env = common_replace env false

  unfoldable pub upsert : Env → Act (σ × T) (Unit {0})
  unfolding common_replace
  upsert env = common_replace env true
