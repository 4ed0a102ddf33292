-- ===== src/Mongox/Repository/Writes/Changes.antt =====
-- `patch`, `patch_raw` and `delete` of src/core_py/model/mongox/repository.py.
use core_py.Base.{ℕ, Bool, true, false, not, ◌&&◌, if◌then◌else◌, ◌==◌, Result, ok, err}
use core_py.Base.Text.{Str, codes, str_eq}
use core_py.Context.{get_operator}
use core_py.Data.{Kind, new_validate_error, new_resource_not_found_error}
use core_py.Model.RepoOpt.{soft_delete_disable}
use core_py.Model.Audit.{delete_audit}
use core_py.Mongox.Value.{text, date, dict, dataclass, Fields, end, field, has_field, put_field}
use core_py.Mongox.Codec.{to_bson_fields}
use core_py.Mongox.Patch.{build_patch_payload}
use core_py.Mongox.Query.{PatchRawInput}
use core_py.Mongox.Act.{Act, ◌>>=◌, done, raise, lift, called, UpdateResult, Call, Env}
use core_py.Mongox.Repository.{
  Repository, id_key, get_merged_repo_opt, inject_cond, supports_update_audit, resource_by_doc,
  resource_by_filter,
}
use core_py.Mongox.Repository.Writes.{
  on_store, the_doc, stamped, base_update_filter, update, locking_failed,
}

module _ {ℓ κ} {σ : Type ℓ} {T : Type κ} (r : Repository σ T) where
  abbrev missing_user : Kind
  missing_user = new_validate_error (codes "there is no user in context")

  abbrev audited_by : Env → Str × Bool → Fields → Result Kind Fields
  audited_by env (user, false) payload = err missing_user
  audited_by env (user, true) payload = ok (
      put_field (codes "updated_at") (date env.now)
        (put_field (codes "updated_by") (text user) payload))

  unfoldable pub patch_payload : Env → Fields → Result Kind Fields
  unfolding supports_update_audit get_operator
  patch_payload env payload =
      let converted = to_bson_fields id_key payload in
      if supports_update_audit r
      then audited_by env (get_operator env.ctx) converted
      else ok converted

  abbrev pub patched : Fields → UpdateResult → Act σ (Unit {0})
  patched filter result =
      if result.matched_count == 0
      then raise (new_resource_not_found_error (resource_by_filter r filter))
      else if has_field (codes "updated_at") filter && result.modified_count == 0
      then raise (locking_failed (resource_by_filter r filter))
      else done tt

  abbrev pub set_update : Fields → Fields
  set_update payload = field (codes "$set") (dict payload) end

  abbrev pub update_with : Bool → Fields → Fields → Call σ UpdateResult
  update_with true filter update = r.collection.update_many filter update
  update_with false filter update = r.collection.update_one filter update

  unfoldable pub patch_raw : Env → PatchRawInput → Act σ (Unit {0})
  unfolding inject_cond patch_payload resource_by_filter
  patch_raw env input = do
    filter ←
        lift (if input.skip_inject_cond then ok input.filter else inject_cond r env input.filter)
    payload ← lift (patch_payload env input.patch_payload)
    result ← called (update_with input.is_many filter (set_update payload))
    patched filter result

  unfoldable pub patch : Env → Act (σ × T) (Unit {0})
  unfolding base_update_filter build_patch_payload patch_raw
  patch env = do
    filter ← base_update_filter r env
    doc ← the_doc
    on_store (
        patch_raw env (record {
          filter = filter;
          patch_payload = build_patch_payload (dataclass (r.entity.attrs doc));
          is_many = false;
          skip_inject_cond = true;
        }))

  abbrev pub removed : T → ℕ → Act (σ × T) (Unit {0})
  removed doc count =
      if count == 0 then raise (new_resource_not_found_error (resource_by_doc r doc)) else done tt

  abbrev pub delete_matching : T → Fields → Act (σ × T) (Unit {0})
  delete_matching doc filter = do
    count ← on_store (called (r.collection.delete_one filter))
    removed doc count

  abbrev pub hard_delete : Env → Act (σ × T) (Unit {0})
  hard_delete env = do
    doc ← the_doc
    filter ← lift (inject_cond r env (field id_key (r.entity.get_id doc) end))
    delete_matching doc filter

  abbrev pub after_audit : Env → Bool → Act (σ × T) (Unit {0})
  after_audit env has_delete_audit =
      if has_delete_audit
        && not (str_eq (get_merged_repo_opt r env).soft_delete soft_delete_disable)
      then update r env
      else hard_delete env

  unfoldable pub delete : Env → Act (σ × T) (Unit {0})
  unfolding delete_audit get_merged_repo_opt update inject_cond resource_by_doc
  delete env = do
    has_delete_audit ← stamped r (delete_audit env.ctx env.now)
    after_audit env has_delete_audit
