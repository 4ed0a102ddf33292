-- ===== src/Mongox/Repository.antt =====
-- `CollectionRepository` of src/core_py/model/mongox/repository.py: its state, and the conditions
-- that it adds to every filter.
pub mod Scope
pub mod Reads
pub mod Writes
use core_py.Base.{
  Bool, true, false, not, ◌&&◌, Option, none, some, if◌then◌else◌, Result, ok, err, ◌>>=◌, List, [],
  ◌∷◌, map, ◌++◌,
}
use core_py.Base.Text.{Str, codes, is_empty, or_else, str_eq}
use core_py.Context.{get_operator, get_tenant_id, get_app_id}
use core_py.Data.{Kind, new_validate_error}
use core_py.Model.RepoOpt.{
  RepoOpt, new_repo_opt, data_isolation_tenant, data_isolation_user, data_isolation_app,
  soft_delete_disable,
}
use core_py.Model.Options.{merge_repo_opt}
use core_py.Mongox.Value.{
  Value, bool, text, arr, dict, Items, nil, cons, Fields, end, field, get_field, put_field,
}
use core_py.Mongox.Codec.{to_bson_fields}
use core_py.Mongox.Act.{Collection, Supports, EntityClass, Env, Texts}

pub record Repository {ℓ κ} (σ : Type ℓ) (T : Type κ) : Type (ℓ ⊔ κ) where
  pub collection : Collection σ
  pub entity : EntityClass T
  pub opt : RepoOpt
  pub texts : Texts

abbrev pub id_key : Str
id_key = codes "_id"

-- `{"$exists": False}`
abbrev pub not_exists : Value
not_exists = dict (field (codes "$exists") (bool false) end)

abbrev opt_of : Option RepoOpt → RepoOpt
opt_of none = new_repo_opt
opt_of (some opt) = opt

-- `_entity_supports`: a repository without an entity type supports nothing.
unfoldable pub entity_supports : Option Supports → (Supports → Bool) → Bool
entity_supports none protocol = false
entity_supports (some s) protocol = protocol s

abbrev pub inject_value : Str × Bool → Str → Str → Fields → Result Kind Fields
inject_value (v, false) message key filter = err (new_validate_error message)
inject_value (v, true) message key filter = ok (put_field key (text v) filter)

abbrev name_or : Option Str → Str → Str
name_or none class_name = class_name
name_or (some name) class_name = or_else name class_name

abbrev pub items_of : List Value → Items
items_of [] = nil
items_of (v ∷ vs) = cons v (items_of vs)

module _ {ℓ κ} {σ : Type ℓ} {T : Type κ} where
  unfoldable pub with_repo_opt : Option RepoOpt → Repository σ T → Repository σ T
  with_repo_opt opt r = record r { opt = opt_of opt }

  unfoldable pub get_merged_repo_opt : Repository σ T → Env → RepoOpt
  get_merged_repo_opt r env = merge_repo_opt (some r.opt) (env.ctx, env.objects)

  unfoldable pub supports_create_audit : Repository σ T → Bool
  unfolding entity_supports
  supports_create_audit r = entity_supports r.entity.supports (λ s. s.creator)

  unfoldable pub supports_update_audit : Repository σ T → Bool
  unfolding entity_supports
  supports_update_audit r = entity_supports r.entity.supports (λ s. s.updater)

  unfoldable pub supports_delete_audit : Repository σ T → Bool
  unfolding entity_supports
  supports_delete_audit r = entity_supports r.entity.supports (λ s. s.deleter)

  unfoldable pub supports_tenant_audit : Repository σ T → Bool
  unfolding entity_supports
  supports_tenant_audit r = entity_supports r.entity.supports (λ s. s.tenant)

  unfoldable pub inject_isolation_cond : Repository σ T → Env → Fields → Result Kind Fields
  unfolding get_merged_repo_opt supports_create_audit supports_tenant_audit str_eq get_operator
      get_tenant_id get_app_id
  inject_isolation_cond r env filter =
      let isolation = (get_merged_repo_opt r env).data_isolation in
      if str_eq isolation data_isolation_user && supports_create_audit r
      then inject_value (get_operator env.ctx) (codes "there is no user id in context")
          (codes "created_by") filter
      else if str_eq isolation data_isolation_tenant && supports_tenant_audit r
      then inject_value (get_tenant_id env.ctx) (codes "there is no tenant id in context")
          (codes "tenant_id") filter
      else if str_eq isolation data_isolation_app && supports_tenant_audit r
      then inject_value (get_app_id env.ctx) (codes "there is no app id in context")
          (codes "app_id") filter
      else ok filter

  unfoldable pub inject_soft_delete_cond : Repository σ T → Env → Fields → Fields
  unfolding get_merged_repo_opt supports_delete_audit str_eq
  inject_soft_delete_cond r env filter =
      if str_eq (get_merged_repo_opt r env).soft_delete soft_delete_disable
      then filter
      else if supports_delete_audit r
      then put_field (codes "deleted_at") not_exists filter
      else filter

  -- A filter of None is the empty one.
  unfoldable pub inject_cond : Repository σ T → Env → Fields → Result Kind Fields
  unfolding inject_isolation_cond inject_soft_delete_cond
  inject_cond r env filter = do
    isolated ← inject_isolation_cond r env (to_bson_fields id_key filter)
    ok (inject_soft_delete_cond r env isolated)

  unfoldable pub collection_name : Repository σ T → Str
  collection_name r = name_or r.collection.name r.collection.class_name

  unfoldable pub resource_by_id : Repository σ T → Value → Str
  unfolding collection_name
  resource_by_id r id = collection_name r ++ (codes "/" ++ r.texts.show id)

  unfoldable pub resource_by_doc : Repository σ T → T → Str
  unfolding resource_by_id
  resource_by_doc r doc = resource_by_id r (r.entity.get_id doc)

  unfoldable pub resource_by_docs : Repository σ T → List T → Str
  unfolding collection_name
  resource_by_docs r docs =
      collection_name r
      ++ (codes " ids=" ++ r.texts.show (arr (items_of (map r.entity.get_id docs))))

  abbrev by_filter : Repository σ T → Option Value → Fields → Str
  by_filter r none filter = collection_name r ++ (codes " filter=" ++ r.texts.show (dict filter))
  by_filter r (some id) filter = resource_by_id r id

  unfoldable pub resource_by_filter : Repository σ T → Fields → Str
  unfolding collection_name resource_by_id
  resource_by_filter r filter = by_filter r (get_field id_key filter) filter
