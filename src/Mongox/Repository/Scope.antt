-- ===== src/Mongox/Repository/Scope.antt =====
-- The conditions that `_inject_cond` of src/core_py/model/mongox/repository.py adds to a filter.
use core_py.Base.{
  Bool, true, false, not, ◌&&◌, Option, none, some, [], ◌∷◌, ◌++◌, if◌then◌else◌, Result, ok, ◌≡◌,
  refl, ap, sym, inl, inr, Bool-cases, bind-eq-ok, ok_inj,
}
use core_py.Base.Text.{Str, codes, str_eq, str_eq_iff}
use core_py.Base.Dict
use core_py.Base.Dict.{Dict}
use core_py.Context.{get_operator, get_tenant_id, get_app_id}
use core_py.Data.{Kind}
use core_py.Model.RepoOpt.{
  data_isolation_tenant, data_isolation_user, data_isolation_app, soft_delete_disable,
}
use core_py.Mongox.Value.{Value, text, Fields, get_field, put_field, get_field-put_field}
use core_py.Mongox.Codec.{to_bson_fields}
use core_py.Mongox.Act.{Env}
use core_py.Mongox.Repository.{
  Repository, id_key, not_exists, inject_value, inject_cond, inject_isolation_cond,
  inject_soft_delete_cond, get_merged_repo_opt, supports_create_audit, supports_tenant_audit,
  supports_delete_audit,
}

-- A condition that is demanded where a test holds.
abbrev when : Bool → Str → Value → Dict Value
when true k v = (k, v) ∷ []
when false k v = []

abbrev pub or_else_value : Option Value → Option Value → Option Value
or_else_value none o = o
or_else_value (some v) o = some v

str_eq_other : (s a b : Str) → str_eq s a ≡ true → str_eq a b ≡ false → str_eq s b ≡ false
str_eq_other s a b h n = rw ((str_eq_iff s a).0 h) n

module _ {ℓ κ} {σ : Type ℓ} {T : Type κ} (r : Repository σ T) (env : Env) where
  abbrev is_isolated : Str → Bool
  is_isolated v = str_eq (get_merged_repo_opt r env).data_isolation v

  abbrev is_soft : Bool
  is_soft =
      not (str_eq (get_merged_repo_opt r env).soft_delete soft_delete_disable)
      && supports_delete_audit r

  -- Every condition on its own: the operator's, the tenant's, the app's, and that a document is not
  -- deleted.
  unfoldable pub demanded : Dict Value
  demanded =
      when is_soft (codes "deleted_at") not_exists
      ++ (when (is_isolated data_isolation_user && supports_create_audit r) (codes "created_by")
            (text ((get_operator env.ctx).0))
          ++ (when (is_isolated data_isolation_tenant && supports_tenant_audit r)
                (codes "tenant_id") (text ((get_tenant_id env.ctx).0))
              ++ when (is_isolated data_isolation_app && supports_tenant_audit r) (codes "app_id")
                  (text ((get_app_id env.ctx).0))))

and_fst : (a b : Bool) → (a && b) ≡ true → a ≡ true
and_fst true b h = refl
and_fst false b h = cc

inject_value-eq :
    (p : Str × Bool) (message key : Str) (f : Fields) {g : Fields}
    → inject_value p message key f ≡ ok g
    → g ≡ put_field key (text p.0) f
inject_value-eq (v, false) message key f h = absurd cc
inject_value-eq (v, true) message key f h = sym (ok_inj h)

get_field-entry :
    (key k : Str) (v : Value) (f : Fields)
    → get_field k (put_field key v f) ≡ or_else_value (Dict.get k (when true key v)) (get_field k f)
unfolding Dict.get
get_field-entry key k v f = elim (Bool-cases (str_eq key k)) [
  | inl e ↦ rw (get_field-put_field, e)
  | inr e ↦ rw (get_field-put_field, e)
]

distinct :
    (str_eq data_isolation_user data_isolation_tenant ≡ false)
    × (str_eq data_isolation_user data_isolation_app ≡ false)
    × (str_eq data_isolation_tenant data_isolation_app ≡ false)
unfolding str_eq
distinct = (refl, refl, refl)

-- The isolation's conditions, at most one of which is demanded.
abbrev entries : Bool → Bool → Bool → Bool → Bool → Value → Value → Value → Dict Value
entries user tenant app creator carrier u t a =
    when (user && creator) (codes "created_by") u
    ++ (when (tenant && carrier) (codes "tenant_id") t ++ when (app && carrier) (codes "app_id") a)

-- The test of the code, one after the other.
abbrev chain :
    Bool
    → Bool
    → Bool
    → Result Kind Fields
    → Result Kind Fields
    → Result Kind Fields
    → Fields
    → Result Kind Fields
chain user tenant app u t a f = if user then u else if tenant then t else if app then a else ok f

chain-get :
    (user tenant app creator carrier : Bool) (u t a : Str × Bool) (mu mt ma k : Str) (f g : Fields)
    → (user ≡ true → (tenant ≡ false) × (app ≡ false))
    → (tenant ≡ true → app ≡ false)
    → chain
        (user && creator)
        (tenant && carrier)
        (app && carrier)
        (inject_value u mu (codes "created_by") f)
        (inject_value t mt (codes "tenant_id") f)
        (inject_value a ma (codes "app_id") f)
        f
      ≡ ok g
    → get_field k g
      ≡ or_else_value
          (Dict.get k (entries user tenant app creator carrier (text u.0) (text t.0) (text a.0)))
          (get_field k f)
unfolding Dict.get
chain-get true tenant app true carrier u t a mu mt ma k f g only_user only_tenant h =
    let (no_tenant, no_app) = only_user refl in
    rw (no_tenant, no_app, inject_value-eq u mu (codes "created_by") f h)
      (get_field-entry (codes "created_by") k (text u.0) f)
chain-get true tenant app false carrier u t a mu mt ma k f g only_user only_tenant h =
    let (no_tenant, no_app) = only_user refl in
    rw (no_tenant, no_app) (ap (get_field k) (sym (ok_inj (rw (no_tenant, no_app) at h))))
chain-get false true app creator true u t a mu mt ma k f g only_user only_tenant h =
    rw (only_tenant refl, inject_value-eq t mt (codes "tenant_id") f h)
      (get_field-entry (codes "tenant_id") k (text t.0) f)
chain-get false true app creator false u t a mu mt ma k f g only_user only_tenant h =
    rw (only_tenant refl) (ap (get_field k) (sym (ok_inj (rw (only_tenant refl) at h))))
chain-get false false true creator true u t a mu mt ma k f g only_user only_tenant h =
    rw (inject_value-eq a ma (codes "app_id") f h) (get_field-entry (codes "app_id") k (text a.0) f)
chain-get false false true creator false u t a mu mt ma k f g only_user only_tenant h =
    ap (get_field k) (sym (ok_inj h))
chain-get false false false creator carrier u t a mu mt ma k f g only_user only_tenant h =
    ap (get_field k) (sym (ok_inj h))

-- A demand of the soft delete comes before the others.
soft-get :
    (b : Bool) (k : Str) (es : Dict Value) (f g : Fields)
    → get_field k g ≡ or_else_value (Dict.get k es) (get_field k f)
    → get_field k (if b then put_field (codes "deleted_at") not_exists g else g)
      ≡ or_else_value (Dict.get k (when b (codes "deleted_at") not_exists ++ es)) (get_field k f)
unfolding Dict.get
soft-get false k es f g h = h
soft-get true k es f g h = elim (Bool-cases (str_eq (codes "deleted_at") k)) [
  | inl e ↦ rw (get_field-put_field, e)
  | inr e ↦ rw (get_field-put_field, e) h
]

guards-eq {ℓ} :
    {A : Type ℓ} (a b : Bool) (x y : A)
    → (if a then x else if b then y else x) ≡ (if not a && b then y else x)
guards-eq true b x y = refl
guards-eq false b x y = refl

module _ {ℓ κ} {σ : Type ℓ} {T : Type κ} (r : Repository σ T) (env : Env) where
  isolation-get :
      (k : Str) (f g : Fields)
      → inject_isolation_cond r env f ≡ ok g
      → get_field k g
        ≡ or_else_value
            (Dict.get k (
              entries
                (is_isolated r env data_isolation_user)
                (is_isolated r env data_isolation_tenant)
                (is_isolated r env data_isolation_app)
                (supports_create_audit r)
                (supports_tenant_audit r)
                (text ((get_operator env.ctx).0))
                (text ((get_tenant_id env.ctx).0))
                (text ((get_app_id env.ctx).0))))
            (get_field k f)
  unfolding inject_isolation_cond
  isolation-get k f g h =
      let isolation = (get_merged_repo_opt r env).data_isolation in
      chain-get (is_isolated r env data_isolation_user) (is_isolated r env data_isolation_tenant)
        (is_isolated r env data_isolation_app) (supports_create_audit r) (supports_tenant_audit r)
        (get_operator env.ctx) (get_tenant_id env.ctx) (get_app_id env.ctx)
        (codes "there is no user id in context") (codes "there is no tenant id in context")
        (codes "there is no app id in context") k f g
        (λ e. (
          str_eq_other isolation data_isolation_user data_isolation_tenant e distinct.0,
          str_eq_other isolation data_isolation_user data_isolation_app e distinct.1,
        ))
        (λ e. str_eq_other isolation data_isolation_tenant data_isolation_app e distinct.2) h

  -- A filter that goes to the collection has every demanded condition, the caller's condition on
  -- such a key replaced, and has the caller's conditions, converted, on all other keys.
  pub inject_cond_lem :
      (filter g : Fields) (k : Str)
      → inject_cond r env filter ≡ ok g
      → get_field k g
        ≡ or_else_value (Dict.get k (demanded r env)) (get_field k (to_bson_fields id_key filter))
  unfolding inject_cond inject_soft_delete_cond demanded
  inject_cond_lem filter g k h =
      let f = to_bson_fields id_key filter in
      let (isolated, e, same) = bind-eq-ok (inject_isolation_cond r env f) _ h in
      rw
        (
          sym (ok_inj same),
          guards-eq (str_eq (get_merged_repo_opt r env).soft_delete soft_delete_disable)
              (supports_delete_audit r) isolated
              (put_field (codes "deleted_at") not_exists isolated),
        )
        (soft-get (is_soft r env) k _ f isolated (isolation-get k f isolated e))
