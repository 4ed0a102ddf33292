-- ===== src/Config/Checks/Sensitive.antt =====
-- `_validate_required` and `_validate_sensitive_sources` of src/core_py/config.py.
use core_py.Base.{
  ◌≡◌, ◌↔◌, ap, sym, ◌∙◌, ok_inj, refl, Bool, true, false, not, ◌&&◌, Bool-cases, Option, none,
  some, List, [], ◌∷◌, ◌⊎◌, inl, inr, if◌then◌else◌, Result, ok, err, ◌>>=◌, bind-eq-ok, All,
}
use core_py.Base.Text.{Str, split, lower}
use core_py.Base.Dict
use core_py.Base.Dict.{Dict}
use core_py.Config.Value.{Value, null, text, arr, dict, nil, Fields, end}
use core_py.Config.Maps.{get_path, flatten_map}
use core_py.Config.Checks.{
  Exc, is_empty_value, present, validate_required, is_sensitive_path, is_placeholder_text,
  is_placeholder, from_env_or_local, validate_sensitive_entry, validate_sensitive_entries,
  validate_sensitive_sources,
}

clash : true ≡ false → ⊥
clash e = cc

-- Neither None nor "", [] or {}.
abbrev pub NonEmpty : Value → Type 0
NonEmpty v = ¬ (v ≡ null) × ¬ (v ≡ text []) × ¬ (v ≡ arr nil) × ¬ (v ≡ dict end)

is_empty_value-NonEmpty : (v : Value) → is_empty_value v ≡ false → NonEmpty v
unfolding is_empty_value
is_empty_value-NonEmpty v h = (
  λ e. refuted (ap is_empty_value e),
  λ e. refuted (ap is_empty_value e),
  λ e. refuted (ap is_empty_value e),
  λ e. refuted (ap is_empty_value e),
)
  where
    refuted : is_empty_value v ≡ true → ⊥
    refuted e = clash (sym e ∙ h)

NonEmpty-is_empty_value : (v : Value) → NonEmpty v → is_empty_value v ≡ false
unfolding is_empty_value
NonEmpty-is_empty_value null h = absurd (h.0 refl)
NonEmpty-is_empty_value (text []) h = absurd (h.1 refl)
NonEmpty-is_empty_value (arr nil) h = absurd (h.2 refl)
NonEmpty-is_empty_value (dict end) h = absurd (h.3 refl)
NonEmpty-is_empty_value _ h = refl

-- The path of the key, lowered and split at its dots, has a value that is not empty.
abbrev pub IsPresent : Fields → Str → Type 0
IsPresent fs key = (v : Value) × (get_path (dict fs) (split b'.' (lower key)) ≡ some v) × NonEmpty v

present-IsPresent : (o : Option Value) → present o ≡ true → (v : Value) × (o ≡ some v) × NonEmpty v
present-IsPresent none h = cc
present-IsPresent (some v) h = (v, refl, is_empty_value-NonEmpty v (not_true (is_empty_value v) h))
  where
    not_true : (b : Bool) → not b ≡ true → b ≡ false
    not_true true e = cc
    not_true false e = refl

IsPresent-present :
    (o : Option Value) → ((v : Value) × (o ≡ some v) × NonEmpty v) → present o ≡ true
IsPresent-present o (v, e, full) = rw (e, NonEmpty-is_empty_value v full)

-- The check of required keys passes exactly if each key, lowered and split at its dots, is the path
-- of a value that is not None, "", [] or {}.
pub validate_required_iff :
    (fs : Fields) (keys : List Str) → (validate_required fs keys ≡ ok tt) ↔ All (IsPresent fs) keys
unfolding validate_required
validate_required_iff fs [] = (λ _. tt, λ _. refl)
validate_required_iff fs (key ∷ keys) =
    let found = get_path (dict fs) (split b'.' (lower key)) in
    let rest = validate_required_iff fs keys in
    elim (Bool-cases (present found)) [
      | inl e ↦ (λ h. (present-IsPresent found e, rest.0 (rw e at h)), λ h. rw e (rest.1 h.1))
      | inr e ↦ (λ h. cc (rw e at h), λ h. absurd (clash (sym (IsPresent-present found h.0) ∙ e)))
    ]

-- What the check asks of one entry of the flattened map.
abbrev pub IsSafe : Dict Str → List Str → Str × Value → Type 0
IsSafe sources sensitive (path, value) =
    ((is_sensitive_path path sensitive && not (is_empty_value value)) ≡ false)
    ⊎ ((from_env_or_local (Dict.get path sources) ≡ true)
        × ((t : Str) × (value ≡ text t) × (is_placeholder_text t ≡ false)))

placeholder_free :
    (value : Value)
    → is_placeholder value ≡ ok false
    → (t : Str) × (value ≡ text t) × (is_placeholder_text t ≡ false)
unfolding is_placeholder
placeholder_free (text t) e = (t, refl, ok_inj e)
placeholder_free _ e = cc

abbrev reject_if : Exc → Bool → Result Exc (Unit {0})
reject_if x found = if found then err x else ok tt

placeholder_checked : (r : Result Exc Bool) (x : Exc) → (r >>= reject_if x) ≡ ok tt → r ≡ ok false
placeholder_checked (ok true) x e = cc
placeholder_checked (ok false) x e = refl
placeholder_checked (err y) x e = cc

validate_entry-IsSafe :
    (sources : Dict Str) (sensitive : List Str) (path : Str) (value : Value)
    → validate_sensitive_entry sources sensitive path value ≡ ok tt
    → IsSafe sources sensitive (path, value)
unfolding validate_sensitive_entry
validate_entry-IsSafe sources sensitive path value e =
    elim (Bool-cases (is_sensitive_path path sensitive && not (is_empty_value value))) [
      | inr off ↦ inl off
      | inl on ↦ elim (Bool-cases (from_env_or_local (Dict.get path sources))) [
        | inl from ↦ inr (
          from,
          placeholder_free value
              (placeholder_checked (is_placeholder value) _ (rw from at (rw on at e))),
        )
        | inr not_from ↦ cc (rw not_from at (rw on at e))
      ]
    ]

validate_entries-IsSafe :
    (flat : Dict Value) (sources : Dict Str) (sensitive : List Str)
    → validate_sensitive_entries flat sources sensitive ≡ ok tt
    → All (IsSafe sources sensitive) flat
unfolding validate_sensitive_entries
validate_entries-IsSafe [] sources sensitive e = tt
validate_entries-IsSafe ((path, value) ∷ flat) sources sensitive e =
    let (u, first, rest) = bind-eq-ok (validate_sensitive_entry sources sensitive path value) _ e in
    (
      validate_entry-IsSafe sources sensitive path value first,
      validate_entries-IsSafe flat sources sensitive rest,
    )

-- If the check of sensitive keys passes, every entry of the flattened map whose path is sensitive
-- and whose value is not empty comes from the environment or the local file, and is a text that is
-- no placeholder.
pub validate_sensitive_sources-IsSafe :
    (fs : Fields) (sources : Dict Str) (sensitive : List Str)
    → validate_sensitive_sources fs sources sensitive ≡ ok tt
    → All (IsSafe sources sensitive) (flatten_map [] [] fs)
unfolding validate_sensitive_sources
validate_sensitive_sources-IsSafe fs sources sensitive e =
    validate_entries-IsSafe (flatten_map [] [] fs) sources sensitive e
