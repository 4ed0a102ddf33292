-- ===== src/Config/Checks.antt =====
-- The checks and the masking of src/core_py/config.py. What Python raises here is an `Exc`.
pub mod Sensitive
pub mod Masking
use core_py.Base.{
  ℕ, Bool, true, false, not, ◌&&◌, ◌||◌, Option, none, some, List, [], ◌∷◌, ◌++◌, ◌==◌,
  if◌then◌else◌, any, all, Result, ok, err, ◌>>=◌, ◌>>◌,
}
use core_py.Base.Text.{Str, codes, str_eq, is_empty, contains, partition, split, strip, lower}
use core_py.Base.Text.Split.{split_once}
use core_py.Base.Dict
use core_py.Base.Dict.{Dict}
use core_py.Config.Value.{
  Value, null, bool, int, float, text, arr, dict, Items, nil, cons, Fields, end, field,
}
use core_py.Config.Maps.{get_path, flatten_map}
use core_py.Config.Parse.{one_of}

-- The validation errors of the module, and the errors of Python itself.
pub data Exc : Type 0 where
  missing : Str → Exc
  bad_source : Str → Exc
  placeholder : Str → Exc
  not_mapping : Str → Exc
  invalid : Str → Exc
  attribute_error value_error type_error : Exc

unfoldable pub is_empty_value : Value → Bool
is_empty_value null = true
is_empty_value (text t) = is_empty t
is_empty_value (arr nil) = true
is_empty_value (dict end) = true
is_empty_value _ = false

abbrev pub present : Option Value → Bool
present none = false
present (some v) = not (is_empty_value v)

unfoldable pub validate_required : Fields → List Str → Result Exc (Unit {0})
validate_required fs [] = ok tt
validate_required fs (key ∷ keys) =
    if present (get_path (dict fs) (split b'.' (lower key)))
    then validate_required fs keys
    else err (missing key)

unfoldable pub is_sensitive_path : Str → List Str → Bool
is_sensitive_path path sensitive =
    let low = lower path in any (λ s. not (is_empty s) && contains (lower s) low) sensitive

abbrev placeholders : List Str
placeholders =
    codes "redacted"
    ∷ codes "<redacted>"
    ∷ codes "changeme"
    ∷ codes "replace_me"
    ∷ codes "placeholder"
    ∷ []

-- `not text.strip("*")`: the text has stars only.
unfoldable pub is_placeholder_text : Str → Bool
is_placeholder_text value =
    let t = strip value in
    if is_empty t
    then false
    else if all (λ c. c == b'*') t
    then true
    else if contains (codes "***") t
    then true
    else one_of placeholders (lower t)

-- `value.strip()` is an AttributeError on what is no text.
unfoldable pub is_placeholder : Value → Result Exc Bool
is_placeholder (text t) = ok (is_placeholder_text t)
is_placeholder _ = err attribute_error

abbrev pub from_env_or_local : Option Str → Bool
from_env_or_local none = false
from_env_or_local (some source) = one_of (codes "env" ∷ codes "local" ∷ []) source

-- The body of the loop of `_validate_sensitive_sources`.
unfoldable pub validate_sensitive_entry : Dict Str → List Str → Str → Value → Result Exc (Unit {0})
validate_sensitive_entry sources sensitive path value =
    if is_sensitive_path path sensitive && not (is_empty_value value)
    then if from_env_or_local (Dict.get path sources)
      then (do found ← is_placeholder value; if found then err (placeholder path) else ok tt)
      else err (bad_source path)
    else ok tt

unfoldable pub validate_sensitive_entries : Dict Value → Dict Str → List Str → Result Exc (Unit {0})
validate_sensitive_entries [] sources sensitive = ok tt
validate_sensitive_entries ((path, value) ∷ flat) sources sensitive = do
  validate_sensitive_entry sources sensitive path value
  validate_sensitive_entries flat sources sensitive

unfoldable pub validate_sensitive_sources : Fields → Dict Str → List Str → Result Exc (Unit {0})
validate_sensitive_sources fs sources sensitive =
    validate_sensitive_entries (flatten_map [] [] fs) sources sensitive

abbrev masked : Str
masked = codes "***"

-- `rest.split("@", 1)` gives one part where `rest` has no "@", and its unpacking is a ValueError.
unfoldable pub mask_uri : Str → Result Exc Str
mask_uri value =
    if not (contains (codes "://") value) || not (contains (codes "@") value)
    then ok value
    else elim (split_once (codes "://") value) [
      | none ↦ err value_error
      | some (scheme, rest) ↦ elim (split_once (codes "@") rest) [
        | none ↦ err value_error
        | some (user_info, host) ↦
            if is_empty user_info
            then ok value
            else ok (
                scheme
                ++ (codes "://" ++ ((partition b':' user_info).0 ++ (codes ":***@" ++ host))))
      ]
    ]

abbrev to_text : Str → Result Exc Value
to_text t = ok (text t)

abbrev mask_text : Str → Result Exc Value
mask_text t = mask_uri t >>= to_text

-- `prefix` is the path with its dot, and empty at the top.
unfoldable mutual
  pub mask_fields : List Str → Str → Fields → Result Exc Fields
  mask_fields sensitive prefix end = ok end
  mask_fields sensitive prefix (field k v fs) = do
    w ← mask_value sensitive (prefix ++ k) v
    rest ← mask_fields sensitive prefix fs
    ok (field k w rest)

  pub mask_value : List Str → Str → Value → Result Exc Value
  mask_value sensitive path (dict fs) = do
    m ← mask_fields sensitive (path ++ codes ".") fs
    ok (dict m)
  mask_value sensitive path (arr xs) = do m ← mask_items sensitive path xs; ok (arr m)
  mask_value sensitive path (text t) =
      if is_sensitive_path path sensitive then ok (text masked) else mask_text t
  mask_value sensitive path v = if is_sensitive_path path sensitive then ok (text masked) else ok v

  pub mask_items : List Str → Str → Items → Result Exc Items
  mask_items sensitive path nil = ok nil
  mask_items sensitive path (cons v xs) = do
    w ← mask_value sensitive path v
    rest ← mask_items sensitive path xs
    ok (cons w rest)

unfoldable pub mask_map : Fields → List Str → Result Exc Fields
mask_map fs sensitive = mask_fields sensitive [] fs
