-- ===== src/Config/Parse.antt =====
-- Texts to values in src/core_py/config.py: the environment, the flags and the typed overrides.
pub mod Typed
use core_py.Base.{
  ℕ, zero, suc, ◌+◌, ◌-◌, ◌*◌, Bool, true, false, not, ◌&&◌, ◌||◌, Option, none, some, List, [],
  ◌∷◌, ◌++◌, map, ◌==◌, leb, ltb, if◌then◌else◌, any, all, length,
}
use core_py.Base.Text.{
  Str, codes, str_eq, is_empty, starts_with, remove_prefix, partition, split, strip, lower,
}
use core_py.Base.Text.Split.{split_str}
use core_py.Base.Int.{ℤ, pos, negsuc}
use core_py.Base.Dict.{Dict}
use core_py.Base.Number.{py_int}
use core_py.Config.Value.{
  Value, null, bool, int, float, text, arr, dict, Fields, end, field, get_field, put_field,
}
use core_py.Config.Maps.{set_path}

abbrev pub one_of : List Str → Str → Bool
one_of words s = any (λ w. str_eq w s) words

unfoldable pub parse_bool : Str → Option Bool
parse_bool value =
    let low = lower value in
    if one_of (codes "true" ∷ codes "1" ∷ codes "t" ∷ codes "yes" ∷ codes "y" ∷ codes "on" ∷ []) low
    then some true
    else if one_of
        (codes "false" ∷ codes "0" ∷ codes "f" ∷ codes "no" ∷ codes "n" ∷ codes "off" ∷ []) low
    then some false
    else none

unfoldable pub is_valid_env_name : Str → Bool
is_valid_env_name name =
    not (is_empty name)
    && all (λ c. leb b'A' c && leb c b'Z' || (leb b'0' c && leb c b'9') || c == b'_') name

unfoldable pub deploy_env_var_name : Str → Str → Str → Str
deploy_env_var_name prefix sep key =
    if is_empty key
    then []
    else if is_empty prefix || is_empty sep
    then key
    else prefix ++ (sep ++ key)

-- One round of the loop of `_env_to_map`; `prefix` and `sep` are not empty.
unfoldable pub env_entry : Str → Str → Str → Fields → Str → Str → Fields
env_entry prefix sep deploy_key ret key value =
    if not (starts_with key (prefix ++ sep))
    then ret
    else if not (is_valid_env_name key)
    then ret
    else if not (is_empty deploy_key) && str_eq key (deploy_env_var_name prefix sep deploy_key)
    then set_path ret (lower prefix ∷ map lower (split_str sep deploy_key)) (text value)
    else let path = remove_prefix key (prefix ++ sep) in
      let nodes = split_str sep path in
      if not (is_empty path) && all (λ n. not (is_empty n)) nodes
      then set_path ret (map lower nodes) (text value)
      else ret

unfoldable pub env_entries : Str → Str → Str → Fields → Dict Str → Fields
env_entries prefix sep deploy_key ret [] = ret
env_entries prefix sep deploy_key ret ((key, value) ∷ env) =
    env_entries prefix sep deploy_key (env_entry prefix sep deploy_key ret key value) env

unfoldable pub env_to_map : Str → Str → Str → Dict Str → Fields
env_to_map prefix sep deploy_key env =
    if is_empty prefix || is_empty sep then end else env_entries prefix sep deploy_key end env

-- One round of the loop of `_args_to_map`.
unfoldable pub args_entry : Fields → Str → Fields
args_entry ret arg =
    if not (starts_with arg (codes "--"))
    then ret
    else let (raw, found, value) = partition b'=' (remove_prefix arg (codes "--")) in
      let key = lower (strip raw) in
      if found && not (is_empty key) then set_path ret (split b'.' key) (text value) else ret

unfoldable pub args_entries : Fields → List Str → Fields
args_entries ret [] = ret
args_entries ret (arg ∷ args) = args_entries (args_entry ret arg) args

unfoldable pub args_to_map : List Str → Fields
args_to_map args = args_entries end args

-- The built-in `float` on a text: the bit pattern, or `none` for its ValueError.
module _ (py_float : Str → Option ℕ) where
  abbrev or_text : Str → Option Value → Value
  or_text value none = text value
  or_text value (some v) = v

  abbrev some_int : Option ℤ → Option Value
  some_int none = none
  some_int (some n) = some (int n)

  abbrev some_float : Option ℕ → Option Value
  some_float none = none
  some_float (some x) = some (float x)

  abbrev some_bool : Option Bool → Option Value
  some_bool none = none
  some_bool (some b) = some (bool b)

  abbrev first_some : Option Value → Option Value → Option Value
  first_some none b = b
  first_some (some a) b = some a

  unfoldable pub parse_with_hint : Option Value → Str → Value
  parse_with_hint (some (bool _)) value = or_text value (some_bool (parse_bool value))
  parse_with_hint (some (int _)) value = or_text value (some_int (py_int value))
  parse_with_hint (some (float _)) value = or_text value (some_float (py_float value))
  parse_with_hint _ value = or_text value (
      first_some (some_bool (parse_bool value))
        (first_some (some_int (py_int value)) (some_float (py_float value))))

  -- `hint if isinstance(hint, Mapping) else {}`
  abbrev pub hint_dict : Option Value → Fields
  hint_dict (some (dict fs)) = fs
  hint_dict _ = end

  unfoldable mutual
    pub apply_typed_overrides : Fields → Fields → Fields → Fields
    apply_typed_overrides ret base end = ret
    apply_typed_overrides ret base (field key value fs) =
        apply_typed_overrides (put_field key (typed_override (get_field key base) value) ret) base
          fs

    pub typed_override : Option Value → Value → Value
    typed_override hint (dict fs) = dict (apply_typed_overrides end (hint_dict hint) fs)
    typed_override hint (text value) = parse_with_hint hint value
    typed_override hint v = v
