-- ===== src/Mongox/Patch.antt =====
-- src/core_py/model/mongox/patch.py: the payload of a patch, with a dotted key for each field of a
-- nested dataclass.
use core_py.Base.{Bool, true, false, ◌||◌, none, [], if◌then◌else◌}
use core_py.Base.Text.{Str, codes, starts_with}
use core_py.Mongox.Value.{
  Value, dict, dataclass, plain_object, Fields, end, field, Attrs, stop, attr, put_field,
  update_fields,
}
use core_py.Mongox.Codec.{gen_db_key, parse_bson_meta, is_null, is_dataclass}

-- One round of the loop, given the payload of the field's value under its key.
abbrev patch_entry : Str → Str × Bool × Bool → Value → (Str → Fields) → Fields → Fields
patch_entry parent (name, inline, true) value nested payload = payload
patch_entry parent (name, inline, false) value nested payload =
    let key = if inline then parent else gen_db_key parent name in
    if is_dataclass value
    then update_fields payload (nested key)
    else if inline
    then payload
    else put_field key value payload

abbrev skips : Str → Value → Bool
skips raw_name value = starts_with raw_name (codes "_") || is_null value

unfoldable mutual
  unfolding gen_db_key parse_bson_meta update_fields

  pub patch_attrs : Str → Attrs → Fields → Fields
  patch_attrs parent stop payload = payload
  patch_attrs parent (attr raw_name meta value attrs) payload = patch_attrs parent attrs (
      if skips raw_name value
      then payload
      else patch_entry parent (parse_bson_meta raw_name meta) value (λ key. patch_value key value)
          payload)

  pub patch_value : Str → Value → Fields
  patch_value parent (dataclass attrs) = patch_attrs parent attrs end
  patch_value parent (dict fs) = patch_fields parent fs end
  patch_value parent (plain_object fs) = patch_fields parent fs end
  patch_value parent _ = end

  pub patch_fields : Str → Fields → Fields → Fields
  patch_fields parent end payload = payload
  patch_fields parent (field raw_name value fs) payload = patch_fields parent fs (
      if skips raw_name value
      then payload
      else patch_entry parent (parse_bson_meta raw_name none) value (λ key. patch_value key value)
          payload)

unfoldable pub build_patch_payload : Value → Fields
unfolding patch_value
build_patch_payload value = patch_value [] value
