-- ===== src/Mongox/Codec.antt =====
-- src/core_py/model/mongox/codec.py: from an entity to a document.
pub mod Plain
use core_py.Base.{
  ℕ, Bool, true, false, not, ◌||◌, Option, none, some, List, [], ◌∷◌, ◌++◌, map, if◌then◌else◌,
  ◌==◌, Result, ok, err,
}
use core_py.Base.Text.{Str, codes, is_empty, or_else, str_eq, split, strip, starts_with}
use core_py.Base.Int.{pos}
use core_py.Mongox.Value.{
  Value, null, int, snowflake, arr, dict, dataclass, plain_object, Items, nil, cons, Fields, end,
  field, Attrs, stop, attr, get_field, put_field, remove_field, update_fields,
}

unfoldable pub field_name : Str → Str
unfolding str_eq
field_name name = if str_eq name (codes "id") then codes "_id" else name

unfoldable pub gen_db_key : Str → Str → Str
gen_db_key parent field_key =
    if is_empty parent then field_key else parent ++ (codes "." ++ field_key)

abbrev pub is_listed : List Str → Str → Bool
is_listed [] s = false
is_listed (t ∷ ts) s = str_eq t s || is_listed ts s

-- `name`, `inline` and `skip` of a field, from the parts of its metadata.
abbrev pub meta_parts : Str → List Str → Str × Bool × Bool
meta_parts name [] = (name, false, false)
meta_parts name (head ∷ options) =
    let listed = is_listed options (codes "inline") in
    if str_eq head (codes "-")
    then (name, listed, true)
    else if str_eq head (codes "inline")
    then (name, true, false)
    else (or_else head name, listed, false)

unfoldable pub parse_bson_meta : Str → Option Str → Str × Bool × Bool
unfolding field_name split strip
parse_bson_meta raw_name none = (field_name raw_name, false, false)
parse_bson_meta raw_name (some meta) =
    if is_empty meta
    then (field_name raw_name, false, false)
    else meta_parts (field_name raw_name) (map strip (split b',' meta))

-- `if "id" in payload: payload[id_key] = payload.pop("id")`
abbrev pub rename_value : Str → Option Value → Fields → Fields
rename_value id_key none payload = payload
rename_value id_key (some v) payload = put_field id_key v (remove_field (codes "id") payload)

unfoldable pub rename_id : Str → Fields → Fields
rename_id id_key payload = rename_value id_key (get_field (codes "id") payload) payload

-- One field of a dataclass: `nested` is its value's document, where the value is a dataclass.
abbrev pub put_encoded : Str × Bool × Bool → Bool → Value → Fields → Fields
put_encoded (name, inline, true) is_nested v payload = payload
put_encoded (name, true, false) true (dict nested) payload = update_fields payload nested
put_encoded (name, inline, false) is_nested v payload = put_field name v payload

abbrev pub is_dataclass : Value → Bool
is_dataclass (dataclass attrs) = true
is_dataclass _ = false

abbrev pub is_null : Value → Bool
is_null null = true
is_null _ = false

abbrev pub put_attr : Str → Option Str → Value → Value → Fields → Fields
put_attr name meta value encoded payload =
    if is_null value
    then payload
    else put_encoded (parse_bson_meta name meta) (is_dataclass value) encoded payload

-- The fields of a dataclass are put into the payload in order.
unfoldable mutual
  pub to_bson_value : Str → Value → Value
  to_bson_value id_key (snowflake n) = int (pos n)
  to_bson_value id_key (dataclass attrs) = dict (rename_id id_key (put_attrs id_key attrs end))
  to_bson_value id_key (dict fs) = dict (to_bson_fields id_key fs)
  to_bson_value id_key (arr xs) = arr (to_bson_items id_key xs)
  to_bson_value id_key v = v

  pub to_bson_items : Str → Items → Items
  to_bson_items id_key nil = nil
  to_bson_items id_key (cons v xs) = cons (to_bson_value id_key v) (to_bson_items id_key xs)

  pub to_bson_fields : Str → Fields → Fields
  to_bson_fields id_key end = end
  to_bson_fields id_key (field k v fs) = field k (to_bson_value id_key v) (to_bson_fields id_key fs)

  pub put_attrs : Str → Attrs → Fields → Fields
  put_attrs id_key stop payload = payload
  put_attrs id_key (attr name meta value attrs) payload =
      put_attrs id_key attrs (put_attr name meta value (to_bson_value id_key value) payload)

-- `vars(doc)` without the private names and the missing values.
unfoldable pub put_vars : Str → Fields → Fields → Fields
unfolding to_bson_value field_name
put_vars id_key end payload = payload
put_vars id_key (field k v fs) payload = put_vars id_key fs (
    if starts_with k (codes "_") || is_null v
    then payload
    else put_field (field_name k) (to_bson_value id_key v) payload)

-- `vars` raises a TypeError on what has no attributes.
pub data Unsupported : Type 0 where
  type_error : Unsupported

unfoldable pub to_document : Value → Str → Result Unsupported Fields
unfolding rename_id put_attrs put_vars
to_document (dict fs) id_key = ok (rename_id id_key fs)
to_document (dataclass attrs) id_key = ok (rename_id id_key (put_attrs id_key attrs end))
to_document (plain_object fs) id_key = ok (rename_id id_key (put_vars id_key fs end))
to_document _ id_key = err type_error

-- A database's exception, by the name of its class and its `code`.
pub record DbError : Type 0 where
  pub class_name : Str
  pub code : ℕ

unfoldable pub is_duplicate_error : DbError → Bool
is_duplicate_error e = str_eq e.class_name (codes "DuplicateKeyError") || e.code == 11000
