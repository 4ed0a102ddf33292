-- ===== src/Mongox/Query.antt =====
-- src/core_py/model/mongox/query.py: the inputs of the queries, paging, sorting and feed tokens.
use core_py.Base.{
  ℕ, ◌*◌, ◌-◌, Bool, true, false, ◌||◌, Option, none, some, List, [], ◌∷◌, if◌then◌else◌, Result,
  ok, err, map,
}
use core_py.Base.Text.{Str, codes, is_empty, str_eq, lower}
use core_py.Base.Int.{ℤ, pos, negsuc}
use core_py.Base.Number.{py_int}
use core_py.Data.{Kind, new_validation_error}
use core_py.Data.Sort.{SortPair, get_sort_info}
use core_py.Model.Pages.{Pager, get_page_info, new_snowflake_id}
use core_py.Mongox.Value.{
  Value, bool, int, float, text, date, arr, dict, nil, cons, Fields, end, field,
}

abbrev pub default_feed_cursor_field : Str
default_feed_cursor_field = codes "_id"

-- `sort` is the order clause of the `Sortable`.
pub record PageQueryInput : Type 0 where
  pub filter : Fields
  pub pager : Option Pager
  pub sort : Option Str

pub record FeedQueryInput : Type 0 where
  pub filter : Fields
  pub pager : Option Pager
  pub cursor_field : Str
  pub is_descending : Bool

pub record PatchRawInput : Type 0 where
  pub filter : Fields
  pub patch_payload : Fields
  pub is_many : Bool
  pub skip_inject_cond : Bool

-- Rows before the page; where the size or the number is not positive, none.
abbrev pub skip_of : ℤ → ℤ → ℕ
skip_of (pos size) (pos num) = size * (num - 1)
skip_of _ _ = 0

unfoldable pub page_limit_skip : Option Pager → ℤ × ℕ
unfolding get_page_info
page_limit_skip none = (pos 0, 0)
page_limit_skip (some pager) =
    let (page_size, page_num, page_token) = get_page_info pager in
    (page_size, skip_of page_size page_num)

-- A field with its direction.
abbrev pub Sort : Type 0
Sort = List (Str × ℤ)

abbrev direction : Bool → ℤ
direction is_descending = if is_descending then negsuc 0 else pos 1

abbrev directed : SortPair → Str × ℤ
directed p = (p.field, direction p.is_descending)

abbrev directed_all : Option (List SortPair) → Option Sort
directed_all none = none
directed_all (some ps) = some (map directed ps)

-- An IndexError of `get_sort_info` is `none`.
unfoldable pub sort_conf : Option Str → Option Sort
unfolding get_sort_info
sort_conf none = some []
sort_conf (some order_by) = directed_all (get_sort_info order_by)

unfoldable pub merge_feed_filter : Fields → Fields → Fields
merge_feed_filter end cursor = cursor
merge_feed_filter (field k v base) end = field k v base
merge_feed_filter (field k v base) (field j w cursor) =
    field (codes "$and") (arr (cons (dict (field k v base)) (cons (dict (field j w cursor)) nil)))
      end

unfoldable pub normalize_feed_cursor_field : Str → Str
unfolding str_eq
normalize_feed_cursor_field cursor_field =
    if is_empty cursor_field || str_eq cursor_field (codes "id")
    then default_feed_cursor_field
    else cursor_field

unfoldable pub feed_cursor_filter : Str → Value → Bool → Fields
feed_cursor_filter cursor_field page_token is_descending =
    field cursor_field
      (dict (field (if is_descending then codes "$lt" else codes "$gt") page_token end)) end

unfoldable pub feed_sort_conf : Str → Bool → Sort
feed_sort_conf cursor_field is_descending = (cursor_field, direction is_descending) ∷ []

-- The types of an entity's fields that the source tells apart; `optional` is a union whose only
-- member besides `None` it is.
pub data FieldType : Type 0 where
  untyped any str_type int_type snowflake_type float_type datetime_type bool_type : FieldType
  optional : FieldType → FieldType
  other_type : FieldType

unfoldable pub unwrap_optional_type : FieldType → FieldType
unwrap_optional_type (optional t) = t
unwrap_optional_type t = t

abbrev parse_failed : Result Kind Value
parse_failed = err (new_validation_error (codes "parse feed token failed"))

abbrev or_failed {ℓ} : {A : Type ℓ} → (A → Value) → Option A → Result Kind Value
or_failed f none = parse_failed
or_failed f (some a) = ok (f a)

abbrev parsed_id : Result Kind ℕ → Result Kind Value
parsed_id (err e) = err e
parsed_id (ok n) = ok (int (pos n))

abbrev member : Str → List Str → Bool
member s [] = false
member s (t ∷ ts) = str_eq s t || member s ts

-- `to_float` and `from_isoformat` are `float` and `datetime.fromisoformat` on a text.
module _ (to_float from_isoformat : Str → Option ℕ) where
  abbrev token_value : Str → FieldType → Result Kind Value
  token_value page_token int_type = or_failed int (py_int page_token)
  token_value page_token snowflake_type = parsed_id (new_snowflake_id page_token)
  token_value page_token float_type = or_failed float (to_float page_token)
  token_value page_token datetime_type = or_failed date (from_isoformat page_token)
  token_value page_token bool_type =
      let normalized = lower page_token in
      if member normalized (codes "1" ∷ codes "true" ∷ codes "yes" ∷ [])
      then ok (bool true)
      else if member normalized (codes "0" ∷ codes "false" ∷ codes "no" ∷ [])
      then ok (bool false)
      else parse_failed
  token_value page_token _ = ok (text page_token)

  unfoldable pub parse_feed_token : Str → FieldType → Result Kind Value
  unfolding unwrap_optional_type py_int new_snowflake_id lower
  parse_feed_token page_token field_type = token_value page_token (unwrap_optional_type field_type)
