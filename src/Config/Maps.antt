-- ===== src/Config/Maps.antt =====
-- The map functions of src/core_py/config.py: normalising, merging, paths, flattening.
pub mod Merge
pub mod Paths
pub mod Distinct
use core_py.Base.{ℕ, Bool, true, false, Option, none, some, List, [], ◌∷◌, ◌++◌, if◌then◌else◌}
use core_py.Base.Text.{Str, codes, is_empty, lower}
use core_py.Base.Dict
use core_py.Base.Dict.{Dict}
use core_py.Config.Value.{
  Value, null, bool, int, float, text, arr, dict, Items, nil, cons, Fields, end, field, get_field,
  put_field,
}

-- The keys of `Fields` are already `str(k)`.
unfoldable mutual
  pub normalize_map : Fields → Fields → Fields
  normalize_map ret end = ret
  normalize_map ret (field k v fs) = normalize_map (put_field (lower k) (normalize_value v) ret) fs

  pub normalize_value : Value → Value
  normalize_value (dict fs) = dict (normalize_map end fs)
  normalize_value (arr xs) = arr (normalize_items xs)
  normalize_value v = v

  pub normalize_items : Items → Items
  normalize_items nil = nil
  normalize_items (cons v xs) = cons (normalize_value v) (normalize_items xs)

-- The loop of `_merge_maps`, on the copy `ret` of `dst`, and what it stores under one key.
unfoldable mutual
  pub merge_maps : Fields → Fields → Fields
  merge_maps ret end = ret
  merge_maps ret (field k v src) =
      merge_maps (put_field k (merge_value (get_field k ret) v) ret) src

  pub merge_value : Option Value → Value → Value
  merge_value (some (dict d)) (dict s) = dict (merge_maps d s)
  merge_value _ v = v

-- `cur.get(node)` where it is a dict, and a new dict elsewhere
abbrev pub dict_or_new : Option Value → Fields
dict_or_new (some (dict fs)) = fs
dict_or_new _ = end

unfoldable pub set_path : Fields → List Str → Value → Fields
set_path fs [] v = fs
set_path fs (node ∷ []) v = put_field node v fs
set_path fs (node ∷ m ∷ nodes) v =
    put_field node (dict (set_path (dict_or_new (get_field node fs)) (m ∷ nodes) v)) fs

-- `cur[node]`, or `none` where `cur` is no mapping or has no such key
abbrev pub get_node : Str → Value → Option Value
get_node node (dict fs) = get_field node fs
get_node node _ = none

infixl 5 ◌>>=◌
abbrev pub ◌>>=◌ {ℓ κ} : {A : Type ℓ} {B : Type κ} → Option A → (A → Option B) → Option B
none >>= f = none
some a >>= f = f a

unfoldable pub get_path : Value → List Str → Option Value
get_path cur [] = some cur
get_path cur (node ∷ nodes) = do next ← get_node node cur; get_path next nodes

-- `f"{prefix}.{key}" if prefix else key`
abbrev pub extend_path : Str → Str → Str
extend_path [] key = key
extend_path (c ∷ prefix) key = (c ∷ prefix) ++ (codes "." ++ key)

-- `_flatten_map`: `ret` is the result so far.
unfoldable mutual
  pub flatten_map : Dict Value → Str → Fields → Dict Value
  flatten_map ret prefix end = ret
  flatten_map ret prefix (field key value fs) =
      flatten_map (flatten_value ret (extend_path prefix key) value) prefix fs

  pub flatten_value : Dict Value → Str → Value → Dict Value
  flatten_value ret path (dict fs) = Dict.update ret (flatten_map [] path fs)
  flatten_value ret path v = Dict.put path v ret

unfoldable mutual
  pub record_sources : Dict Str → Str → Str → Fields → Dict Str
  record_sources sources source prefix end = sources
  record_sources sources source prefix (field key value fs) =
      record_sources (record_value sources source (extend_path prefix key) value) source prefix fs

  pub record_value : Dict Str → Str → Str → Value → Dict Str
  record_value sources source path (dict fs) = record_sources sources source path fs
  record_value sources source path v = Dict.put path source sources
