-- ===== src/Config/Maps/Distinct.antt =====
-- Every map that src/core_py/config.py builds has distinct keys at every depth.
use core_py.Base.{
  refl, Bool-cases, Option-cases, Option, none, some, List, [], ◌∷◌, inl, inr, arith,
}
use core_py.Base.Text.{Str, str_eq, str_eq_iff}
use core_py.Config.Value.{
  Value, null, bool, int, float, text, arr, dict, Items, nil, cons, Fields, end, field, get_field,
  put_field, get_field-put_field, IsDict, AreDicts, HasKeys,
}
use core_py.Config.Maps.{
  normalize_map, normalize_value, normalize_items, merge_maps, merge_value, dict_or_new, set_path,
}
use core_py.Config.Maps.Merge.{get_field-IsDict, merge_value_scalar}

pub put_field-HasKeys :
    (k : Str) (v : Value) (fs : Fields) → IsDict v → HasKeys fs → HasKeys (put_field k v fs)
unfolding put_field HasKeys get_field
put_field-HasKeys k v end d h = (refl, d, tt)
put_field-HasKeys k v (field j w fs) d h = elim (Bool-cases (str_eq j k)) [
  | inl e ↦ rw e (h.0, d, h.2)
  | inr e ↦ rw e (
    ground (arith, get_field-put_field k j v fs, str_eq_iff j k, str_eq_iff k j),
    h.1,
    put_field-HasKeys k v fs d h.2,
  )
]

mutual
  unfolding normalize_map IsDict

  normalize_map-HasKeys : (fs ret : Fields) → HasKeys ret → HasKeys (normalize_map ret fs)
  normalize_map-HasKeys end ret h = h
  normalize_map-HasKeys (field k v fs) ret h =
      normalize_map-HasKeys fs _
        (put_field-HasKeys _ (normalize_value v) ret (normalize_value-IsDict v) h)

  normalize_value-IsDict : (v : Value) → IsDict (normalize_value v)
  normalize_value-IsDict (dict fs) = normalize_map-HasKeys fs end tt
  normalize_value-IsDict (arr xs) = normalize_items-AreDicts xs
  normalize_value-IsDict null = tt
  normalize_value-IsDict (bool b) = tt
  normalize_value-IsDict (int n) = tt
  normalize_value-IsDict (float x) = tt
  normalize_value-IsDict (text t) = tt

  normalize_items-AreDicts : (xs : Items) → AreDicts (normalize_items xs)
  normalize_items-AreDicts nil = tt
  normalize_items-AreDicts (cons v xs) = (normalize_value-IsDict v, normalize_items-AreDicts xs)

pub HasKeys-normalize_map : (fs : Fields) → HasKeys (normalize_map end fs)
unfolding HasKeys
HasKeys-normalize_map fs = normalize_map-HasKeys fs end tt

OptionIsDict : Option Value → Type 0
OptionIsDict none = Unit
OptionIsDict (some v) = IsDict v

get_field-OptionIsDict : (k : Str) (fs : Fields) → HasKeys fs → OptionIsDict (get_field k fs)
unfolding OptionIsDict
get_field-OptionIsDict k fs h = elim (Option-cases (get_field k fs)) [
  | inl e ↦ rw e tt
  | inr (v, e) ↦ rw e (get_field-IsDict k fs v h e)
]

mutual
  unfolding merge_maps IsDict OptionIsDict

  merge_HasKeys : (src ret : Fields) → HasKeys src → HasKeys ret → HasKeys (merge_maps ret src)
  merge_HasKeys end ret h r = r
  merge_HasKeys (field k v src) ret h r = merge_HasKeys src _ h.2 (
      put_field-HasKeys k _ ret
        (merge_IsDict v (get_field k ret) h.1 (get_field-OptionIsDict k ret r)) r)

  merge_IsDict :
      (v : Value) (o : Option Value) → IsDict v → OptionIsDict o → IsDict (merge_value o v)
  merge_IsDict (dict s) (some (dict d)) h k = merge_HasKeys s d h k
  merge_IsDict (dict s) none h k = h
  merge_IsDict (dict s) (some _) h k = h
  merge_IsDict (arr xs) o h k = rw (merge_value_scalar o (arr xs) refl) h
  merge_IsDict null o h k = rw (merge_value_scalar o null refl) tt
  merge_IsDict (bool b) o h k = rw (merge_value_scalar o (bool b) refl) tt
  merge_IsDict (int n) o h k = rw (merge_value_scalar o (int n) refl) tt
  merge_IsDict (float x) o h k = rw (merge_value_scalar o (float x) refl) tt
  merge_IsDict (text t) o h k = rw (merge_value_scalar o (text t) refl) tt

pub merge_maps-HasKeys :
    (dst src : Fields) → HasKeys dst → HasKeys src → HasKeys (merge_maps dst src)
merge_maps-HasKeys dst src h k = merge_HasKeys src dst k h

dict_or_new-HasKeys : (o : Option Value) → OptionIsDict o → HasKeys (dict_or_new o)
unfolding OptionIsDict IsDict
dict_or_new-HasKeys (some (dict fs)) h = h
dict_or_new-HasKeys _ h = tt

pub set_path-HasKeys :
    (fs : Fields) (p : List Str) (v : Value) → IsDict v → HasKeys fs → HasKeys (set_path fs p v)
unfolding set_path IsDict
set_path-HasKeys fs [] v d h = h
set_path-HasKeys fs (n ∷ []) v d h = put_field-HasKeys n v fs d h
set_path-HasKeys fs (n ∷ m ∷ p) v d h =
    put_field-HasKeys n _ fs
      (set_path-HasKeys (dict_or_new (get_field n fs)) (m ∷ p) v d
        (dict_or_new-HasKeys (get_field n fs) (get_field-OptionIsDict n fs h)))
      h
