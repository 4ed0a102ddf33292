-- ===== src/Config/Maps/Merge.antt =====
-- `_merge_maps` of src/core_py/config.py: which side a path of the result comes from.
use core_py.Base.{
  ◌≡◌, refl, ap, sym, ◌∙◌, subst, some_inj, false, Bool-cases, Option-cases, Option, none, some,
  List, [], ◌∷◌, ◌⊎◌, inl, inr, arith,
}
use core_py.Base.Text.{Str, str_eq, str_eq_iff}
use core_py.Config.Value.{
  Value, dict, is_dict, Fields, end, field, get_field, put_field, get_field-put_field, IsDict,
  HasKeys,
}
use core_py.Config.Maps.{merge_maps, merge_value, get_path, ◌>>=◌}

-- One key of the merged map, from the two sides.
abbrev pub merged_field : Option Value → Option Value → Option Value
merged_field o none = o
merged_field o (some v) = some (merge_value o v)

pub get_field-merge_maps :
    (k : Str) (ret src : Fields)
    → HasKeys src
    → get_field k (merge_maps ret src) ≡ merged_field (get_field k ret) (get_field k src)
unfolding merge_maps get_field HasKeys
get_field-merge_maps k ret end h = refl
get_field-merge_maps k ret (field j v src) h =
    let w = merge_value (get_field j ret) v in
    ground (
      arith,
      str_eq_iff j k,
      get_field-put_field j k w ret,
      get_field-merge_maps k (put_field j w ret) src h.2,
    )

pub get_field-IsDict :
    (k : Str) (fs : Fields) (v : Value) → HasKeys fs → get_field k fs ≡ some v → IsDict v
unfolding get_field HasKeys
get_field-IsDict k end v h e = cc
get_field-IsDict k (field j w fs) v h e = elim (Bool-cases (str_eq j k)) [
  | inl same ↦ subst IsDict (some_inj (rw same at e)) h.1
  | inr other ↦ get_field-IsDict k fs v h.2 (rw other at e)
]

pub merge_value_scalar : (o : Option Value) (v : Value) → is_dict v ≡ false → merge_value o v ≡ v
unfolding merge_maps
merge_value_scalar (some (dict d)) (dict s) h = cc
merge_value_scalar _ v h = refl

-- A path into the merged value of a key, by the rule `ih` for two mappings.
merge_value_leaf :
    (p : List Str) (v : Value) (o : Option Value) (w : Value)
    → ((d s : Fields)
        → HasKeys s
        → get_path (dict s) p ≡ some v
        → get_path (dict (merge_maps d s)) p ≡ some v)
    → IsDict w
    → get_path w p ≡ some v
    → get_path (merge_value o w) p ≡ some v
unfolding merge_maps IsDict
merge_value_leaf p v (some (dict d)) (dict s) ih h e = ih d s h e
merge_value_leaf p v _ w ih h e = e

merge_leaf :
    (p : List Str) (v : Value) (dst src : Fields)
    → is_dict v ≡ false
    → HasKeys src
    → get_path (dict src) p ≡ some v
    → get_path (dict (merge_maps dst src)) p ≡ some v
unfolding get_path
merge_leaf [] v dst src leaf h e = cc (ap is_dict (some_inj e))
merge_leaf (n ∷ p) v dst src leaf h e = elim (Option-cases (get_field n src)) [
  | inl missing ↦ cc (rw missing at e)
  | inr (w, found) ↦
      rw (get_field-merge_maps n dst src h, found)
        (merge_value_leaf p v (get_field n dst) w (λ d s. merge_leaf p v d s leaf)
          (get_field-IsDict n src w h found) (rw found at e))
]

-- Along `p` some mapping of `src` does not have the next key.
abbrev pub Lacks : Fields → List Str → Type 0
Lacks src [] = ⊥
Lacks src (n ∷ p) =
    (get_field n src ≡ none) ⊎ ((s : Fields) × (get_field n src ≡ some (dict s)) × Lacks s p)

get_path_scalar :
    (p : List Str) (s : Fields) (w : Value) → Lacks s p → is_dict w ≡ false → get_path w p ≡ none
unfolding get_path
get_path_scalar [] s w h leaf = absurd h
get_path_scalar (n ∷ p) s (dict fs) h leaf = cc
get_path_scalar (n ∷ p) s w h leaf = refl

get_path-Lacks : (p : List Str) (s : Fields) → Lacks s p → get_path (dict s) p ≡ none
unfolding get_path
get_path-Lacks [] s h = absurd h
get_path-Lacks (n ∷ p) s (inl h) = rw h
get_path-Lacks (n ∷ p) s (inr (t, e, h)) = rw e (get_path-Lacks p t h)

merge_value_kept :
    (p : List Str) (o : Option Value) (s : Fields)
    → ((d : Fields) → get_path (dict (merge_maps d s)) p ≡ get_path (dict d) p)
    → Lacks s p
    → get_path (merge_value o (dict s)) p ≡ (o >>= λ w. get_path w p)
unfolding merge_maps
merge_value_kept p none s ih h = get_path-Lacks p s h
merge_value_kept p (some (dict d)) s ih h = ih d
merge_value_kept p (some w) s ih h = get_path-Lacks p s h ∙ sym (get_path_scalar p s w h refl)

merge_kept :
    (p : List Str) (dst src : Fields)
    → HasKeys src
    → Lacks src p
    → get_path (dict (merge_maps dst src)) p ≡ get_path (dict dst) p
unfolding get_path HasKeys IsDict
merge_kept [] dst src h lacks = absurd lacks
merge_kept (n ∷ p) dst src h (inl e) = rw (get_field-merge_maps n dst src h, e)
merge_kept (n ∷ p) dst src h (inr (s, e, lacks)) =
    rw (get_field-merge_maps n dst src h, e)
      (merge_value_kept p (get_field n dst) s
        (λ d. merge_kept p d s (get_field-IsDict n src (dict s) h e) lacks) lacks)

-- The later source wins at every leaf: where a path of the source ends in a value that is no
-- mapping, the merged map has that value there.
pub merge_maps_wins :
    (dst src : Fields) (p : List Str) (v : Value)
    → HasKeys src
    → is_dict v ≡ false
    → get_path (dict src) p ≡ some v
    → get_path (dict (merge_maps dst src)) p ≡ some v
merge_maps_wins dst src p v h leaf e = merge_leaf p v dst src leaf h e

-- Nothing else is lost: along a path that leaves the source at a missing key, the merged map has
-- what the destination has, or as little.
pub merge_maps_keeps :
    (dst src : Fields) (p : List Str)
    → HasKeys src
    → Lacks src p
    → get_path (dict (merge_maps dst src)) p ≡ get_path (dict dst) p
merge_maps_keeps dst src p h lacks = merge_kept p dst src h lacks
