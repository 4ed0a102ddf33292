-- ===== src/Config/Maps/Paths.antt =====
-- `_set_path` and `_get_path` of src/core_py/config.py.
use core_py.Base.{◌≡◌, ◌≢◌, refl, false, Option, none, some, List, [], ◌∷◌, ◌⊎◌, inl, inr}
use core_py.Base.Text.{Str, str_eq}
use core_py.Config.Value.{
  Value, dict, Fields, end, get_field, get_field-put_field_self, get_field-put_field_ne,
}
use core_py.Config.Maps.{dict_or_new, set_path, get_path, ◌>>=◌}

-- The paths part at some node, so neither runs through the other's end.
abbrev pub Apart : List Str → List Str → Type 0
Apart (a ∷ p) (b ∷ q) = (str_eq a b ≡ false) ⊎ ((a ≡ b) × Apart p q)
Apart _ _ = ⊥

get_path-set_path_self :
    (p : List Str) (fs : Fields) (v : Value) → p ≢ [] → get_path (dict (set_path fs p v)) p ≡ some v
unfolding set_path get_path
get_path-set_path_self [] fs v h = absurd (h refl)
get_path-set_path_self (n ∷ []) fs v h = rw (get_field-put_field_self n v fs)
get_path-set_path_self (n ∷ m ∷ p) fs v h =
    let sub = dict_or_new (get_field n fs) in
    rw (get_field-put_field_self n (dict (set_path sub (m ∷ p) v)) fs)
      (get_path-set_path_self (m ∷ p) sub v (λ e. cc))

Apart-ne-nil : (p q : List Str) → Apart p q → p ≢ []
Apart-ne-nil [] q h = absurd h
Apart-ne-nil (a ∷ p) q h = λ e. cc

get_path_end : (p q : List Str) → Apart p q → get_path (dict end) q ≡ none
unfolding get_path get_field
get_path_end (a ∷ p) (b ∷ q) h = refl
get_path_end [] q h = absurd h
get_path_end (a ∷ p) [] h = absurd h

-- Below a value that is no mapping there is nothing, as in the new map that replaces it.
get_path-dict_or_new :
    (p q : List Str) (o : Option Value)
    → Apart p q
    → get_path (dict (dict_or_new o)) q ≡ (o >>= λ w. get_path w q)
unfolding get_path
get_path-dict_or_new (a ∷ p) (b ∷ q) none h = get_path_end (a ∷ p) (b ∷ q) h
get_path-dict_or_new (a ∷ p) (b ∷ q) (some (dict fs)) h = refl
get_path-dict_or_new (a ∷ p) (b ∷ q) (some _) h = get_path_end (a ∷ p) (b ∷ q) h
get_path-dict_or_new [] q o h = absurd h
get_path-dict_or_new (a ∷ p) [] o h = absurd h

get_path-set_path-Apart :
    (p q : List Str) (fs : Fields) (v : Value)
    → Apart p q
    → get_path (dict (set_path fs p v)) q ≡ get_path (dict fs) q
unfolding set_path get_path
get_path-set_path-Apart (a ∷ []) (b ∷ q) fs v (inl h) = rw (get_field-put_field_ne a b v fs h)
get_path-set_path-Apart (a ∷ []) (b ∷ q) fs v (inr h) = absurd h.1
get_path-set_path-Apart (a ∷ m ∷ p) (b ∷ q) fs v (inl h) =
    rw (get_field-put_field_ne a b (dict (set_path (dict_or_new (get_field a fs)) (m ∷ p) v)) fs h)
get_path-set_path-Apart (a ∷ m ∷ p) (b ∷ q) fs v (inr (e, h)) =
    let sub = dict_or_new (get_field a fs) in
    rw (← e) (
      rw (get_field-put_field_self a (dict (set_path sub (m ∷ p) v)) fs) (
        rw (get_path-set_path-Apart (m ∷ p) q sub v h)
          (get_path-dict_or_new (m ∷ p) q (get_field a fs) h)))
get_path-set_path-Apart [] q fs v h = absurd h
get_path-set_path-Apart (a ∷ p) [] fs v h = absurd h

-- After `_set_path` along a path, `_get_path` finds the value at that path, and
-- along a path that parts from it what it found before, also where a value that is no mapping was
-- replaced on the way.
pub set_path_lem :
    (fs : Fields) (p q : List Str) (v : Value)
    → Apart p q
    → (get_path (dict (set_path fs p v)) p ≡ some v)
      × (get_path (dict (set_path fs p v)) q ≡ get_path (dict fs) q)
set_path_lem fs p q v h =
    (get_path-set_path_self p fs v (Apart-ne-nil p q h), get_path-set_path-Apart p q fs v h)
