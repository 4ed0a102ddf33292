-- ===== src/Config/Value.antt =====
-- The values of a configuration: what YAML, the environment and the flags give. A mapping is an
-- ordered list of fields, as a `dict` is. A float is its 64-bit pattern.
use core_py.Base.{ℕ, ◌≡◌, refl, Bool, true, false, Option, none, some, arith, if◌then◌else◌}
use core_py.Base.Text.{Str, str_eq, str_eq_iff, str_eq_refl}
use core_py.Base.Int.{ℤ}

mutual
  pub data Value : Type 0 where
    null : Value
    bool : Bool → Value
    int : ℤ → Value
    float : ℕ → Value
    text : Str → Value
    arr : Items → Value
    dict : Fields → Value

  pub data Items : Type 0 where
    nil : Items
    cons : Value → Items → Items

  pub data Fields : Type 0 where
    end : Fields
    field : Str → Value → Fields → Fields

-- d.get(key)
unfoldable pub get_field : Str → Fields → Option Value
get_field k end = none
get_field k (field j v fs) = if str_eq j k then some v else get_field k fs

-- d[key] = value
unfoldable pub put_field : Str → Value → Fields → Fields
put_field k v end = field k v end
put_field k v (field j w fs) = if str_eq j k then field j v fs else field j w (put_field k v fs)

pub get_field-put_field :
    (k j : Str) (v : Value) (fs : Fields)
    → get_field j (put_field k v fs) ≡ (if str_eq k j then some v else get_field j fs)
unfolding get_field put_field
get_field-put_field k j v end = refl
get_field-put_field k j v (field i w fs) =
    ground (arith, str_eq_iff k j, str_eq_iff i k, str_eq_iff i j, get_field-put_field k j v fs)

pub get_field-put_field_self :
    (k : Str) (v : Value) (fs : Fields) → get_field k (put_field k v fs) ≡ some v
get_field-put_field_self k v fs = simp (get_field-put_field, str_eq_refl)

pub get_field-put_field_ne :
    (k j : Str) (v : Value) (fs : Fields)
    → str_eq k j ≡ false
    → get_field j (put_field k v fs) ≡ get_field j fs
get_field-put_field_ne k j v fs h = simp (get_field-put_field, h)

-- `isinstance(value, Mapping)`
abbrev pub is_dict : Value → Bool
is_dict (dict _) = true
is_dict _ = false

-- The keys of a `dict` are distinct, at every depth.
unfoldable mutual
  pub IsDict : Value → Type 0
  IsDict (arr xs) = AreDicts xs
  IsDict (dict fs) = HasKeys fs
  IsDict _ = Unit

  pub AreDicts : Items → Type 0
  AreDicts nil = Unit
  AreDicts (cons v xs) = IsDict v × AreDicts xs

  pub HasKeys : Fields → Type 0
  HasKeys end = Unit
  HasKeys (field k v fs) = (get_field k fs ≡ none) × IsDict v × HasKeys fs
