-- ===== src/Mongox/Value.antt =====
-- The values of src/core_py/model/mongox: what entities and filters hold. A `dict` is an ordered
-- list of fields; a dataclass has its fields with the text of their "bson" metadata.
use core_py.Base.{ℕ, ◌≡◌, refl, Bool, true, false, Option, none, some, arith, if◌then◌else◌}
use core_py.Base.Text.{Str, str_eq, str_eq_iff, str_eq_refl}
use core_py.Base.Int.{ℤ}

mutual
  pub data Value : Type 0 where
    null : Value
    bool : Bool → Value
    int : ℤ → Value
    float : ℕ → Value
    text : Str → Value
    date : ℕ → Value
    snowflake : ℕ → Value
    arr : Items → Value
    dict : Fields → Value
    dataclass : Attrs → Value
    plain_object : Fields → Value

  pub data Items : Type 0 where
    nil : Items
    cons : Value → Items → Items

  pub data Fields : Type 0 where
    end : Fields
    field : Str → Value → Fields → Fields

  pub data Attrs : Type 0 where
    stop : Attrs
    attr : (name : Str) (meta : Option Str) → Value → Attrs → Attrs

-- d.get(key)
unfoldable pub get_field : Str → Fields → Option Value
get_field k end = none
get_field k (field j v fs) = if str_eq j k then some v else get_field k fs

-- d[key] = value
unfoldable pub put_field : Str → Value → Fields → Fields
put_field k v end = field k v end
put_field k v (field j w fs) = if str_eq j k then field j v fs else field j w (put_field k v fs)

-- d.pop(key, None)
unfoldable pub remove_field : Str → Fields → Fields
remove_field k end = end
remove_field k (field j w fs) =
    let rest = remove_field k fs in if str_eq j k then rest else field j w rest

-- d.update(e)
unfoldable pub update_fields : Fields → Fields → Fields
unfolding put_field
update_fields d end = d
update_fields d (field k v e) = update_fields (put_field k v d) e

-- key in d
abbrev pub is_some {ℓ} : {A : Type ℓ} → Option A → Bool
is_some none = false
is_some (some v) = true

abbrev pub has_field : Str → Fields → Bool
has_field k fs = is_some (get_field k fs)

pub get_field-put_field :
    (k j : Str) (v : Value) (fs : Fields)
    → get_field j (put_field k v fs) ≡ (if str_eq k j then some v else get_field j fs)
unfolding get_field put_field
get_field-put_field k j v end = refl
get_field-put_field k j v (field i w fs) =
    ground (arith, str_eq_iff k j, str_eq_iff i k, str_eq_iff i j, get_field-put_field k j v fs)

pub get_field-put_field_self :
    (k : Str) (v : Value) (fs : Fields) → get_field k (put_field k v fs) ≡ some v
get_field-put_field_self k v fs = simp (get_field-put_field, str_eq_refl)

pub get_field-put_field_ne :
    (k j : Str) (v : Value) (fs : Fields)
    → str_eq k j ≡ false
    → get_field j (put_field k v fs) ≡ get_field j fs
get_field-put_field_ne k j v fs h = simp (get_field-put_field, h)

pub get_field-remove_field :
    (k j : Str) (fs : Fields)
    → get_field j (remove_field k fs) ≡ (if str_eq k j then none else get_field j fs)
unfolding get_field remove_field
get_field-remove_field k j end = ground arith
get_field-remove_field k j (field i w fs) =
    ground (arith, str_eq_iff k j, str_eq_iff i k, str_eq_iff i j, get_field-remove_field k j fs)
