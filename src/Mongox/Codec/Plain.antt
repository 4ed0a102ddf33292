-- ===== src/Mongox/Codec/Plain.antt =====
-- What src/core_py/model/mongox/codec.py sends to the database: values that it can store.
use core_py.Base.{
  Bool, true, false, Option, none, some, ok, ◌≡◌, refl, ap, subst, if_both, inl, inr, Bool-cases,
}
use core_py.Base.Text.{Str, codes, str_eq, str_eq_refl}
use core_py.Mongox.Value.{
  Value, null, bool, int, float, text, date, snowflake, arr, dict, dataclass, plain_object, Items,
  nil, cons, Fields, end, field, Attrs, stop, attr, get_field, put_field, remove_field,
  update_fields, get_field-put_field, get_field-remove_field,
}
use core_py.Mongox.Codec.{
  to_bson_value, to_bson_items, to_bson_fields, put_attrs, put_attr, put_encoded, rename_id,
  rename_value, is_dataclass, is_null, parse_bson_meta, to_document,
}

-- No snowflake id and no dataclass, at any depth: in lists, in mappings, and in the attributes of
-- other objects.
unfoldable mutual
  pub IsPlain : Value → Type 0
  IsPlain (snowflake n) = ⊥
  IsPlain (dataclass attrs) = ⊥
  IsPlain (arr xs) = ArePlain xs
  IsPlain (dict fs) = HasPlain fs
  IsPlain (plain_object fs) = HasPlain fs
  IsPlain _ = Unit

  pub ArePlain : Items → Type 0
  ArePlain nil = Unit
  ArePlain (cons v xs) = IsPlain v × ArePlain xs

  pub HasPlain : Fields → Type 0
  HasPlain end = Unit
  HasPlain (field k v fs) = IsPlain v × HasPlain fs

-- The objects of other classes in a value, which the conversion leaves as they are, have neither in
-- their attributes.
unfoldable mutual
  unfolding IsPlain

  pub IsFit : Value → Type 0
  IsFit (plain_object fs) = HasPlain fs
  IsFit (dataclass attrs) = HasFitAttrs attrs
  IsFit (arr xs) = AreFit xs
  IsFit (dict fs) = HasFit fs
  IsFit _ = Unit

  pub AreFit : Items → Type 0
  AreFit nil = Unit
  AreFit (cons v xs) = IsFit v × AreFit xs

  pub HasFit : Fields → Type 0
  HasFit end = Unit
  HasFit (field k v fs) = IsFit v × HasFit fs

  pub HasFitAttrs : Attrs → Type 0
  HasFitAttrs stop = Unit
  HasFitAttrs (attr name meta v attrs) = IsFit v × HasFitAttrs attrs

put_field-HasPlain :
    (k : Str) (v : Value) (fs : Fields) → IsPlain v → HasPlain fs → HasPlain (put_field k v fs)
unfolding put_field HasPlain
put_field-HasPlain k v end h hs = (h, tt)
put_field-HasPlain k v (field j w fs) h hs =
    if_both HasPlain (str_eq j k) (h, hs.1) (hs.0, put_field-HasPlain k v fs h hs.1)

remove_field-HasPlain : (k : Str) (fs : Fields) → HasPlain fs → HasPlain (remove_field k fs)
unfolding remove_field HasPlain
remove_field-HasPlain k end hs = tt
remove_field-HasPlain k (field j w fs) hs =
    if_both HasPlain (str_eq j k) (remove_field-HasPlain k fs hs.1)
      (hs.0, remove_field-HasPlain k fs hs.1)

update_fields-HasPlain : (fs e : Fields) → HasPlain fs → HasPlain e → HasPlain (update_fields fs e)
unfolding update_fields HasPlain
update_fields-HasPlain fs end hs h = hs
update_fields-HasPlain fs (field k v e) hs h =
    update_fields-HasPlain (put_field k v fs) e (put_field-HasPlain k v fs h.0 hs) h.1

get_field-IsPlain :
    (k : Str) (fs : Fields) (v : Value) → HasPlain fs → get_field k fs ≡ some v → IsPlain v
unfolding get_field HasPlain
get_field-IsPlain k end v hs e = absurd cc
get_field-IsPlain k (field j w fs) v hs e = elim (Bool-cases (str_eq j k)) [
  | inl m ↦ subst IsPlain (some_eq (rw m at e)) hs.0
  | inr m ↦ get_field-IsPlain k fs v hs.1 (rw m at e)
]
  where
    some_eq : {a b : Value} → ◌≡◌ {A = Option Value} (some a) (some b) → a ≡ b
    some_eq h = cc

rename_id-HasPlain : (id_key : Str) (fs : Fields) → HasPlain fs → HasPlain (rename_id id_key fs)
unfolding rename_id
rename_id-HasPlain id_key fs hs = by_value (get_field (codes "id") fs) refl
  where
    by_value :
        (o : Option Value) → get_field (codes "id") fs ≡ o → HasPlain (rename_value id_key o fs)
    by_value none e = hs
    by_value (some v) e =
        put_field-HasPlain id_key v (remove_field (codes "id") fs)
          (get_field-IsPlain (codes "id") fs v hs e) (remove_field-HasPlain (codes "id") fs hs)

put_encoded-HasPlain :
    (m : Str × Bool × Bool) (is_nested : Bool) (v : Value) (fs : Fields)
    → IsPlain v
    → HasPlain fs
    → HasPlain (put_encoded m is_nested v fs)
unfolding IsPlain
put_encoded-HasPlain (name, inline, true) is_nested v fs h hs = hs
put_encoded-HasPlain (name, true, false) true (dict nested) fs h hs =
    update_fields-HasPlain fs nested hs h
put_encoded-HasPlain (name, true, false) true v fs h hs = put_field-HasPlain name v fs h hs
put_encoded-HasPlain (name, true, false) false v fs h hs = put_field-HasPlain name v fs h hs
put_encoded-HasPlain (name, false, false) is_nested v fs h hs = put_field-HasPlain name v fs h hs

put_attr-HasPlain :
    (name : Str) (meta : Option Str) (v encoded : Value) (fs : Fields)
    → IsPlain encoded
    → HasPlain fs
    → HasPlain (put_attr name meta v encoded fs)
put_attr-HasPlain name meta v encoded fs h hs =
    if_both HasPlain (is_null v) hs
      (put_encoded-HasPlain (parse_bson_meta name meta) (is_dataclass v) encoded fs h hs)

mutual
  unfolding IsPlain IsFit to_bson_value

  encoded-IsPlain : (id_key : Str) (v : Value) → IsFit v → IsPlain (to_bson_value id_key v)
  encoded-IsPlain id_key (snowflake n) h = tt
  encoded-IsPlain id_key (dataclass attrs) h =
      rename_id-HasPlain id_key (put_attrs id_key attrs end) (attrs-HasPlain id_key attrs end h tt)
  encoded-IsPlain id_key (dict fs) h = fields-HasPlain id_key fs h
  encoded-IsPlain id_key (arr xs) h = items-ArePlain id_key xs h
  encoded-IsPlain id_key null h = tt
  encoded-IsPlain id_key (bool b) h = tt
  encoded-IsPlain id_key (int n) h = tt
  encoded-IsPlain id_key (float n) h = tt
  encoded-IsPlain id_key (text t) h = tt
  encoded-IsPlain id_key (date n) h = tt
  encoded-IsPlain id_key (plain_object fs) h = h

  items-ArePlain : (id_key : Str) (xs : Items) → AreFit xs → ArePlain (to_bson_items id_key xs)
  items-ArePlain id_key nil h = tt
  items-ArePlain id_key (cons v xs) h = (encoded-IsPlain id_key v h.0, items-ArePlain id_key xs h.1)

  fields-HasPlain : (id_key : Str) (fs : Fields) → HasFit fs → HasPlain (to_bson_fields id_key fs)
  fields-HasPlain id_key end h = tt
  fields-HasPlain id_key (field k v fs) h =
      (encoded-IsPlain id_key v h.0, fields-HasPlain id_key fs h.1)

  attrs-HasPlain :
      (id_key : Str) (attrs : Attrs) (fs : Fields)
      → HasFitAttrs attrs
      → HasPlain fs
      → HasPlain (put_attrs id_key attrs fs)
  attrs-HasPlain id_key stop fs h hs = hs
  attrs-HasPlain id_key (attr name meta v attrs) fs h hs =
      attrs-HasPlain id_key attrs (put_attr name meta v (to_bson_value id_key v) fs) h.1 (
        put_attr-HasPlain name meta v (to_bson_value id_key v) fs (encoded-IsPlain id_key v h.0) hs)

mutual
  unfolding IsPlain to_bson_value

  plain-same : (id_key : Str) (v : Value) → IsPlain v → to_bson_value id_key v ≡ v
  plain-same id_key (snowflake n) h = absurd h
  plain-same id_key (dataclass attrs) h = absurd h
  plain-same id_key (dict fs) h = ap dict (plain_fields-same id_key fs h)
  plain-same id_key (arr xs) h = ap arr (plain_items-same id_key xs h)
  plain-same id_key null h = refl
  plain-same id_key (bool b) h = refl
  plain-same id_key (int n) h = refl
  plain-same id_key (float n) h = refl
  plain-same id_key (text t) h = refl
  plain-same id_key (date n) h = refl
  plain-same id_key (plain_object fs) h = refl

  plain_items-same : (id_key : Str) (xs : Items) → ArePlain xs → to_bson_items id_key xs ≡ xs
  plain_items-same id_key nil h = refl
  plain_items-same id_key (cons v xs) h =
      rw (plain-same id_key v h.0, plain_items-same id_key xs h.1)

  plain_fields-same : (id_key : Str) (fs : Fields) → HasPlain fs → to_bson_fields id_key fs ≡ fs
  plain_fields-same id_key end h = refl
  plain_fields-same id_key (field k v fs) h =
      rw (plain-same id_key v h.0, plain_fields-same id_key fs h.1)

-- What `to_bson_value` returns has no snowflake id and no dataclass at any depth, the attributes of
-- other objects included, provided that those objects have none in their attributes to start with,
-- since the conversion leaves them as they are; and a second conversion leaves it as it is.
pub to_bson_value-IsPlain :
    (id_key : Str) (v : Value)
    → IsFit v
    → IsPlain (to_bson_value id_key v)
      × (to_bson_value id_key (to_bson_value id_key v) ≡ to_bson_value id_key v)
to_bson_value-IsPlain id_key v fit =
    let plain = encoded-IsPlain id_key v fit in
    (plain, plain-same id_key (to_bson_value id_key v) plain)

renamed :
    (id_key : Str) (payload : Fields)
    → str_eq id_key (codes "id") ≡ false
    → get_field (codes "id") (rename_id id_key payload) ≡ none
unfolding rename_id
renamed id_key payload other = by_value (get_field (codes "id") payload) refl
  where
    by_value :
        (o : Option Value)
        → get_field (codes "id") payload ≡ o
        → get_field (codes "id") (rename_value id_key o payload) ≡ none
    by_value none e = e
    by_value (some v) e =
        rw (get_field-put_field, other, get_field-remove_field, str_eq_refl (codes "id"))

-- Likewise the document of a dataclass has no snowflake id and no dataclass at any depth, and where the key
-- of the id is not "id" itself, it has no field "id".
pub to_document-HasPlain :
    (id_key : Str) (attrs : Attrs)
    → HasFitAttrs attrs
    → str_eq id_key (codes "id") ≡ false
    → (fs : Fields) × (to_document (dataclass attrs) id_key ≡ ok fs)
      × HasPlain fs
      × (get_field (codes "id") fs ≡ none)
unfolding to_document HasPlain
to_document-HasPlain id_key attrs fit other =
    let payload = put_attrs id_key attrs end in
    (
      rename_id id_key payload,
      refl,
      rename_id-HasPlain id_key payload (attrs-HasPlain id_key attrs end fit tt),
      renamed id_key payload other,
    )
