-- ===== src/Context/Keyed.antt =====
-- What a read of src/core_py/context.py returns after a write, and what goes out as headers.
use core_py.Base.{
  ◌≡◌, refl, ap, true, false, not, some, [], ◌∷◌, inl, inr, arith, if◌then◌else◌, Bool-cases, All,
}
use core_py.Base.Text.{Str, is_empty, str_eq, str_eq_iff, starts_with, strip_prefix}
use core_py.Base.Dict
use core_py.Base.Dict.{Dict, get-put}
use core_py.Context.Keys.{fixed_key, fixed_key_direct, pass_prefix, direct_prefix}
use core_py.Context.Keys.Normal.{
  fixed_with-prefix, fixed_with_idem, pass_prefix-IsNormal, direct_prefix-IsNormal, fixed_key-eq,
  fixed_key_direct-eq,
}
use core_py.Context.{
  Value, text, Var, Context, copy_context, get_pass_value, set_pass_value, get_direct_value,
  set_direct_value, pass_items, pass_headers,
}

-- `fixed_key` and `fixed_key_direct` return keys of their namespace, and leave such a key as it is:
-- applying either function twice is the same as applying it once.
pub fixed_key_canonical :
    (k : Str)
    → (fixed_key (fixed_key k) ≡ fixed_key k)
      × (starts_with (fixed_key k) pass_prefix ≡ true)
      × (fixed_key_direct (fixed_key_direct k) ≡ fixed_key_direct k)
      × (starts_with (fixed_key_direct k) direct_prefix ≡ true)
fixed_key_canonical k = (
  rw (fixed_key-eq (fixed_key k), fixed_key-eq k) (fixed_with_idem _ _ k pass_prefix-IsNormal),
  rw fixed_key-eq (fixed_with-prefix _ _),
  rw (fixed_key_direct-eq (fixed_key_direct k), fixed_key_direct-eq k)
      (fixed_with_idem _ _ k direct_prefix-IsNormal),
  rw fixed_key_direct-eq (fixed_with-prefix _ _),
)

direct-not_pass : (s : Str) → starts_with s direct_prefix ≡ true → starts_with s pass_prefix ≡ false
unfolding starts_with strip_prefix
direct-not_pass s h = ground arith

-- A pass key is never a direct key.
str_eq-namespaces : (j k : Str) → str_eq (fixed_key j) (fixed_key_direct k) ≡ false
str_eq-namespaces j k = elim (Bool-cases (str_eq (fixed_key j) (fixed_key_direct k))) [
  | inl e ↦
      let same = (str_eq_iff (fixed_key j) (fixed_key_direct k)).0 e in
      let pass = (fixed_key_canonical j).1 in
      cc (
        pass,
        direct-not_pass (fixed_key_direct k) (fixed_key_canonical k).3,
        ap (λ s. starts_with s pass_prefix) same,
      )
  | inr e ↦ e
]

-- After `set_pass_value k v`, a read of the pass key `j` returns `v`, with its test for emptiness,
-- exactly if `j` and `k` have one fixed key, and otherwise what it returned before; a read of any
-- direct key returns what it returned before.
pub get-set_pass_value :
    (j k v : Str) (s : Var)
    → (get_pass_value j (set_pass_value k v s) ≡ (
        if str_eq (fixed_key k) (fixed_key j) then (v, not (is_empty v)) else get_pass_value j s))
      × (get_direct_value j (set_pass_value k v s) ≡ get_direct_value j s)
unfolding get_pass_value set_pass_value get_direct_value
get-set_pass_value j k v s = (
  ground (arith, get-put (fixed_key k) (fixed_key j) (text v) (copy_context s)),
  ground (
    arith,
    get-put (fixed_key k) (fixed_key_direct j) (text v) (copy_context s),
    str_eq-namespaces k j,
  ),
)

pass_items-put :
    (k j v : Str) (d : Context)
    → starts_with k pass_prefix ≡ true
    → Dict.get j (pass_items (Dict.put k (text v) d))
      ≡ (if str_eq k j then some v else Dict.get j (pass_items d))
unfolding pass_items Dict.put Dict.get
pass_items-put k j v [] h = rw h
pass_items-put k j v ((i, w) ∷ d) h =
    ground (arith, str_eq_iff i k, str_eq_iff k j, str_eq_iff i j, pass_items-put k j v d h)

pass_items-put_other :
    (k : Str) (w : Value) (d : Context)
    → starts_with k pass_prefix ≡ false
    → pass_items (Dict.put k w d) ≡ pass_items d
unfolding pass_items Dict.put
pass_items-put_other k (text t) [] h = rw h
pass_items-put_other k _ [] h = refl
pass_items-put_other k w ((i, x) ∷ d) h =
    ground (arith, str_eq_iff i k, pass_items-put_other k w d h)

pass_items-prefix : (d : Context) → All (λ e. starts_with e.0 pass_prefix ≡ true) (pass_items d)
unfolding pass_items
pass_items-prefix [] = tt
pass_items-prefix ((k, text t) ∷ d) = elim (Bool-cases (starts_with k pass_prefix)) [
  | inl e ↦ rw e (e, pass_items-prefix d)
  | inr e ↦ rw e (pass_items-prefix d)
]
pass_items-prefix ((k, _) ∷ d) = pass_items-prefix d

-- Only keys with the pass prefix go out as headers. After `set_pass_value k v` the headers have `v`
-- under the fixed key and are unchanged elsewhere; `set_direct_value` leaves them unchanged.
pub pass_headers_lem :
    (j k v : Str) (s : Var)
    → All (λ e. starts_with e.0 pass_prefix ≡ true) (pass_headers s)
      × (Dict.get j (pass_headers (set_pass_value k v s))
          ≡ (if str_eq (fixed_key k) j then some v else Dict.get j (pass_headers s)))
      × (pass_headers (set_direct_value k v s) ≡ pass_headers s)
unfolding pass_headers set_pass_value set_direct_value
pass_headers_lem j k v s = (
  pass_items-prefix (copy_context s),
  pass_items-put (fixed_key k) j v (copy_context s) (fixed_key_canonical k).1,
  pass_items-put_other (fixed_key_direct k) (text v) (copy_context s)
      (direct-not_pass (fixed_key_direct k) (fixed_key_canonical k).3),
)
