-- ===== src/Config/Parse/Typed.antt =====
-- `_apply_typed_overrides` of src/core_py/config.py: its keys, and what it does along a path.
use core_py.Base.{
  ℕ, ◌≡◌, refl, Option-cases, some_inj, Option, none, some, List, [], ◌∷◌, inl, inr, arith,
}
use core_py.Base.Text.{Str, str_eq_iff}
use core_py.Config.Value.{
  Value, null, bool, int, float, text, arr, dict, Fields, end, field, get_field, put_field,
  get_field-put_field, IsDict, HasKeys,
}
use core_py.Config.Maps.{get_path, ◌>>=◌}
use core_py.Config.Maps.Merge.{get_field-IsDict, Lacks}
use core_py.Config.Maps.Distinct.{put_field-HasKeys}
use core_py.Config.Parse.{parse_with_hint, hint_dict, apply_typed_overrides, typed_override}

-- What a text becomes under a hint is no mapping and no list.
abbrev pub Scalar : Value → Type 0
Scalar (arr _) = ⊥
Scalar (dict _) = ⊥
Scalar _ = Unit

Scalar-IsDict : (v : Value) → Scalar v → IsDict v
unfolding IsDict
Scalar-IsDict (arr _) h = absurd h
Scalar-IsDict (dict _) h = absurd h
Scalar-IsDict _ h = tt

module _ (py_float : Str → Option ℕ) where
  pub parse_with_hint-Scalar :
      (hint : Option Value) (t : Str) → Scalar (parse_with_hint py_float hint t)
  unfolding parse_with_hint
  parse_with_hint-Scalar (some (bool b)) t = ground arith
  parse_with_hint-Scalar _ t = ground arith

  mutual
    unfolding apply_typed_overrides IsDict

    pub typed-HasKeys :
        (fs ret base : Fields)
        → HasKeys fs
        → HasKeys ret
        → HasKeys (apply_typed_overrides py_float ret base fs)
    typed-HasKeys end ret base h k = k
    typed-HasKeys (field key v fs) ret base h k =
        typed-HasKeys fs _ base h.2
          (put_field-HasKeys key _ ret (typed-IsDict v (get_field key base) h.1) k)

    pub typed-IsDict :
        (v : Value) (hint : Option Value) → IsDict v → IsDict (typed_override py_float hint v)
    typed-IsDict (dict fs) hint h = typed-HasKeys fs end _ h tt
    typed-IsDict (text t) hint h = Scalar-IsDict _ (parse_with_hint-Scalar hint t)
    typed-IsDict (arr xs) hint h = h
    typed-IsDict null hint h = tt
    typed-IsDict (bool b) hint h = tt
    typed-IsDict (int n) hint h = tt
    typed-IsDict (float x) hint h = tt

  -- One key of the typed map.
  typed_field : Option Value → Option Value → Option Value → Option Value
  typed_field o hint none = o
  typed_field o hint (some v) = some (typed_override py_float hint v)

  get_field-typed :
      (k : Str) (fs ret base : Fields)
      → HasKeys fs
      → get_field k (apply_typed_overrides py_float ret base fs)
        ≡ typed_field (get_field k ret) (get_field k base) (get_field k fs)
  unfolding apply_typed_overrides get_field HasKeys typed_field
  get_field-typed k end ret base h = refl
  get_field-typed k (field j v fs) ret base h =
      let w = typed_override py_float (get_field j base) v in
      ground (
        arith,
        str_eq_iff j k,
        get_field-put_field j k w ret,
        get_field-typed k fs (put_field j w ret) base h.2,
      )

  get_path-hint_dict :
      (n : Str) (p : List Str) (hint : Option Value)
      → get_path (dict (hint_dict py_float hint)) (n ∷ p) ≡ (hint >>= λ w. get_path w (n ∷ p))
  unfolding get_path get_field
  get_path-hint_dict n p (some (dict fs)) = refl
  get_path-hint_dict n p _ = refl

  bind-some : (o : Option Value) → (o >>= λ w. get_path w []) ≡ o
  unfolding get_path
  bind-some none = refl
  bind-some (some v) = refl

  -- A path into the typed value of a key, by the rule `ih` for a mapping.
  typed_value_text :
      (p : List Str) (t : Str) (hint : Option Value) (w : Value)
      → ((base fs : Fields)
          → HasKeys fs
          → get_path (dict fs) p ≡ some (text t)
          → get_path (dict (apply_typed_overrides py_float end base fs)) p
            ≡ some (parse_with_hint py_float (get_path (dict base) p) t))
      → IsDict w
      → get_path w p ≡ some (text t)
      → get_path (typed_override py_float hint w) p
        ≡ some (parse_with_hint py_float (hint >>= λ x. get_path x p) t)
  unfolding get_path apply_typed_overrides IsDict
  typed_value_text [] t hint (text u) ih h e = rw (bind-some hint) (cc (some_inj e))
  typed_value_text [] t hint (dict fs) ih h e = cc (some_inj e)
  typed_value_text [] t hint _ ih h e = cc (some_inj e)
  typed_value_text (m ∷ p) t hint (dict fs) ih h e =
      rw (← get_path-hint_dict m p hint) (ih (hint_dict py_float hint) fs h e)
  typed_value_text (m ∷ p) t hint _ ih h e = cc

  -- A text at a path of the overrides is read with the value at that path of the base as the hint.
  pub typed_text :
      (p : List Str) (t : Str) (base fs : Fields)
      → HasKeys fs
      → get_path (dict fs) p ≡ some (text t)
      → get_path (dict (apply_typed_overrides py_float end base fs)) p
        ≡ some (parse_with_hint py_float (get_path (dict base) p) t)
  unfolding get_path typed_field
  typed_text [] t base fs h e = cc (some_inj e)
  typed_text (n ∷ p) t base fs h e = elim (Option-cases (get_field n fs)) [
    | inl missing ↦ cc (rw missing at e)
    | inr (w, found) ↦
        rw (get_field-typed n fs end base h, found)
          (typed_value_text p t (get_field n base) w (λ b s. typed_text p t b s)
            (get_field-IsDict n fs w h found) (rw found at e))
  ]

  -- Overrides that lack a path lack it when they are typed.
  pub typed-Lacks :
      (p : List Str) (base fs : Fields)
      → HasKeys fs
      → Lacks fs p
      → Lacks (apply_typed_overrides py_float end base fs) p
  unfolding HasKeys IsDict get_field typed_field apply_typed_overrides
  typed-Lacks [] base fs h lacks = lacks
  typed-Lacks (n ∷ p) base fs h (inl e) = inl (rw (get_field-typed n fs end base h, e))
  typed-Lacks (n ∷ p) base fs h (inr (s, e, lacks)) =
      let hint = hint_dict py_float (get_field n base) in
      inr (
        apply_typed_overrides py_float end hint s,
        rw (get_field-typed n fs end base h, e),
        typed-Lacks p hint s (get_field-IsDict n fs (dict s) h e) lacks,
      )
