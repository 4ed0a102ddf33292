-- ===== src/Config/Checks/Masking.antt =====
-- `_mask_map` and `_mask_uri` of src/core_py/config.py: what a summary may show.
use core_py.Base.{
  ◌≡◌, refl, sym, ◌∙◌, ap, subst, true, false, not, ◌&&◌, Bool-cases, Option-cases, some, some_inj,
  List, [], ◌∷◌, ◌++◌, append_assoc, inl, inr, arith, Result, ok, err, ok_inj, ◌>>=◌, bind-eq-ok,
  any_mono,
}
use core_py.Base.Text.{
  Str, codes, str_eq, str_eq_iff, is_empty, strip_prefix, strip_prefix_iff, starts_with, contains,
  join, lower, lower_char,
}
use core_py.Config.Value.{
  Value, null, bool, int, float, text, arr, dict, is_dict, Items, nil, cons, Fields, end, field,
  get_field,
}
use core_py.Config.Maps.{get_path}
use core_py.Config.Checks.{
  Exc, masked, mask_uri, to_text, mask_text, is_sensitive_path, mask_fields, mask_value, mask_items,
  mask_map,
}

-- Every leaf is the mask.
mutual
  pub Hidden : Value → Type 0
  Hidden (dict fs) = HiddenFields fs
  Hidden (arr xs) = HiddenItems xs
  Hidden (text t) = t ≡ masked
  Hidden _ = ⊥

  pub HiddenItems : Items → Type 0
  HiddenItems nil = Unit
  HiddenItems (cons v xs) = Hidden v × HiddenItems xs

  pub HiddenFields : Fields → Type 0
  HiddenFields end = Unit
  HiddenFields (field k v fs) = Hidden v × HiddenFields fs

strip_prefix-append_right :
    (p s x r : Str) → strip_prefix p s ≡ some r → strip_prefix p (s ++ x) ≡ some (r ++ x)
strip_prefix-append_right p s x r e =
    (strip_prefix_iff p (s ++ x) (r ++ x)).1
      (ap (λ t. t ++ x) ((strip_prefix_iff p s r).0 e) ∙ append_assoc p r x)

starts_with-append_right : (p s x : Str) → starts_with s p ≡ true → starts_with (s ++ x) p ≡ true
unfolding starts_with
starts_with-append_right p s x e = elim (Option-cases (strip_prefix p s)) [
  | inl none_there ↦ cc (rw (none_there, starts_with) at e)
  | inr (r, found) ↦ rw (strip_prefix-append_right p s x r found, starts_with)
]

-- A text that is in `s` is in every longer text.
contains-append : (p s x : Str) → contains p s ≡ true → contains p (s ++ x) ≡ true
unfolding contains starts_with
contains-append [] [] [] e = e
contains-append [] [] (d ∷ x) e = refl
contains-append (y ∷ p) [] x e = cc
contains-append p (c ∷ s) x e =
    ground (arith, starts_with-append_right p (c ∷ s) x, contains-append p s x)

lower-append : (s x : Str) → lower (s ++ x) ≡ lower s ++ lower x
unfolding lower
lower-append [] x = refl
lower-append (c ∷ s) x = ap (◌∷◌ (lower_char c)) (lower-append s x)

-- A path below a sensitive path is sensitive.
sensitive_word-append :
    (path x s : Str)
    → (not (is_empty s) && contains (lower s) (lower path)) ≡ true
    → (not (is_empty s) && contains (lower s) (lower (path ++ x))) ≡ true
sensitive_word-append path x s e =
    rw lower-append (ground (arith, contains-append (lower s) (lower path) (lower x)))

pub is_sensitive_path-append :
    (path x : Str) (sensitive : List Str)
    → is_sensitive_path path sensitive ≡ true
    → is_sensitive_path (path ++ x) sensitive ≡ true
unfolding is_sensitive_path
is_sensitive_path-append path x sensitive e =
    any_mono _ _ sensitive (λ s. sensitive_word-append path x s) e

mutual
  unfolding mask_fields Hidden

  mask_value-Hidden :
      (v : Value) (sensitive : List Str) (path : Str) (w : Value)
      → is_sensitive_path path sensitive ≡ true
      → mask_value sensitive path v ≡ ok w
      → Hidden w
  mask_value-Hidden (dict fs) sensitive path w h e =
      let (m, em, er) = bind-eq-ok (mask_fields sensitive (path ++ codes ".") fs) _ e in
      subst Hidden (ok_inj er) (
        mask_fields-Hidden fs sensitive (path ++ codes ".") m
          (is_sensitive_path-append path (codes ".") sensitive h) em)
  mask_value-Hidden (arr xs) sensitive path w h e =
      let (m, em, er) = bind-eq-ok (mask_items sensitive path xs) _ e in
      subst Hidden (ok_inj er) (mask_items-Hidden xs sensitive path m h em)
  mask_value-Hidden (text t) sensitive path w h e = subst Hidden (ok_inj (rw h at e)) refl
  mask_value-Hidden null sensitive path w h e = subst Hidden (ok_inj (rw h at e)) refl
  mask_value-Hidden (bool b) sensitive path w h e = subst Hidden (ok_inj (rw h at e)) refl
  mask_value-Hidden (int n) sensitive path w h e = subst Hidden (ok_inj (rw h at e)) refl
  mask_value-Hidden (float x) sensitive path w h e = subst Hidden (ok_inj (rw h at e)) refl

  mask_items-Hidden :
      (xs : Items) (sensitive : List Str) (path : Str) (m : Items)
      → is_sensitive_path path sensitive ≡ true
      → mask_items sensitive path xs ≡ ok m
      → HiddenItems m
  mask_items-Hidden nil sensitive path m h e = subst HiddenItems (ok_inj e) tt
  mask_items-Hidden (cons v xs) sensitive path m h e =
      let (w, ew, e1) = bind-eq-ok (mask_value sensitive path v) _ e in
      let (r, er, e2) = bind-eq-ok (mask_items sensitive path xs) _ e1 in
      subst HiddenItems (ok_inj e2)
        (mask_value-Hidden v sensitive path w h ew, mask_items-Hidden xs sensitive path r h er)

  mask_fields-Hidden :
      (fs : Fields) (sensitive : List Str) (prefix : Str) (m : Fields)
      → is_sensitive_path prefix sensitive ≡ true
      → mask_fields sensitive prefix fs ≡ ok m
      → HiddenFields m
  mask_fields-Hidden end sensitive prefix m h e = subst HiddenFields (ok_inj e) tt
  mask_fields-Hidden (field k v fs) sensitive prefix m h e =
      let (w, ew, e1) = bind-eq-ok (mask_value sensitive (prefix ++ k) v) _ e in
      let (r, er, e2) = bind-eq-ok (mask_fields sensitive prefix fs) _ e1 in
      subst HiddenFields (ok_inj e2) (
        mask_value-Hidden v sensitive (prefix ++ k) w
            (is_sensitive_path-append prefix k sensitive h) ew,
        mask_fields-Hidden fs sensitive prefix r h er,
      )

-- A key of the masked map, from the key of the map.
masked_field :
    (n : Str) (fs : Fields) (sensitive : List Str) (prefix : Str) (m : Fields) (w : Value)
    → mask_fields sensitive prefix fs ≡ ok m
    → get_field n m ≡ some w
    → (v : Value) × (mask_value sensitive (prefix ++ n) v ≡ ok w)
unfolding mask_fields get_field
masked_field n end sensitive prefix m w e found = cc (e, found)
masked_field n (field k v fs) sensitive prefix m w e found =
    let (x, ex, e1) = bind-eq-ok (mask_value sensitive (prefix ++ k) v) _ e in
    let (r, er, e2) = bind-eq-ok (mask_fields sensitive prefix fs) _ e1 in
    let found' = subst (λ y. get_field n y ≡ some w) (sym (ok_inj e2)) found in
    elim (Bool-cases (str_eq k n)) [
      | inl same ↦ (
        v,
        subst (λ y. mask_value sensitive (prefix ++ y) v ≡ ok w) ((str_eq_iff k n).0 same)
            (ex ∙ ap ok (some_inj (rw same at found'))),
      )
      | inr other ↦ masked_field n fs sensitive prefix r w er (rw other at found')
    ]

not_dict :
    (k : Str) (p : List Str) (b : Result Exc Value) (x w : Value)
    → (b ≡ ok x → is_dict x ≡ false)
    → b ≡ ok x
    → get_path x (k ∷ p) ≡ some w
    → Hidden w
unfolding get_path
not_dict k p b (dict fs) w none_there e found = cc (none_there e)
not_dict k p b _ w none_there e found = cc

mask_text_leaf : (r : Result Exc Str) (x : Value) → (r >>= to_text) ≡ ok x → is_dict x ≡ false
mask_text_leaf (ok t) x e = rw (← ok_inj e)
mask_text_leaf (err y) x e = cc

masked_below :
    (v : Value) (k : Str) (p : List Str) (sensitive : List Str) (path : Str) (x w : Value)
    → ((fs m : Fields)
        → mask_fields sensitive (path ++ codes ".") fs ≡ ok m
        → get_path (dict m) (k ∷ p) ≡ some w
        → Hidden w)
    → mask_value sensitive path v ≡ ok x
    → get_path x (k ∷ p) ≡ some w
    → Hidden w
unfolding mask_fields
masked_below (dict fs) k p sensitive path x w ih e found =
    let (m, em, er) = bind-eq-ok (mask_fields sensitive (path ++ codes ".") fs) _ e in
    ih fs m em (subst (λ y. get_path y (k ∷ p) ≡ some w) (sym (ok_inj er)) found)
masked_below (arr xs) k p sensitive path x w ih e found =
    let (m, em, er) = bind-eq-ok (mask_items sensitive path xs) _ e in
    not_dict k p (ok (arr m)) x w (λ q. rw (← ok_inj q)) er found
masked_below (text t) k p sensitive path x w ih e found =
    elim (Bool-cases (is_sensitive_path path sensitive)) [
      | inl on ↦ not_dict k p (ok (text masked)) x w (λ q. rw (← ok_inj q)) (rw on at e) found
      | inr off ↦
          not_dict k p (mask_text t) x w (λ q. mask_text_leaf (mask_uri t) x q) (rw off at e) found
    ]
masked_below v k p sensitive path x w ih e found =
    elim (Bool-cases (is_sensitive_path path sensitive)) [
      | inl on ↦ not_dict k p (ok (text masked)) x w (λ q. rw (← ok_inj q)) (rw on at e) found
      | inr off ↦ not_dict k p (ok v) x w (λ q. rw (← ok_inj q)) (rw off at e) found
    ]

masked_path :
    (p : List Str) (n : Str) (fs : Fields) (sensitive : List Str) (prefix : Str) (m : Fields)
    (w : Value)
    → mask_fields sensitive prefix fs ≡ ok m
    → get_path (dict m) (n ∷ p) ≡ some w
    → is_sensitive_path (prefix ++ join (codes ".") (n ∷ p)) sensitive ≡ true
    → Hidden w
unfolding get_path join
masked_path [] n fs sensitive prefix m w e found h = elim (Option-cases (get_field n m)) [
  | inl missing ↦ cc (rw missing at found)
  | inr (x, there) ↦
      let (v, ev) = masked_field n fs sensitive prefix m x e there in
      subst Hidden (some_inj (rw there at found))
        (mask_value-Hidden v sensitive (prefix ++ n) x h ev)
]
masked_path (k ∷ p) n fs sensitive prefix m w e found h = elim (Option-cases (get_field n m)) [
  | inl missing ↦ cc (rw missing at found)
  | inr (x, there) ↦
      let (v, ev) = masked_field n fs sensitive prefix m x e there in
      masked_below v k p sensitive (prefix ++ n) x w
        (λ fs' m' em found'.
          masked_path p k fs' sensitive ((prefix ++ n) ++ codes ".") m' w em found' (
            rw
              (
                append_assoc (prefix ++ n) (codes ".") (join (codes ".") (k ∷ p)),
                append_assoc prefix n (codes "." ++ join (codes ".") (k ∷ p)),
              )
              h))
        ev (rw there at found)
]

-- A summary shows nothing under a sensitive path: where a path of the masked map, joined by dots,
-- holds a sensitive word in any case, every leaf of the value there is the mask.
pub mask_map-Hidden :
    (fs m : Fields) (sensitive : List Str) (n : Str) (p : List Str) (w : Value)
    → mask_map fs sensitive ≡ ok m
    → get_path (dict m) (n ∷ p) ≡ some w
    → is_sensitive_path (join (codes ".") (n ∷ p)) sensitive ≡ true
    → Hidden w
unfolding mask_map
mask_map-Hidden fs m sensitive n p w e found h = masked_path p n fs sensitive [] m w e found h
