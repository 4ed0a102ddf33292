-- ===== src/Context/Keys/Normal.antt =====
-- Normal keys: `normalize_key` gives them and leaves them alone, and so do the functions that put
-- a prefix in front.
use core_py.Base.{
  ℕ, ◌≡◌, refl, ap, ◌∙◌, subst, true, [], ◌∷◌, ◌++◌, map, inl, inr, arith, if◌then◌else◌,
  Bool-cases, All, All-append, All-append_right,
}
use core_py.Base.Text.{
  Str, lower_char, is_space, strip, lower, starts_with, remove_prefix, HeadOk, LastOk, strip_trims,
  strip-eq_self, LastOk-append, LastOk-append_right, starts_with-append, remove_prefix-suffix,
}
use core_py.Context.Keys.{
  pass_prefix, direct_prefix, value_prefix, dash_char, normalize_key, fixed_key, fixed_key_direct,
}

-- One character of a normal key.
abbrev norm_char : ℕ → ℕ
norm_char c = dash_char (lower_char c)

norm_char_idem : (c : ℕ) → norm_char (norm_char c) ≡ norm_char c
unfolding dash_char lower_char
norm_char_idem c = ground arith

is_space-norm_char : (c : ℕ) → is_space (norm_char c) ≡ is_space c
unfolding is_space dash_char lower_char
is_space-norm_char c = ground arith

pub record IsNormal (k : Str) : Type 0 where
  head : HeadOk k
  last : LastOk k
  chars : All (λ c. norm_char c ≡ c) k

HeadOk-norm : (s : Str) → HeadOk s → HeadOk (map norm_char s)
HeadOk-norm [] h = tt
HeadOk-norm (c ∷ s) h = is_space-norm_char c ∙ h

LastOk-norm : (s : Str) → LastOk s → LastOk (map norm_char s)
LastOk-norm [] h = tt
LastOk-norm (c ∷ []) h = is_space-norm_char c ∙ h
LastOk-norm (c ∷ d ∷ s) h = LastOk-norm (d ∷ s) h

All-norm : (s : Str) → All (λ c. norm_char c ≡ c) (map norm_char s)
All-norm [] = tt
All-norm (c ∷ s) = (norm_char_idem c, All-norm s)

map_norm-eq_self : (s : Str) → All (λ c. norm_char c ≡ c) s → map norm_char s ≡ s
map_norm-eq_self [] h = refl
map_norm-eq_self (c ∷ s) h = cc (h.0, map_norm-eq_self s h.1)

normalize_key-eq-map : (s : Str) → map dash_char (lower s) ≡ map norm_char s
unfolding lower
normalize_key-eq-map [] = refl
normalize_key-eq-map (c ∷ s) = ap (◌∷◌ (norm_char c)) (normalize_key-eq-map s)

normalize_key-IsNormal : (k : Str) → IsNormal (normalize_key k)
unfolding normalize_key
normalize_key-IsNormal k =
    let trimmed = strip_trims k in
    rw normalize_key-eq-map (record {
      head = HeadOk-norm (strip k) trimmed.0;
      last = LastOk-norm (strip k) trimmed.1;
      chars = All-norm (strip k);
    })

normalize_key-eq_self : (k : Str) → IsNormal k → normalize_key k ≡ k
unfolding normalize_key
normalize_key-eq_self k h =
    rw (strip-eq_self k h.head h.last) (normalize_key-eq-map k ∙ map_norm-eq_self k h.chars)

-- The three functions differ in the prefix.
pub fixed_with : Str → Str → Str
fixed_with p n = if starts_with n p then n else p ++ remove_prefix n value_prefix

pub fixed_with-prefix : (p n : Str) → starts_with (fixed_with p n) p ≡ true
unfolding fixed_with
fixed_with-prefix p n = elim (Bool-cases (starts_with n p)) [
  | inl e ↦ rw e e
  | inr e ↦ rw e (starts_with-append p (remove_prefix n value_prefix))
]

fixed_with-eq_self : (p n : Str) → starts_with n p ≡ true → fixed_with p n ≡ n
unfolding fixed_with
fixed_with-eq_self p n h = rw h

append-IsNormal :
    (c : ℕ) (p u r : Str) → IsNormal (c ∷ p) → IsNormal (u ++ r) → IsNormal ((c ∷ p) ++ r)
append-IsNormal c p u r h k = record {
  head = h.head;
  last = LastOk-append (c ∷ p) r h.last (LastOk-append_right u r k.last);
  chars =
      All-append (λ c. norm_char c ≡ c) (c ∷ p) r h.chars
        (All-append_right (λ c. norm_char c ≡ c) u r k.chars);
}

fixed_with-IsNormal :
    (c : ℕ) (p n : Str) → IsNormal (c ∷ p) → IsNormal n → IsNormal (fixed_with (c ∷ p) n)
unfolding fixed_with
fixed_with-IsNormal c p n h k = elim (Bool-cases (starts_with n (c ∷ p))) [
  | inl e ↦ rw e k
  | inr e ↦
      let (u, split) = remove_prefix-suffix n value_prefix in
      rw e (append-IsNormal c p u (remove_prefix n value_prefix) h (subst IsNormal split k))
]

-- A normalized prefix makes the function idempotent.
pub fixed_with_idem :
    (c : ℕ) (p k : Str)
    → IsNormal (c ∷ p)
    → fixed_with (c ∷ p) (normalize_key (fixed_with (c ∷ p) (normalize_key k)))
      ≡ fixed_with (c ∷ p) (normalize_key k)
fixed_with_idem c p k h =
    rw
      (normalize_key-eq_self (fixed_with (c ∷ p) (normalize_key k))
        (fixed_with-IsNormal c p (normalize_key k) h (normalize_key-IsNormal k)))
      (fixed_with-eq_self (c ∷ p) (fixed_with (c ∷ p) (normalize_key k))
        (fixed_with-prefix (c ∷ p) (normalize_key k)))

pub pass_prefix-IsNormal : IsNormal pass_prefix
unfolding is_space dash_char lower_char
pass_prefix-IsNormal = record { head = refl; last = refl; chars = omega arith }

pub direct_prefix-IsNormal : IsNormal direct_prefix
unfolding is_space dash_char lower_char
direct_prefix-IsNormal = record { head = refl; last = refl; chars = omega arith }

pub fixed_key-eq : (k : Str) → fixed_key k ≡ fixed_with pass_prefix (normalize_key k)
unfolding fixed_key fixed_with
fixed_key-eq k = refl

pub fixed_key_direct-eq :
    (k : Str) → fixed_key_direct k ≡ fixed_with direct_prefix (normalize_key k)
unfolding fixed_key_direct fixed_with
fixed_key_direct-eq k = refl
