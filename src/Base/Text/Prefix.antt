-- ===== src/Base/Text/Prefix.antt =====
-- Equality, prefixes and splits of texts.
use Prim.Native.Nat.{ℕ}
use Prim.Native.Char.{code}
use Prim.Native.String.{String}
use mathlib.Core.Path.{◌≡◌, refl, ap}
use mathlib.Core.Logic.{◌↔◌, inl, inr}
use mathlib.Core.Bool.{Bool, true, false, ◌&&◌, ◌||◌}
use mathlib.Core.Option.{Option, none, some}
use mathlib.Core.List.{List, [], ◌∷◌, ◌++◌}
use native.Mathlib.Omega.{arith}
use core_py.Base.Lists.{any}
use core_py.Base.Tests.{Bool-cases, ◌==◌, if◌then◌else◌}

abbrev pub Str : Type 0
Str = List ℕ

-- A literal.
abbrev pub codes : String → Str
codes String.[] = []
codes (String.◌∷◌ c s) = code c ∷ codes s

unfoldable pub str_eq : Str → Str → Bool
str_eq [] [] = true
str_eq (x ∷ xs) (y ∷ ys) = x == y && str_eq xs ys
str_eq _ _ = false

pub str_eq_iff : (a b : Str) → (str_eq a b ≡ true) ↔ (a ≡ b)
unfolding str_eq
str_eq_iff (x ∷ a) (y ∷ b) = ground (arith, str_eq_iff a b)
str_eq_iff _ _ = ground arith

pub str_eq_refl : (a : Str) → str_eq a a ≡ true
str_eq_refl a = (str_eq_iff a a).1 refl

-- `not s`
abbrev pub is_empty : Str → Bool
is_empty [] = true
is_empty (_ ∷ _) = false

-- `a or b` on texts
abbrev pub or_else : Str → Str → Str
or_else [] b = b
or_else (c ∷ s) b = c ∷ s

pub or_else_twice : (a b : Str) → or_else (or_else a b) b ≡ or_else a b
or_else_twice [] [] = refl
or_else_twice [] (c ∷ b) = refl
or_else_twice (c ∷ a) b = refl

-- What follows the prefix `p` in `s`, if `s` starts with it.
unfoldable pub strip_prefix : Str → Str → Option Str
strip_prefix [] s = some s
strip_prefix (x ∷ p) [] = none
strip_prefix (x ∷ p) (c ∷ s) = if x == c then strip_prefix p s else none

-- s.startswith(p)
unfoldable pub starts_with : Str → Str → Bool
unfolding strip_prefix
starts_with s p = elim (strip_prefix p s) [ none ↦ false | some _ ↦ true ]

-- s.removeprefix(p)
unfoldable pub remove_prefix : Str → Str → Str
unfolding strip_prefix
remove_prefix s p = elim (strip_prefix p s) [ none ↦ s | some r ↦ r ]

pub strip_prefix_iff : (p s r : Str) → (strip_prefix p s ≡ some r) ↔ (s ≡ p ++ r)
unfolding strip_prefix
strip_prefix_iff [] s r = ground arith
strip_prefix_iff (x ∷ p) [] r = ground arith
strip_prefix_iff (x ∷ p) (c ∷ s) r = ground (arith, strip_prefix_iff p s r)

pub strip_prefix-append : (p s : Str) → strip_prefix p (p ++ s) ≡ some s
strip_prefix-append p s = (strip_prefix_iff p (p ++ s) s).1 refl

pub starts_with-append : (p s : Str) → starts_with (p ++ s) p ≡ true
unfolding starts_with
starts_with-append p s = rw (strip_prefix-append p s, starts_with)

pub starts_with-eq-true :
    (s p : Str) → starts_with s p ≡ true → (r : Str) × (s ≡ p ++ r) × (remove_prefix s p ≡ r)
unfolding starts_with remove_prefix
starts_with-eq-true s p h = go (strip_prefix p s) refl
  where
    go :
        (o : Option Str) → strip_prefix p s ≡ o → (r : Str) × (s ≡ p ++ r) × (remove_prefix s p ≡ r)
    go none e = cc (rw (e, starts_with) at h)
    go (some r) e = (r, (strip_prefix_iff p s r).0 e, rw (e, remove_prefix))

-- What `remove_prefix` leaves is an end of the text.
pub remove_prefix-suffix : (s p : Str) → (u : Str) × (s ≡ u ++ remove_prefix s p)
unfolding remove_prefix
remove_prefix-suffix s p = go (strip_prefix p s) refl
  where
    go : (o : Option Str) → strip_prefix p s ≡ o → (u : Str) × (s ≡ u ++ remove_prefix s p)
    go none e = ([], rw (e, remove_prefix))
    go (some r) e = (p, rw (e, remove_prefix) ((strip_prefix_iff p s r).0 e))

-- `sub in s` for a text `sub`
unfoldable pub contains : Str → Str → Bool
unfolding starts_with
contains sub [] = starts_with [] sub
contains sub (c ∷ s) = starts_with (c ∷ s) sub || contains sub s

-- s.partition(sep) for a separator of one character: before, found, after
unfoldable pub partition : ℕ → Str → Str × Bool × Str
partition sep [] = ([], false, [])
partition sep (c ∷ s) =
    let (before, found, after) = partition sep s in
    if c == sep then ([], true, s) else (c ∷ before, found, after)

-- s.split(sep) for a separator of one character
abbrev pub split_cons : ℕ → List Str → List Str
split_cons c [] = (c ∷ []) ∷ []
split_cons c (w ∷ ws) = (c ∷ w) ∷ ws

unfoldable pub split : ℕ → Str → List Str
split sep [] = [] ∷ []
split sep (c ∷ s) = let rest = split sep s in if c == sep then [] ∷ rest else split_cons c rest

-- sep.join(parts)
unfoldable pub join : Str → List Str → Str
join sep [] = []
join sep (w ∷ []) = w
join sep (w ∷ v ∷ ws) = w ++ (sep ++ join sep (v ∷ ws))

-- A text that was found parted stands round the separator.
pub partition_parts :
    (sep : ℕ) (s : Str)
    → (partition sep s).1 ≡ true
    → s ≡ (partition sep s).0 ++ sep ∷ (partition sep s).2
unfolding partition
partition_parts sep [] h = cc
partition_parts sep (c ∷ s) h = elim (Bool-cases (c == sep)) [
  | inl e ↦ let same : c ≡ sep = ground arith in rw e (ap (λ c. c ∷ s) same)
  | inr e ↦ rw e (ap (λ s. c ∷ s) (partition_parts sep s (rw e at h)))
]

pub partition-append :
    (sep : ℕ) (a b : Str)
    → any (λ c. c == sep) a ≡ false
    → partition sep (a ++ sep ∷ b) ≡ (a, true, b)
unfolding partition
partition-append sep [] b h = let same : (sep == sep) ≡ true = ground arith in rw same
partition-append sep (c ∷ a) b h = elim (Bool-cases (c == sep)) [
  | inl e ↦ absurd (clash (rw e at h))
  | inr e ↦ rw (e, partition-append sep a b (rw e at h))
]
  where
    clash : true ≡ false → ⊥
    clash e = cc
