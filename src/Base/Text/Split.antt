-- ===== src/Base/Text/Split.antt =====
-- Splits at a separator of several characters.
use core_py.Base.Tests.{if◌then◌else◌, Option-cases, Bool-cases}
use core_py.Base.Lists.{length}
use core_py.Base.Text.Prefix.{
  Str, strip_prefix, strip_prefix_iff, starts_with, contains, split_cons,
}
use Prim.Native.Nat.{ℕ, zero, suc, ◌-◌}
use mathlib.Core.Path.{◌≡◌, refl}
use mathlib.Core.Logic.{inl, inr}
use mathlib.Core.Bool.{true, false}
use mathlib.Core.Option.{Option, none, some}
use mathlib.Core.List.{List, [], ◌∷◌, ◌++◌}
use native.Mathlib.Omega.{arith}

-- `skip` characters of a separator are still to be passed over.
unfoldable pub split_from : Str → ℕ → Str → List Str
split_from sep skip [] = [] ∷ []
split_from sep (suc skip) (c ∷ s) = split_from sep skip s
split_from sep zero (c ∷ s) =
    let rest = split_from sep (if starts_with (c ∷ s) sep then length sep - 1 else 0) s in
    if starts_with (c ∷ s) sep then [] ∷ rest else split_cons c rest

-- s.split(sep), for a separator that is not empty
unfoldable pub split_str : Str → Str → List Str
split_str sep s = split_from sep 0 s

-- The two parts at the first character: the separator was found here, or further on, or nowhere.
abbrev pub split_here : ℕ → Option Str → Option (Str × Str) → Option (Str × Str)
split_here c (some after) rest = some ([], after)
split_here c none none = none
split_here c none (some (before, after)) = some (c ∷ before, after)

-- s.split(sep, 1) where it gives two parts
unfoldable pub split_once : Str → Str → Option (Str × Str)
split_once sep [] = none
split_once sep (c ∷ s) = let rest = split_once sep s in split_here c (strip_prefix sep (c ∷ s)) rest

contains_tail :
    (sep : Str) (c : ℕ) (s : Str) → contains sep (c ∷ s) ≡ false → contains sep s ≡ false
unfolding contains
contains_tail sep c s h = ground arith

-- Where the separator is not in the text there is one part.
pub split_once-none : (sep s : Str) → contains sep s ≡ false → split_once sep s ≡ none
unfolding contains split_once
split_once-none sep [] h = refl
split_once-none sep (c ∷ s) h = elim (Option-cases (strip_prefix sep (c ∷ s))) [
  | inl e ↦ rw (e, split_once-none sep s (contains_tail sep c s h))
  | inr (r, e) ↦ cc (rw (e, starts_with) at h)
]

-- The two parts stand round the separator.
pub split_once-some : (sep s a b : Str) → split_once sep s ≡ some (a, b) → s ≡ a ++ (sep ++ b)
unfolding split_once
split_once-some sep [] a b h = cc
split_once-some sep (c ∷ s) a b h =
    found_here (strip_prefix sep (c ∷ s)) (split_once sep s)
      (λ r e. (strip_prefix_iff sep (c ∷ s) r).0 e) (λ x y e. split_once-some sep s x y e) h
  where
    found_here :
        (o : Option Str) (rest : Option (Str × Str))
        → ((r : Str) → o ≡ some r → c ∷ s ≡ sep ++ r)
        → ((x y : Str) → rest ≡ some (x, y) → s ≡ x ++ (sep ++ y))
        → split_here c o rest ≡ some (a, b)
        → c ∷ s ≡ a ++ (sep ++ b)
    found_here (some r) rest k ih e = cc (k r refl, e)
    found_here none none k ih e = cc
    found_here none (some (x, y)) k ih e = cc (ih x y refl, e)

-- Two parts mean that the separator is there.
pub split_once-contains :
    (sep s : Str) (parts : Str × Str) → split_once sep s ≡ some parts → contains sep s ≡ true
split_once-contains sep s parts h = elim (Bool-cases (contains sep s)) [
  | inl there ↦ there
  | inr nowhere ↦ cc (split_once-none sep s nowhere, h)
]
