-- ===== src/Base/Text/Strip.antt =====
-- `strip`, `lower` and the characters that they change.
use Prim.Native.Nat.{ℕ, ◌+◌}
use mathlib.Core.Path.{◌≡◌, refl, ap, ◌∙◌}
use mathlib.Core.Logic.{inl, inr}
use mathlib.Core.Bool.{Bool, false, ◌&&◌, ◌||◌}
use mathlib.Core.List.{[], ◌∷◌, ◌++◌, map}
use core_py.Base.Tests.{◌==◌, leb, if◌then◌else◌, Bool-cases}
use core_py.Base.Text.Prefix.{Str}

-- `str.isspace` on one character
unfoldable pub is_space : ℕ → Bool
is_space c =
    leb 9 c && leb c 13
    || leb 28 c && leb c 32
    || c == 0x85
    || c == 0xa0
    || c == 0x1680
    || leb 0x2000 c && leb c 0x200a
    || c == 0x2028
    || c == 0x2029
    || c == 0x202f
    || c == 0x205f
    || c == 0x3000

unfoldable pub lower_char : ℕ → ℕ
lower_char c = if leb b'A' c && leb c b'Z' then c + 32 else c

unfoldable pub lower : Str → Str
unfolding lower_char
lower s = map lower_char s

unfoldable pub lstrip : Str → Str
unfolding is_space
lstrip [] = []
lstrip (c ∷ s) = if is_space c then lstrip s else c ∷ s

unfoldable pub rstrip_cons : ℕ → Str → Str
unfolding is_space
rstrip_cons c [] = if is_space c then [] else c ∷ []
rstrip_cons c (d ∷ s) = c ∷ d ∷ s

unfoldable pub rstrip : Str → Str
unfolding rstrip_cons
rstrip [] = []
rstrip (c ∷ s) = rstrip_cons c (rstrip s)

unfoldable pub strip : Str → Str
unfolding lstrip rstrip
strip s = rstrip (lstrip s)

-- The first, or the last, character is no space.
abbrev pub HeadOk : Str → Type 0
HeadOk [] = Unit
HeadOk (c ∷ s) = is_space c ≡ false

abbrev pub LastOk : Str → Type 0
LastOk [] = Unit
LastOk (c ∷ []) = is_space c ≡ false
LastOk (c ∷ d ∷ s) = LastOk (d ∷ s)

lstrip-HeadOk : (s : Str) → HeadOk (lstrip s)
unfolding lstrip
lstrip-HeadOk [] = tt
lstrip-HeadOk (c ∷ s) = elim (Bool-cases (is_space c)) [
  | inl e ↦ rw e (lstrip-HeadOk s)
  | inr e ↦ rw e e
]

rstrip_cons-LastOk : (c : ℕ) (s : Str) → LastOk s → LastOk (rstrip_cons c s)
unfolding rstrip_cons
rstrip_cons-LastOk c [] h = elim (Bool-cases (is_space c)) [ inl e ↦ rw e tt | inr e ↦ rw e e ]
rstrip_cons-LastOk c (d ∷ s) h = h

rstrip-LastOk : (s : Str) → LastOk (rstrip s)
unfolding rstrip
rstrip-LastOk [] = tt
rstrip-LastOk (c ∷ s) = rstrip_cons-LastOk c (rstrip s) (rstrip-LastOk s)

rstrip_cons-HeadOk : (c : ℕ) (s : Str) → is_space c ≡ false → HeadOk (rstrip_cons c s)
unfolding rstrip_cons
rstrip_cons-HeadOk c [] h = rw h h
rstrip_cons-HeadOk c (d ∷ s) h = h

rstrip-HeadOk : (s : Str) → HeadOk s → HeadOk (rstrip s)
unfolding rstrip
rstrip-HeadOk [] h = tt
rstrip-HeadOk (c ∷ s) h = rstrip_cons-HeadOk c (rstrip s) h

-- The result of `strip` begins and ends with no space.
pub strip_trims : (s : Str) → HeadOk (strip s) × LastOk (strip s)
unfolding strip
strip_trims s = (rstrip-HeadOk (lstrip s) (lstrip-HeadOk s), rstrip-LastOk (lstrip s))

rstrip-eq_self : (s : Str) → LastOk s → rstrip s ≡ s
unfolding rstrip
rstrip-eq_self [] h = refl
rstrip-eq_self (c ∷ []) h = rw h
rstrip-eq_self (c ∷ d ∷ s) h = ap (rstrip_cons c) (rstrip-eq_self (d ∷ s) h)

lstrip-eq_self : (s : Str) → HeadOk s → lstrip s ≡ s
unfolding lstrip
lstrip-eq_self [] h = refl
lstrip-eq_self (c ∷ s) h = rw h

-- A text with no space at its ends is left as it is.
pub strip-eq_self : (s : Str) → HeadOk s → LastOk s → strip s ≡ s
unfolding strip
strip-eq_self s h k = ap rstrip (lstrip-eq_self s h) ∙ rstrip-eq_self s k

pub LastOk-append_right : (p r : Str) → LastOk (p ++ r) → LastOk r
LastOk-append_right [] r h = h
LastOk-append_right (c ∷ []) [] h = tt
LastOk-append_right (c ∷ []) (d ∷ r) h = h
LastOk-append_right (c ∷ d ∷ p) r h = LastOk-append_right (d ∷ p) r h

pub LastOk-append : (p r : Str) → LastOk p → LastOk r → LastOk (p ++ r)
LastOk-append [] r h k = k
LastOk-append (c ∷ []) [] h k = h
LastOk-append (c ∷ []) (d ∷ r) h k = k
LastOk-append (c ∷ d ∷ p) r h k = LastOk-append (d ∷ p) r h k
