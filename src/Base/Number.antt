-- ===== src/Base/Number.antt =====
-- The built-in `int` on a text of ASCII characters: spaces around, a sign, and decimal digits with
-- single underscores between them. More than 4300 digits are a ValueError, as by default.
use Prim.Native.Nat.{ℕ, ◌+◌, ◌-◌, ◌*◌}
use mathlib.Core.Bool.{Bool, true, false, ◌&&◌, ◌||◌}
use mathlib.Core.Option.{Option, none, some}
use mathlib.Core.List.{[], ◌∷◌}
use core_py.Base.Tests.{◌==◌, leb, if◌then◌else◌}
use core_py.Base.Text.{Str, strip}
use core_py.Base.Int.{ℤ, pos, sub_ℕ}

abbrev pub is_digit : ℕ → Bool
is_digit c = leb b'0' c && leb c b'9'

abbrev pub max_str_digits : ℕ
max_str_digits = 4300

-- `after` says that the last character was a digit, `count` how many digits were read.
unfoldable pub int_digits : ℕ → ℕ → Bool → Str → Option ℕ
int_digits acc count after [] = if after && leb count max_str_digits then some acc else none
int_digits acc count after (c ∷ s) =
    let rest =
      int_digits (if is_digit c then acc * 10 + (c - b'0') else acc)
        (if is_digit c then count + 1 else count) (is_digit c) s in
    if is_digit c || (c == b'_' && after) then rest else none

abbrev signed : Bool → Option ℕ → Option ℤ
signed negative none = none
signed negative (some n) = some (if negative then sub_ℕ 0 n else pos n)

unfoldable pub int_signed : Str → Option ℤ
int_signed [] = none
int_signed (c ∷ s) =
    if c == b'-'
    then signed true (int_digits 0 0 false s)
    else if c == b'+'
    then signed false (int_digits 0 0 false s)
    else signed false (int_digits 0 0 false (c ∷ s))

unfoldable pub py_int : Str → Option ℤ
py_int s = int_signed (strip s)
