-- ===== src/Text/Number.antt =====
-- `int(text)` of Python: white space around, a sign, digits with single underscores between them.
use backup_center_ajust_cons.Base.{
  ℕ, ◌+◌, ◌-◌, ◌*◌, Bool, true, false, ◌&&◌, ◌||◌, [], ◌∷◌, Option, none, some, leb, ◌==◌,
  if◌then◌else◌,
}
use backup_center_ajust_cons.Base.Int.{ℤ, pos, negsuc}
use backup_center_ajust_cons.Text.{Text, strip}
use mathlib.Core.Option

abbrev pub is_digit : ℕ → Bool
is_digit c = leb 48 c && leb c 57

-- The digits left, whether the last character was a digit, and the value so far.
unfoldable pub parse_digits : Text → Bool → ℕ → Option ℕ
parse_digits [] true acc = some acc
parse_digits [] false acc = none
parse_digits (c ∷ s) prev acc =
    let rest = parse_digits s (is_digit c) (if is_digit c then 10 * acc + (c - 48) else acc) in
    if is_digit c || (c == 95 && prev) then rest else none

-- `negate 0` is 0.
abbrev pub negate : ℕ → ℤ
negate n = if n == 0 then pos 0 else negsuc (n - 1)

unfoldable pub parse_signed : Text → Option ℤ
unfolding parse_digits
parse_signed [] = none
parse_signed (c ∷ s) =
    if c == 45
    then Option.map negate (parse_digits s false 0)
    else if c == 43
    then Option.map pos (parse_digits s false 0)
    else Option.map pos (parse_digits (c ∷ s) false 0)

unfoldable pub parse_int : Text → Option ℤ
unfolding parse_signed strip
parse_int s = parse_signed (strip s)
