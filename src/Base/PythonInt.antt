-- ===== src/Base/PythonInt.antt =====
-- `int(s)` of a text: white space around, a sign, ASCII digits with single underscores between them.
use freebsd_laboratory.Base.Tests.{◌==◌, if◌then◌else◌}
use freebsd_laboratory.Base.Text.{Text, is_digit}
use freebsd_laboratory.Base.Int.{ℤ, pos, negsuc}
use freebsd_laboratory.Base.Lists.{all}
use freebsd_laboratory.Base.Decimal.{decimal, value_from, value_from-decimal, all-decimal}
use freebsd_laboratory.Base.Split.{strip}
use Prim.Native.Nat.{ℕ, zero, suc, ◌+◌, ◌-◌, ◌*◌}
use mathlib.Core.Path.{◌≡◌, refl, ap}
use mathlib.Core.Bool.{Bool, true, false, ◌&&◌}
use mathlib.Core.Option.{Option, none, some}
use mathlib.Core.List.{[], ◌∷◌}
use native.Mathlib.Omega.{arith}

-- `after_digit` says that the character before was a digit.
unfoldable pub digits_from : Bool → ℕ → Text → Option ℕ
digits_from after_digit v [] = if after_digit then some v else none
digits_from after_digit v (c ∷ s) =
    let digit = digits_from true (v * 10 + (c - 48)) s in
    let gap = digits_from false v s in
    if is_digit c then digit else if c == b'_' && after_digit then gap else none

negate : Option ℕ → Option ℤ
negate none = none
negate (some zero) = some (pos 0)
negate (some (suc n)) = some (negsuc n)

positive : Option ℕ → Option ℤ
positive none = none
positive (some n) = some (pos n)

signed : Text → Option ℤ
signed [] = none
signed (c ∷ s) =
    if c == b'-'
    then negate (digits_from false 0 s)
    else if c == b'+'
    then positive (digits_from false 0 s)
    else positive (digits_from false 0 (c ∷ s))

-- int(s), or `none` where it raises ValueError
unfoldable pub int_of : Text → Option ℤ
unfolding signed negate positive digits_from is_digit strip
int_of s = signed (strip s)

digits_from-all :
    (b : Bool) (v : ℕ) (s : Text)
    → all is_digit s ≡ true
    → digits_from true v s ≡ some (value_from v s)
unfolding digits_from value_from
digits_from-all b v [] h = refl
digits_from-all b v (c ∷ s) h = ground (arith, digits_from-all b (v * 10 + (c - 48)) s)

-- A number reads back from the digits that print it.
pub digits_from-decimal :
    (n : ℕ) (c : ℕ) (s : Text) → decimal n ≡ c ∷ s → digits_from false 0 (c ∷ s) ≡ some n
unfolding digits_from
digits_from-decimal n c s e = ground (
  arith,
  digits_from-all true (0 * 10 + (c - 48)) s,
  ap (all is_digit) e,
  all-decimal n,
  value_from-decimal n,
  ap (value_from 0) e,
  step,
)
  where
    step : value_from 0 (c ∷ s) ≡ value_from (0 * 10 + (c - 48)) s
    step = unfold value_from in refl
