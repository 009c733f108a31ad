-- ===== src/Base/Decimal.antt =====
-- Decimal numerals: what `str(n)` and an f-string print, and the value of a run of digits.
use freebsd_laboratory.Base.Tests.{ltb, if◌then◌else◌}
use freebsd_laboratory.Base.Lists.{all}
use freebsd_laboratory.Base.Text.{Text, is_digit}
use Prim.Native.Nat.{ℕ, zero, suc, ◌+◌, ◌-◌, ◌*◌, ◌/◌, ◌%◌, ◌<◌}
use mathlib.Core.Path.{◌≡◌, refl}
use mathlib.Core.Logic.{◌≢◌}
use mathlib.Core.Bool.{true}
use mathlib.Core.List.{[], ◌∷◌}
use native.Mathlib.Omega.{arith}

decimal_onto : ℕ → ℕ → Text → Text
decimal_onto zero n acc = acc
decimal_onto (suc f) n acc =
    let rest = decimal_onto f (n / 10) ((48 + n % 10) ∷ acc) in
    if ltb n 10 then (48 + n) ∷ acc else rest

-- The fuel is one more than the number: each round divides it by ten.
unfoldable pub decimal : ℕ → Text
unfolding decimal_onto
decimal n = decimal_onto (suc n) n []

unfoldable pub value_from : ℕ → Text → ℕ
value_from v [] = v
value_from v (c ∷ s) = value_from (v * 10 + (c - 48)) s

value_from-decimal_onto :
    (f n : ℕ) (acc : Text) → n < f → value_from 0 (decimal_onto f n acc) ≡ value_from n acc
unfolding decimal_onto value_from
value_from-decimal_onto zero n acc h = absurd (omega arith)
value_from-decimal_onto (suc f) n acc h =
    ground (arith, value_from-decimal_onto f (n / 10) ((48 + n % 10) ∷ acc))

-- The digits that are printed have the number for their value.
pub value_from-decimal : (n : ℕ) → value_from 0 (decimal n) ≡ n
unfolding decimal value_from
value_from-decimal n = value_from-decimal_onto (suc n) n [] (omega arith)

all-decimal_onto :
    (f n : ℕ) (acc : Text) → all is_digit acc ≡ true → all is_digit (decimal_onto f n acc) ≡ true
unfolding decimal_onto is_digit
all-decimal_onto zero n acc h = h
all-decimal_onto (suc f) n acc h = ground (arith, all-decimal_onto f (n / 10) ((48 + n % 10) ∷ acc))

pub all-decimal : (n : ℕ) → all is_digit (decimal n) ≡ true
unfolding decimal
all-decimal n = all-decimal_onto (suc n) n [] refl

decimal_onto-ne-nil : (f n : ℕ) (c : ℕ) (acc : Text) → decimal_onto f n (c ∷ acc) ≢ []
unfolding decimal_onto
decimal_onto-ne-nil zero n c acc = ground arith
decimal_onto-ne-nil (suc f) n c acc =
    ground (arith, decimal_onto-ne-nil f (n / 10) (48 + n % 10) (c ∷ acc))

pub decimal-ne-nil : (n : ℕ) → decimal n ≢ []
unfolding decimal decimal_onto
decimal-ne-nil n = ground (arith, decimal_onto-ne-nil n (n / 10) (48 + n % 10) [])
