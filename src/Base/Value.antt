-- ===== src/Base/Value.antt =====
-- Values as `json.loads` makes them, seen through `isinstance`. A float is kept as a decimal
-- fraction, `real m k` for m / 10 ^ k; arrays and objects are opaque, since no reader looks inside.
use freebsd_laboratory.Base.Text.{Text, eq_text, eq_text_iff}
use freebsd_laboratory.Base.Int.{ℤ, pos, negsuc, eq_ℤ, eq_ℤ_iff}
use Prim.Native.Nat.{ℕ, suc, ◌*◌, ◌^◌, ◌-◌}
use mathlib.Core.Path.{◌≡◌, refl}
use mathlib.Core.Bool.{Bool, true, false}
use mathlib.Core.Option.{Option, none, some}

pub data Value : Type 0 where
  null : Value
  bool : Bool → Value
  int : ℤ → Value
  real : ℤ → ℕ → Value
  str : Text → Value
  array : Value
  object : Value

-- isinstance(v, int) and not isinstance(v, bool)
abbrev pub int? : Value → Option ℤ
int? (int i) = some i
int? _ = none

-- isinstance(v, str)
abbrev pub str? : Value → Option Text
str? (str s) = some s
str? _ = none

-- isinstance(v, bool)
abbrev pub bool? : Value → Option Bool
bool? (bool b) = some b
bool? _ = none

scaled : ℤ → ℕ → ℤ
scaled (pos n) k = pos (n * 10 ^ k)
scaled (negsuc n) k = negsuc (suc n * 10 ^ k - 1)

-- v == i for a Python int i: True equals 1, False equals 0, and 2.0 equals 2.
unfoldable pub eq_int : Value → ℤ → Bool
unfolding scaled
eq_int (int j) i = eq_ℤ j i
eq_int (bool true) i = eq_ℤ (pos 1) i
eq_int (bool false) i = eq_ℤ (pos 0) i
eq_int (real m k) i = eq_ℤ m (scaled i k)
eq_int _ i = false

-- v == s for a Python str s
unfoldable pub eq_str : Value → Text → Bool
eq_str (str t) s = eq_text t s
eq_str _ s = false

pub eq_int-int : (j i : ℤ) → eq_int (int j) i ≡ true → j ≡ i
unfolding eq_int
eq_int-int j i h = (eq_ℤ_iff j i).0 h

pub eq_int_refl : (i : ℤ) → eq_int (int i) i ≡ true
unfolding eq_int
eq_int_refl i = (eq_ℤ_iff i i).1 refl

pub eq_str_refl : (s : Text) → eq_str (str s) s ≡ true
unfolding eq_str
eq_str_refl s = (eq_text_iff s s).1 refl
