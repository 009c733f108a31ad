-- ===== src/Base/Shell.antt =====
-- shlex.quote
use freebsd_laboratory.Base.Tests.{◌==◌, if◌then◌else◌}
use freebsd_laboratory.Base.Text.{Text, is_lower, is_upper, is_digit}
use freebsd_laboratory.Base.Lists.{all, any, is_nil}
use Prim.Native.Nat.{ℕ}
use mathlib.Core.Bool.{Bool, ◌||◌}
use mathlib.Core.List.{[], ◌∷◌, ◌++◌}

-- [\w@%+=:,./-] over ASCII
is_safe : ℕ → Bool
is_safe c =
    is_lower c
    || is_upper c
    || is_digit c
    || any (λ d. c == d) (95 ∷ 64 ∷ 37 ∷ 43 ∷ 61 ∷ 58 ∷ 44 ∷ 46 ∷ 47 ∷ 45 ∷ [])

-- Each single quote becomes '"'"'.
escape_quotes : Text → Text
escape_quotes [] = []
escape_quotes (c ∷ s) =
    if c == 39 then 39 ∷ 34 ∷ 39 ∷ 34 ∷ 39 ∷ escape_quotes s else c ∷ escape_quotes s

unfoldable pub shell_quote : Text → Text
unfolding is_safe escape_quotes is_lower is_upper is_digit
shell_quote s =
    if is_nil s
    then 39 ∷ 39 ∷ []
    else if all is_safe s
    then s
    else 39 ∷ (escape_quotes s ++ 39 ∷ [])
