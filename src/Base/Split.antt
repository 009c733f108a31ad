-- ===== src/Base/Split.antt =====
-- `str.split`: at one character, and at runs of white space; `str.strip`.
use freebsd_laboratory.Base.Tests.{◌==◌, leb, if◌then◌else◌}
use freebsd_laboratory.Base.Lists.{all, all-reverse}
use freebsd_laboratory.Base.Text.{Text}
use Prim.Native.Nat.{ℕ}
use mathlib.Core.Path.{◌≡◌, refl}
use mathlib.Core.Bool.{Bool, true, ◌&&◌, ◌||◌, not}
use mathlib.Core.Logic.{◌≢◌}
use mathlib.Core.List.{List, [], ◌∷◌, ◌++◌, reverse, reverse-append, reverse-reverse}
use native.Mathlib.Omega.{arith}

-- One more character in the first piece.
abbrev pub into_first : ℕ → List Text → List Text
into_first c [] = (c ∷ []) ∷ []
into_first c (w ∷ ws) = (c ∷ w) ∷ ws

-- s.split(d) for a one-character text d
unfoldable pub split_at : ℕ → Text → List Text
split_at d [] = [] ∷ []
split_at d (c ∷ s) = let rest = split_at d s in if c == d then [] ∷ rest else into_first c rest

pub split_at_plain : (d : ℕ) (w : Text) → all (λ c. not (c == d)) w ≡ true → split_at d w ≡ w ∷ []
unfolding split_at
split_at_plain d [] h = refl
split_at_plain d (c ∷ w) h = ground (arith, split_at_plain d w)

pub split_at_append :
    (d : ℕ) (w s : Text)
    → all (λ c. not (c == d)) w ≡ true
    → split_at d (w ++ (d ∷ s)) ≡ w ∷ split_at d s
unfolding split_at
split_at_append d [] s h = ground arith
split_at_append d (c ∷ w) s h = ground (arith, split_at_append d w s)

-- str.isspace of one character
unfoldable pub is_space : ℕ → Bool
is_space c =
    (leb 9 c && leb c 13)
    || (leb 28 c && leb c 32)
    || c == 0x85
    || c == 0xa0
    || c == 0x1680
    || (leb 0x2000 c && leb c 0x200a)
    || c == 0x2028
    || c == 0x2029
    || c == 0x202f
    || c == 0x205f
    || c == 0x3000

abbrev pub flush : Text → List Text → List Text
flush [] ws = ws
flush (c ∷ cur) ws = (c ∷ cur) ∷ ws

-- The pieces of s.split(), where `cur` is the piece that is open.
unfoldable pub words_from : Text → Text → List Text
unfolding is_space
words_from cur [] = flush cur []
words_from cur (c ∷ s) =
    let closed = flush cur (words_from [] s) in
    let longer = words_from (cur ++ c ∷ []) s in if is_space c then closed else longer

-- s.split()
abbrev pub words : Text → List Text
words s = words_from [] s

-- s.lstrip()
unfoldable pub lstrip : Text → Text
lstrip [] = []
lstrip (c ∷ s) = let rest = lstrip s in if is_space c then rest else c ∷ s

-- s.strip()
unfoldable pub strip : Text → Text
unfolding lstrip is_space
strip s = reverse (lstrip (reverse (lstrip s)))

-- s.lstrip(d) for a one-character text d
unfoldable pub drop_leading : ℕ → Text → Text
drop_leading d [] = []
drop_leading d (c ∷ s) = let rest = drop_leading d s in if c == d then rest else c ∷ s

-- s.rstrip(d)
unfoldable pub rstrip : ℕ → Text → Text
unfolding drop_leading
rstrip d s = reverse (drop_leading d (reverse s))

-- No character of the text is white space.
abbrev pub IsSolid : Text → Type 0
IsSolid s = all (λ c. not (is_space c)) s ≡ true

lstrip-IsSolid : (s : Text) → IsSolid s → lstrip s ≡ s
unfolding lstrip
lstrip-IsSolid [] h = refl
lstrip-IsSolid (c ∷ s) h = ground arith

lstrip-append : (s : Text) → s ≢ [] → IsSolid s → lstrip (s ++ 10 ∷ []) ≡ s ++ 10 ∷ []
unfolding lstrip
lstrip-append [] ne h = absurd (ne refl)
lstrip-append (c ∷ s) ne h = ground arith

-- A text without white space is what strip() leaves of it and a newline.
pub strip_line : (s : Text) → s ≢ [] → IsSolid s → strip (s ++ 10 ∷ []) ≡ s
unfolding strip
strip_line s ne h =
    rw (lstrip-append s ne h, reverse-append s (10 ∷ []), newline (reverse s), solid)
      (reverse-reverse s)
  where
    newline : (r : Text) → lstrip (10 ∷ r) ≡ lstrip r
    newline r = refl

    solid : lstrip (reverse s) ≡ reverse s
    solid = lstrip-IsSolid (reverse s) (all-reverse _ s h)

-- The characters at which str.splitlines breaks.
is_line_break : ℕ → Bool
is_line_break c =
    (leb 10 c && leb c 13) || (leb 28 c && leb c 30) || c == 0x85 || c == 0x2028 || c == 0x2029

lines_from : Text → Text → List Text
lines_from cur [] = flush cur []
lines_from cur (c ∷ s) =
    let closed = cur ∷ lines_from [] s in
    let longer = lines_from (cur ++ c ∷ []) s in if is_line_break c then closed else longer

-- s.splitlines(), but with an empty line more between a carriage return and its line feed
unfoldable pub split_lines : Text → List Text
unfolding lines_from is_line_break
split_lines s = lines_from [] s
