-- ===== src/Client/Stream.antt =====
-- `_read_line` against the stream as one sequence of bytes.
use freebsd_laboratory.Base.{
  ℕ, suc, ◌+◌, Bool, true, false, List, [], ◌∷◌, ◌++◌, Option, none, some, ◌≡◌, ◌≢◌, refl, sym, ap,
  ◌∙◌, ltb, ◌==◌, ◌&&◌, if◌then◌else◌, length, length-append, take, is_nil, arith, Bool-cases, inl,
  inr, All, map,
}
use mathlib.Core.List.{append_assoc, append-nil}
use freebsd_laboratory.Base.Text.{Text}
use freebsd_laboratory.Client.Read.{
  bytes, Returned, failed, got, size_limit, closed, max_response_bytes, find_newline, join,
  end_of_loop, read_loop, read_line,
}

-- The bytes in front of the first newline, or all bytes where there is none.
abbrev pub first_line : Text → Text
first_line [] = []
first_line (c ∷ s) = let rest = first_line s in if c == 10 then [] else c ∷ rest

-- The line of a stream, without regard to how it is cut into pieces.
abbrev pub line_of : List Text → Returned Text
line_of pieces =
    if is_nil pieces
    then failed closed
    else if ltb max_response_bytes (length (first_line (join pieces)))
    then failed size_limit
    else got (first_line (join pieces))

join-append : (xs : List Text) (y : Text) → join (xs ++ y ∷ []) ≡ join xs ++ y
unfolding join
join-append [] y = append-nil y
join-append (x ∷ xs) y = rw (join-append xs y) (sym (append_assoc x (join xs) y))

-- What a search for a newline says of the first line.
abbrev Cut : Text → Text → Text → Option ℕ → Type 0
Cut s rest line none = line ≡ s ++ rest
Cut s rest line (some i) = line ≡ take i s

abbrev Splits : Text → Text → Option ℕ → Type 0
Splits s rest o = Cut s (first_line rest) (first_line (s ++ rest)) o

find_newline-Splits : (s rest : Text) → Splits s rest (find_newline s)
unfolding find_newline
find_newline-Splits [] rest = refl
find_newline-Splits (c ∷ s) rest = elim (Bool-cases (c == 10)) [
  | inl newline ↦ rw newline (ground (arith, newline))
  | inr other ↦ rw other (later (find_newline s) (find_newline-Splits s rest))
]
  where
    later :
        (o : Option ℕ)
        → Splits s rest o
        → Cut
            (c ∷ s)
            (first_line rest)
            (c ∷ first_line (s ++ rest))
            (elim o [ none ↦ none | some i ↦ some (suc i) ])
    later none h = ap (◌∷◌ c) h
    later (some i) h = ap (◌∷◌ c) h

-- What the loop returns where it has read `chunks` and the line goes on with `line`.
abbrev Outcome : List Text → List Text → Text → Returned Text
Outcome chunks pieces line =
    if is_nil chunks && is_nil pieces
    then failed closed
    else if ltb max_response_bytes (length (join chunks ++ line))
    then failed size_limit
    else got (join chunks ++ line)

is_nil-append : {A : Type 0} (xs : List A) (y : A) → is_nil (xs ++ y ∷ []) ≡ false
is_nil-append [] y = refl
is_nil-append (x ∷ xs) y = refl

end_of_loop_lem :
    (chunks : List Text) (size : ℕ)
    → size ≡ length (join chunks)
    → end_of_loop chunks size ≡ Outcome chunks [] []
unfolding end_of_loop join
end_of_loop_lem [] size e = ground (arith, e)
end_of_loop_lem (c ∷ chunks) size e = rw (append-nil (c ++ join chunks), e) refl

end_of_loop_last :
    (chunks : List Text) (last : Text) (size : ℕ)
    → size ≡ length (join chunks)
    → end_of_loop (chunks ++ last ∷ []) (size + length last) ≡ (
        if ltb max_response_bytes (length (join chunks ++ last))
        then failed size_limit
        else got (join chunks ++ last))
unfolding end_of_loop
end_of_loop_last chunks last size e =
    rw (is_nil-append chunks last, join-append chunks last, length-append (join chunks) last, e)
      refl

and_false : (b : Bool) → b && false ≡ false
and_false true = refl
and_false false = refl

module _ (chunks : List Text) (size c : ℕ) (chunk : Text) (pieces : List Text)
    (counted : size ≡ length (join chunks))
    (ih : read_loop (chunks ++ (c ∷ chunk) ∷ []) (size + length (c ∷ chunk)) (map bytes pieces)
      ≡ Outcome (chunks ++ (c ∷ chunk) ∷ []) pieces (first_line (join pieces))) where
  -- What the loop has read is part of the line.
  over :
      (rest : Text)
      → ltb max_response_bytes (size + length (c ∷ chunk)) ≡ true
      → ltb max_response_bytes (length (join chunks ++ ((c ∷ chunk) ++ rest))) ≡ true
  over rest h = ground (
    arith,
    counted,
    h,
    length-append (join chunks) ((c ∷ chunk) ++ rest),
    length-append chunk rest,
  )

  -- The loop takes this piece, where the search for a newline in it says `o`.
  piece :
      (o : Option ℕ) (line : Text)
      → find_newline (c ∷ chunk) ≡ o
      → Cut (c ∷ chunk) (first_line (join pieces)) line o
      → read_loop chunks size (bytes (c ∷ chunk) ∷ map bytes pieces)
        ≡ Outcome chunks ((c ∷ chunk) ∷ pieces) line
  unfolding read_loop
  piece (some i) line e h =
      rw (e, h, read_loop)
        (end_of_loop_last chunks (take i (c ∷ chunk)) size counted
          ∙ rw (and_false (is_nil chunks)) refl)
  piece none line e h = elim (Bool-cases (ltb max_response_bytes (size + length (c ∷ chunk)))) [
    | inl much ↦
        rw (e, much, h, read_loop, and_false (is_nil chunks))
          (rw (over (first_line (join pieces)) much) refl)
    | inr more ↦
        rw (e, more, h, read_loop)
          (ih
            ∙ rw
                (
                  is_nil-append chunks (c ∷ chunk),
                  join-append chunks (c ∷ chunk),
                  append_assoc (join chunks) (c ∷ chunk) (first_line (join pieces)),
                  and_false (is_nil chunks),
                )
                refl)
  ]

read_loop_lem :
    (chunks : List Text) (size : ℕ) (pieces : List Text)
    → All (λ piece. piece ≢ []) pieces
    → size ≡ length (join chunks)
    → read_loop chunks size (map bytes pieces) ≡ Outcome chunks pieces (first_line (join pieces))
unfolding read_loop join
read_loop_lem chunks size [] h e = end_of_loop_lem chunks size e
read_loop_lem chunks size ([] ∷ pieces) (h, hs) e = absurd (h refl)
read_loop_lem chunks size ((c ∷ chunk) ∷ pieces) (h, hs) e =
    let ih =
      read_loop_lem (chunks ++ (c ∷ chunk) ∷ []) (size + length (c ∷ chunk)) pieces hs
        (rw (join-append chunks (c ∷ chunk), length-append (join chunks) (c ∷ chunk), e) refl) in
    piece chunks size c chunk pieces e ih (find_newline (c ∷ chunk)) _ refl
      (find_newline-Splits (c ∷ chunk) (join pieces))

-- Reading a reply depends on its bytes alone, and not on how the socket cuts them into pieces: it
-- fails where the stream is empty, fails where the bytes before the first newline are more than the
-- limit, and else returns exactly those bytes. The peer sends pieces that are not empty, and then
-- closes the connection or sends nothing more that is read.
pub read_line-line_of :
    (pieces : List Text)
    → All (λ piece. piece ≢ []) pieces
    → read_line (map bytes pieces) ≡ line_of pieces
unfolding read_line join
read_line-line_of pieces h = read_loop_lem [] 0 pieces h refl
