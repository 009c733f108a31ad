-- ===== src/Client/Replies.antt =====
-- What a client gets of the two replies of the daemon.
use freebsd_laboratory.Base.{
  ◌≤◌, true, false, List, [], ◌∷◌, ◌++◌, Option, some, ◌≡◌, ◌≢◌, refl, ap, ◌∙◌, not, ◌==◌, all,
  length, arith, All, map,
}
use freebsd_laboratory.Base.Text.{Text, text}
use freebsd_laboratory.Evidence.Json.{Members, object, str, bool, end, member, get}
use freebsd_laboratory.Client.Read.{
  Received, bytes, Returned, failed, got, refused, no_detail, max_response_bytes, join, read_line,
}
use freebsd_laboratory.Client.Stream.{first_line, line_of, read_line-line_of}
use freebsd_laboratory.Client.Request.{
  Codec, request, interpret, ok_key, error_key, result_key, truthy, received, parsed, checked,
  detail_of, result_of,
}

-- The result of a request, or the text of an exception.
pub data Sent : Type 0 where
  result : Members → Sent
  error : Text → Sent

-- The object that the daemon's handler replies with.
unfoldable pub reply_document : Sent → Members
reply_document (result d) = member ok_key (bool true) (member result_key (object d) end)
reply_document (error t) = member ok_key (bool false) (member error_key (str t) end)

-- What the client makes of it.
abbrev pub delivered : Sent → Returned Members
delivered (result d) = got d
delivered (error []) = failed no_detail
delivered (error (c ∷ t)) = failed (refused (str (c ∷ t)))

-- The decoded object need not have its keys in the order of the reply.
interpret-reply_document :
    (sent : Sent) (d : Members)
    → get ok_key d ≡ get ok_key (reply_document sent)
    → get error_key d ≡ get error_key (reply_document sent)
    → get result_key d ≡ get result_key (reply_document sent)
    → interpret (some (object d)) ≡ delivered sent
unfolding interpret reply_document checked result_of detail_of truthy ok_key error_key result_key
    text get
interpret-reply_document (result r) d o e g = rw (o, g) refl
interpret-reply_document (error []) d o e g = rw (o, e) refl
interpret-reply_document (error (c ∷ t)) d o e g = rw (o, e) refl

first_line-append :
    (s rest : Text) → all (λ c. not (c == 10)) s ≡ true → first_line (s ++ 10 ∷ rest) ≡ s
first_line-append [] rest h = refl
first_line-append (c ∷ s) rest h = ground (arith, first_line-append s rest)

line_of_short :
    (pieces : List Text) (line after : Text)
    → join pieces ≡ line ++ 10 ∷ after
    → first_line (join pieces) ≡ line
    → length line ≤ max_response_bytes
    → line_of pieces ≡ got line
unfolding join
line_of_short [] [] after whole first short = absurd cc
line_of_short [] (c ∷ line) after whole first short = absurd cc
line_of_short (p ∷ pieces) line after whole first short = rw first (ground (arith, short))

module _ {W : Type 0} (codec : Codec) (exchange : Text → W → Option (List Received) × W)
    (action : Text) (payload : Members) (w : W) where
  -- A request returns the result, or fails with the text of the exception, that the daemon replies
  -- with, in whatever pieces the line of the reply arrives and whatever follows it. The encoder
  -- prints the reply on one line within the limit, and the decoder finds the same values in it.
  pub request-reply_document :
      (sent : Sent) (d : Members) (pieces : List Text) (after : Text)
      → let line = codec.dumps (object (reply_document sent)) in
        codec.loads line ≡ some (object d)
        → ((k : Text) → get k d ≡ get k (reply_document sent))
        → all (λ c. not (c == 10)) line ≡ true
        → length line ≤ max_response_bytes
        → ((request_line : Text) → (exchange request_line w).0 ≡ some (map bytes pieces))
        → All (λ piece. piece ≢ []) pieces
        → join pieces ≡ line ++ 10 ∷ after
        → (request codec exchange action payload w).0 ≡ delivered sent
  unfolding request received parsed
  request-reply_document sent d pieces after decoded same plain short answers solid whole =
      let line = codec.dumps (object (reply_document sent)) in
      let first : first_line (join pieces) ≡ line =
        ap first_line whole ∙ first_line-append line after plain in
      let read : read_line (map bytes pieces) ≡ got line =
        read_line-line_of pieces solid ∙ line_of_short pieces line after whole first short in
      rw (answers _, read, decoded)
        (interpret-reply_document sent d (same ok_key) (same error_key) (same result_key))
