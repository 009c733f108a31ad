-- ===== src/Tests/Client.antt =====
-- The properties of the runtime client at concrete values.
use freebsd_laboratory.Base.{[], ◌∷◌, ◌+◌, List, some, ◌≡◌, refl, arith, map}
use freebsd_laboratory.Base.Text.{Text, text}
use freebsd_laboratory.Evidence.Json.{Members, object, str, end, member}
use freebsd_laboratory.Client.Read.{bytes, got, read_line, max_response_bytes, join}
use freebsd_laboratory.Client.Stream.{line_of, read_line-line_of}
use freebsd_laboratory.Client.Request.{Codec, request}
use freebsd_laboratory.Client.Replies.{result, reply_document, request-reply_document}

abbrev demo_pieces : List Text
demo_pieces = text "{" ∷ (b'}' ∷ 10 ∷ []) ∷ text "more" ∷ []

read_line-line_of_example : read_line (map bytes demo_pieces) ≡ line_of demo_pieces
unfolding text
read_line-line_of_example =
    read_line-line_of demo_pieces ((λ h. absurd cc), ((λ h. absurd cc), ((λ h. absurd cc), tt)))

abbrev demo_result : Members
demo_result = member (text "name") (str (text "freebsd-lab-one")) end

-- An encoder of one document, and its decoder.
abbrev demo_codec : Codec
demo_codec = record {
  dumps = λ j. text "{}";
  loads = λ line. some (object (reply_document (result demo_result)));
}

request-reply_document_example :
    (request demo_codec (λ line n. (some (map bytes demo_pieces), n + 1)) (text "destroy") end 0).0
    ≡ got demo_result
unfolding text join max_response_bytes
request-reply_document_example =
    request-reply_document demo_codec (λ line n. (some (map bytes demo_pieces), n + 1))
      (text "destroy") end 0 (result demo_result) (reply_document (result demo_result)) demo_pieces
      (text "more") refl (λ k. refl) refl (omega arith) (λ l. refl)
      ((λ h. absurd cc), ((λ h. absurd cc), ((λ h. absurd cc), tt))) refl
