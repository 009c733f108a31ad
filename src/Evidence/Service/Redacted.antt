-- ===== src/Evidence/Service/Redacted.antt =====
-- What is kept of a payload holds no secret and no cell source.
use mathlib.Core.Path.{subst}
use freebsd_laboratory.Base.{
  ℕ, false, Option, none, some, ◌≡◌, refl, arith, Bool-cases, inl, inr, length,
}
use freebsd_laboratory.Base.Int.{pos}
use freebsd_laboratory.Base.Text.{Text, eq_text, eq_text_iff, eq_text_refl}
use freebsd_laboratory.Base.Result.{ok, Result-cases}
use freebsd_laboratory.Evidence.Json.{
  Json, Members, object, array, str, int, null, bool, real, end, member, get, put, remove, get-put,
  get-remove,
}
use freebsd_laboratory.Evidence.Redact.{
  redact_payload, IsRedacted, HasRedacted, is_sensitive, redact_payload-no_secret,
}
use freebsd_laboratory.Evidence.Service.{
  Encoders, accepted_payload, minimize_persisted_payload, minimized_payload, minimized_cell,
  cell_of, source_text, members_of, cell_key, source_key, sha256_key, bytes_key, cell_executed,
}

put-HasRedacted :
    (k : Text) (v : Json) (d : Members)
    → is_sensitive k ≡ false
    → IsRedacted v
    → HasRedacted d
    → HasRedacted (put k v d)
unfolding put IsRedacted
put-HasRedacted k v end plain hv hd = ((λ e. absurd cc, hv), tt)
put-HasRedacted k v (member j w d) plain hv ((m, hw), hd) = elim (Bool-cases (eq_text k j)) [
  | inl same ↦ rw same ((λ e. absurd (ground (arith, eq_text_iff k j)), hv), hd)
  | inr other ↦ rw other ((m, hw), put-HasRedacted k v d plain hv hd)
]

remove-HasRedacted : (k : Text) (d : Members) → HasRedacted d → HasRedacted (remove k d)
unfolding remove IsRedacted
remove-HasRedacted k end h = tt
remove-HasRedacted k (member j w d) (h, hd) = elim (Bool-cases (eq_text k j)) [
  | inl same ↦ rw same (remove-HasRedacted k d hd)
  | inr other ↦ rw other (h, remove-HasRedacted k d hd)
]

get-IsRedacted :
    (k : Text) (v : Json) (d : Members) → HasRedacted d → get k d ≡ some v → IsRedacted v
unfolding get IsRedacted
get-IsRedacted k v end h e = absurd cc
get-IsRedacted k v (member j w d) ((m, hw), hd) e = elim (Bool-cases (eq_text k j)) [
  | inl same ↦ subst IsRedacted (ground (arith, same, e)) hw
  | inr other ↦ get-IsRedacted k v d hd (ground (arith, other, e))
]

sensitive_bytes : is_sensitive bytes_key ≡ false
unfolding is_sensitive bytes_key
sensitive_bytes = refl

sensitive_sha256 : is_sensitive sha256_key ≡ false
unfolding is_sensitive sha256_key
sensitive_sha256 = refl

sensitive_cell : is_sensitive cell_key ≡ false
unfolding is_sensitive cell_key
sensitive_cell = refl

cell_of_sound : (o : Option Json) (cell : Members) → cell_of o ≡ ok cell → o ≡ some (object cell)
unfolding cell_of
cell_of_sound (some (object d)) cell e = cc
cell_of_sound none cell e = absurd cc
cell_of_sound (some null) cell e = absurd cc
cell_of_sound (some (bool b)) cell e = absurd cc
cell_of_sound (some (int i)) cell e = absurd cc
cell_of_sound (some (real t)) cell e = absurd cc
cell_of_sound (some (str t)) cell e = absurd cc
cell_of_sound (some (array xs)) cell e = absurd cc

members_of-HasRedacted :
    (v : Json) (d : Members) → members_of v ≡ ok d → IsRedacted v → HasRedacted d
unfolding members_of IsRedacted
members_of-HasRedacted (object c) d e h = subst HasRedacted (ground (arith, e)) h
members_of-HasRedacted null d e h = absurd cc
members_of-HasRedacted (bool b) d e h = absurd cc
members_of-HasRedacted (int i) d e h = absurd cc
members_of-HasRedacted (real t) d e h = absurd cc
members_of-HasRedacted (str t) d e h = absurd cc
members_of-HasRedacted (array xs) d e h = absurd cc

other_keys : (eq_text source_key bytes_key ≡ false) × (eq_text source_key sha256_key ≡ false)
unfolding source_key bytes_key sha256_key
other_keys = (refl, refl)

-- The payload of an executed cell holds no source.
abbrev pub HasNoSource : Members → Type 0
HasNoSource d =
    (cell : Members) × (get cell_key d ≡ some (object cell)) × (get source_key cell ≡ none)

module _ (enc : Encoders) where
  minimized_cell-HasRedacted :
      (source : Text) (cell : Members)
      → HasRedacted cell
      → HasRedacted (minimized_cell enc source cell)
  unfolding minimized_cell IsRedacted
  minimized_cell-HasRedacted source cell h =
      put-HasRedacted bytes_key _ _ sensitive_bytes tt
        (put-HasRedacted sha256_key _ _ sensitive_sha256 tt (remove-HasRedacted source_key cell h))

  minimized_cell-source :
      (source : Text) (cell : Members) → get source_key (minimized_cell enc source cell) ≡ none
  unfolding minimized_cell
  minimized_cell-source source cell =
      rw
        (
          get-put bytes_key source_key (int (pos (length (enc.utf8 source))))
              (put sha256_key (str (enc.sha256_bytes (enc.utf8 source))) (remove source_key cell)),
          get-put sha256_key source_key (str (enc.sha256_bytes (enc.utf8 source)))
              (remove source_key cell),
          other_keys.0,
          other_keys.1,
          get-remove source_key cell,
        )
        refl

  minimized_payload_sound :
      (payload d : Members)
      → HasRedacted payload
      → minimized_payload enc payload ≡ ok d
      → HasRedacted d × HasNoSource d
  unfolding minimized_payload IsRedacted
  minimized_payload_sound payload d h e = elim (Result-cases (cell_of (get cell_key payload))) [
    | inr (x, bad) ↦ absurd (ground (arith, bad, e))
    | inl (cell, found) ↦ elim (Result-cases (source_text (get source_key cell))) [
      | inr (x, bad) ↦ absurd (ground (arith, found, bad, e))
      | inl (source, given) ↦
          let kept : put cell_key (object (minimized_cell enc source cell)) payload ≡ d =
            ground (arith, found, given, e) in
          let there : HasRedacted cell =
            get-IsRedacted cell_key (object cell) payload h (cell_of_sound _ cell found) in
          (
            subst HasRedacted kept (
                put-HasRedacted cell_key (object (minimized_cell enc source cell)) payload
                  sensitive_cell (minimized_cell-HasRedacted source cell there) h),
            (
              minimized_cell enc source cell,
              subst (λ c. get cell_key c ≡ some (object (minimized_cell enc source cell))) kept
                  (rw
                    (
                      get-put cell_key cell_key (object (minimized_cell enc source cell)) payload,
                      eq_text_refl cell_key,
                    )
                    refl),
              minimized_cell-source source cell,
            ),
          )
    ]
  ]

  -- A payload that is accepted for storage is an object in which nothing but the mask stands under
  -- a sensitive key, at any depth; and that of an executed cell has a cell without its source.
  pub accepted_payload_sound :
      (kind : Text) (payload : Json) (limit : ℕ) (d : Members)
      → accepted_payload enc kind payload limit ≡ ok d
      → HasRedacted d × (kind ≡ cell_executed → HasNoSource d)
  unfolding accepted_payload minimize_persisted_payload
  accepted_payload_sound kind payload limit d e =
      elim (Result-cases (members_of (redact_payload payload))) [
        | inr (x, bad) ↦ absurd (ground (arith, bad, e))
        | inl (redacted, good) ↦
            let clean : HasRedacted redacted =
              members_of-HasRedacted (redact_payload payload) redacted good
                (redact_payload-no_secret payload) in
            elim (Bool-cases (eq_text kind cell_executed)) [
              | inl executed ↦
                  let r =
                    minimized_payload_sound redacted d clean (ground (arith, good, executed, e)) in
                  (r.0, λ k. r.1)
              | inr other ↦ (
                subst HasRedacted (ground (arith, good, other, e)) clean,
                λ k. absurd (ground (arith, k, other, eq_text_refl cell_executed)),
              )
            ]
      ]
