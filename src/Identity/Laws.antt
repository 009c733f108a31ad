-- ===== src/Identity/Laws.antt =====
-- What a match of a process fingerprint means.
use freebsd_laboratory.Base.{inl, inr, ap, true, false, none, some, ◌≡◌, arith, Option-cases}
use freebsd_laboratory.Base.Int.{ℤ, eq_ℤ_iff, le_ℤ}
use freebsd_laboratory.Base.Text.{Text, eq_text_iff}
use freebsd_laboratory.Host.{Host}
use freebsd_laboratory.Identity.{ProcessIdentity, query_process_identity, process_matches}

module _ {W : Type 0} (host : Host W) where
  -- A recorded process counts as alive only if its pid is greater than 1 and the live process with
  -- that pid has the recorded uid and the recorded digest.
  pub process_matches_sound :
      (pid uid : ℤ) (digest : Text) (w : W)
      → (process_matches host pid uid digest w).0 ≡ true
      → (identity : ProcessIdentity) × ((query_process_identity host pid w).0 ≡ some identity)
        × (identity.uid ≡ uid)
        × (identity.digest ≡ digest)
        × (le_ℤ 2 pid ≡ true)
  unfolding process_matches
  process_matches_sound pid uid digest w h =
      elim (Option-cases (query_process_identity host pid w).0) [
        | inl e ↦ cc (ap (λ o. o) h, absent e)
        | inr (i, e) ↦ (
          i,
          e,
          ground (arith, eq_ℤ_iff i.uid uid),
          ground (arith, eq_text_iff i.digest digest),
          ground arith,
        )
      ]
    where
      absent :
          (query_process_identity host pid w).0 ≡ none
          → (process_matches host pid uid digest w).0 ≡ false
      absent e = ground arith
