-- ===== src/PortLeases/Paths.antt =====
-- The names of the leases: that of one port stands in the way of no other port.
use freebsd_laboratory.Base.{
  ℕ, Bool, true, false, [], ◌∷◌, ◌++◌, ◌≡◌, ◌≢◌, refl, sym, ap, ◌∙◌, ==_iff, all, arith, Bool-cases,
  inl, inr, if◌then◌else◌,
}
use freebsd_laboratory.Base.Int.{ℤ}
use freebsd_laboratory.Base.Text.{Text, eq_text, eq_text_iff, starts_with, is_digit}
use freebsd_laboratory.Base.Decimal.{decimal, all-decimal, value_from, value_from-decimal}
use freebsd_laboratory.Base.Dict.{Dict, lookup, erase, lookup-erase}
use freebsd_laboratory.PortLeases.{lease_path, lease_paths, unlink_all}

-- Two runs of digits that a dot ends are the same if the one begins with the other.
digits_agree :
    (a b r : Text)
    → all is_digit a ≡ true
    → all is_digit b ≡ true
    → starts_with (a ++ b'.' ∷ r) (b ++ b'.' ∷ []) ≡ true
    → a ≡ b
unfolding is_digit
digits_agree [] [] r ha hb h = refl
digits_agree [] (d ∷ b) r ha hb h = absurd (ground (arith, hb, h, ==_iff 46 d))
digits_agree (c ∷ a) [] r ha hb h = absurd (ground (arith, ha, h, ==_iff c 46))
digits_agree (c ∷ a) (d ∷ b) r ha hb h =
    let same : c ≡ d = ground (arith, h, ==_iff c d) in
    let rest : a ≡ b =
      digits_agree a b r (ground (arith, ha)) (ground (arith, hb))
        (ground (arith, h, ==_iff c d)) in
    cc

decimal_injective :
    (p q : ℕ) (r : Text)
    → starts_with (decimal p ++ b'.' ∷ r) (decimal q ++ b'.' ∷ []) ≡ true
    → p ≡ q
decimal_injective p q r h =
    sym (value_from-decimal p)
    ∙ ap (value_from 0) (digits_agree (decimal p) (decimal q) r (all-decimal p) (all-decimal q) h)
    ∙ value_from-decimal q

-- The lease of one port is no lease of another.
lease_path_apart :
    (p q : ℕ) (pid uid : ℤ) (digest owner_digest : Text)
    → p ≢ q
    → starts_with (lease_path p pid uid digest owner_digest) (decimal q ++ b'.' ∷ []) ≡ false
unfolding lease_path
lease_path_apart p q pid uid digest owner_digest apart =
    elim (Bool-cases
      (starts_with (lease_path p pid uid digest owner_digest) (decimal q ++ b'.' ∷ []))) [
        | inl yes_it ↦ absurd (apart (decimal_injective p q _ yes_it))
        | inr no_it ↦ no_it
      ]

unlink_all-kept :
    (found : Bool) (name n : Text) (link : Bool) (rest files : Dict Bool)
    → eq_text name n ≡ false
    → ((fs : Dict Bool) → lookup name (unlink_all rest fs) ≡ lookup name fs)
    → lookup name (unlink_all (if found then (n, link) ∷ rest else rest) files) ≡ lookup name files
unfolding unlink_all
unlink_all-kept true name n link rest files apart kept =
    kept (erase n files) ∙ ground (arith, lookup-erase n name files, apart)
unlink_all-kept false name n link rest files apart kept = kept files

lookup-unlink_all :
    (q : ℕ) (name : Text) (paths : Dict Bool)
    → starts_with name (decimal q ++ b'.' ∷ []) ≡ false
    → (files : Dict Bool) → lookup name (unlink_all (lease_paths q paths) files) ≡ lookup name files
unfolding unlink_all lease_paths
lookup-unlink_all q name [] h files = refl
lookup-unlink_all q name ((n, link) ∷ paths) h files =
    elim (Bool-cases (starts_with n (decimal q ++ b'.' ∷ []))) [
      | inr other ↦ rw other (lookup-unlink_all q name paths h files)
      | inl own ↦
          let apart : eq_text name n ≡ false = ground (arith, h, own, eq_text_iff name n) in
          rw own (
            unlink_all-kept _ name n link (lease_paths q paths) files apart
              (lookup-unlink_all q name paths h))
    ]

-- Clearing the leases of one port leaves every lease of another.
pub lookup-cleared :
    (p q : ℕ) (pid uid : ℤ) (digest owner_digest : Text) (files : Dict Bool)
    → p ≢ q
    → lookup (lease_path p pid uid digest owner_digest) (unlink_all (lease_paths q files) files)
      ≡ lookup (lease_path p pid uid digest owner_digest) files
lookup-cleared p q pid uid digest owner_digest files apart =
    lookup-unlink_all q (lease_path p pid uid digest owner_digest) files
      (lease_path_apart p q pid uid digest owner_digest apart) files
