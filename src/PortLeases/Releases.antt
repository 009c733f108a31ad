-- ===== src/PortLeases/Releases.antt =====
-- What `release` takes away.
use freebsd_laboratory.Base.{
  ℕ, Bool, false, List, [], ◌∷◌, none, ◌≡◌, ◌⊎◌, inl, inr, refl, ◌&&◌, if◌then◌else◌, arith, map,
  Bool-cases,
}
use freebsd_laboratory.Base.Int.{ℤ}
use freebsd_laboratory.Base.Text.{Text, member}
use freebsd_laboratory.Base.Dict.{Dict, lookup, erase, lookup-erase}
use freebsd_laboratory.Base.Result.{ok, err}
use freebsd_laboratory.PortLeases.{lease_path, unlink_ports, releasable, release_ports, lock_error}

-- The names of an owner's leases of some ports.
abbrev pub lease_names : (Text → Text) → List ℕ → Text → ℤ → ℤ → Text → List Text
lease_names sha256 ports owner pid uid digest =
    map (λ port. lease_path port pid uid digest (sha256 owner)) ports

lookup-unlink_ports :
    (sha256 : Text → Text) (ports : List ℕ) (owner : Text) (pid uid : ℤ) (digest name : Text)
    (files : Dict Bool)
    → lookup name (unlink_ports ports pid uid digest (sha256 owner) files) ≡ (
        if member name (lease_names sha256 ports owner pid uid digest)
        then none
        else lookup name files)
unfolding unlink_ports
lookup-unlink_ports sha256 [] owner pid uid digest name files = refl
lookup-unlink_ports sha256 (port ∷ ports) owner pid uid digest name files =
    let path = lease_path port pid uid digest (sha256 owner) in
    ground (
      arith,
      lookup-unlink_ports sha256 ports owner pid uid digest name (erase path files),
      lookup-erase path name files,
    )

-- A release takes away the leases of the given ports in the owner's name, and no other, where its
-- arguments are plausible; or the lock does not open, and it changes nothing and raises.
pub release_ports-cases :
    (sha256 : Text → Text) (ports : List ℕ) (owner : Text) (pid uid : ℤ) (digest : Text)
    (opens : Bool) (files : Dict Bool)
    → let e = release_ports sha256 ports owner pid uid digest opens files in
      ((e.0 ≡ ok tt)
        × ((name : Text)
            → lookup name e.1 ≡ (
                if releasable ports owner pid uid digest
                  && member name (lease_names sha256 ports owner pid uid digest)
                then none
                else lookup name files)))
      ⊎ ((e.0 ≡ err lock_error) × (e.1 ≡ files) × (opens ≡ false))
unfolding release_ports
release_ports-cases sha256 ports owner pid uid digest opens files =
    elim (Bool-cases (releasable ports owner pid uid digest)) [
      | inr ignored ↦ rw ignored (inl (refl, λ name. refl))
      | inl plausible ↦ elim (Bool-cases opens) [
        | inl ready ↦
            rw (plausible, ready)
              (inl (refl, λ name. lookup-unlink_ports sha256 ports owner pid uid digest name files))
        | inr shut ↦ rw (plausible, shut) (inr (refl, refl, refl))
      ]
    ]
