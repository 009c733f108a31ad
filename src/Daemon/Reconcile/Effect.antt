-- ===== src/Daemon/Reconcile/Effect.antt =====
-- Reconciling under the lock of the runtime: `destroy` asks for that lock again.
use freebsd_laboratory.Base.{
  Bool, true, false, Option, none, some, ◌≡◌, refl, if◌then◌else◌, Bool-cases, inl, inr,
}
use freebsd_laboratory.Base.Int.{ℤ}
use freebsd_laboratory.Base.Text.{Text, member}
use freebsd_laboratory.Base.Dict.{lookup}
use freebsd_laboratory.Base.Result.{Result, ok, err, Result-cases}
use freebsd_laboratory.Daemon.Config.{Manager, RuntimeOwner, RuntimeRecord}
use freebsd_laboratory.Daemon.Access.{record_owned_by}
use freebsd_laboratory.Daemon.State.{
  State, returned, blocked, ended, continue, Daemon, with_runtime_lock,
}
use freebsd_laboratory.Daemon.Rules.{Quiet}
use freebsd_laboratory.Daemon.Registry.{load_registry, read_entry}
use freebsd_laboratory.Daemon.Teardown.{jail_exists, dataset_exists}
use freebsd_laboratory.Daemon.Destroy.{destroy}
use freebsd_laboratory.Daemon.Reconcile.{
  reconcile_registered_before_create, reconcile_found, replace_own, remove_orphan, orphan_there,
  reconcile_orphan, reconcile_orphaned_jail_before_create,
}

module _ {W : Type 0} (m : Manager W) where
  -- Under the lock of its name, `destroy` waits for itself.
  pub destroy-blocked :
      (name : Text) (requester : Option ℤ) (force : Bool) (s : State W)
      → member name s.held ≡ true
      → destroy m name requester force s ≡ (blocked, s)
  unfolding destroy with_runtime_lock
  destroy-blocked name requester force s busy = rw busy

  reconcile_found-Quiet :
      (name : Text) (owner : RuntimeOwner) (found : Option RuntimeRecord) (s : State W)
      → member name s.held ≡ true
      → let p = reconcile_found m name owner found s in Quiet s p.0 p.1
  unfolding reconcile_found replace_own
  reconcile_found-Quiet name owner none s busy = (refl, refl)
  reconcile_found-Quiet name owner (some r) s busy = elim (Bool-cases (record_owned_by r owner)) [
    | inl own ↦ rw (own, destroy-blocked name (some owner.uid) false s busy) (refl, refl)
    | inr foreign ↦ rw foreign (refl, refl)
  ]

  pub reconcile_registered-Quiet :
      (name : Text) (owner : RuntimeOwner) (s : State W)
      → member name s.held ≡ true
      → let p = reconcile_registered_before_create m name owner s in Quiet s p.0 p.1
  unfolding reconcile_registered_before_create load_registry
  reconcile_registered-Quiet name owner s busy =
      elim (Result-cases (read_entry (lookup name s.registry))) [
        | inl (found, read) ↦ rw read (reconcile_found-Quiet name owner found s busy)
        | inr (e, broken) ↦ rw broken (refl, refl)
      ]

  clean_if : Text → Text → Bool → Daemon W (Unit {0})
  clean_if name dataset there =
      if there then remove_orphan m name dataset else λ s. (returned tt, s)

  clean_if-Quiet :
      (name dataset : Text) (there : Bool) (s : State W)
      → member name s.held ≡ true
      → let p = clean_if name dataset there s in Quiet s p.0 p.1
  unfolding clean_if remove_orphan
  clean_if-Quiet name dataset true s busy = rw (destroy-blocked name none true s busy) (refl, refl)
  clean_if-Quiet name dataset false s busy = (refl, refl)

  look-Quiet :
      (name dataset : Text) (r : Result Bool) (s : State W)
      → member name s.held ≡ true
      → let p = continue (ended r) (clean_if name dataset) s in Quiet s p.0 p.1
  look-Quiet name dataset (ok there) s busy = clean_if-Quiet name dataset there s busy
  look-Quiet name dataset (err e) s busy = (refl, refl)

  reconcile_orphan-Quiet :
      (name dataset : Text) (found : Option RuntimeRecord) (s : State W)
      → member name s.held ≡ true
      → let p = reconcile_orphan m name dataset found s in Quiet s p.0 p.1
  unfolding reconcile_orphan orphan_there
  reconcile_orphan-Quiet name dataset (some r) s busy = (refl, refl)
  reconcile_orphan-Quiet name dataset none s busy =
      elim (Result-cases (jail_exists m name s.world).0) [
        | inr (e, failed) ↦ rw failed (refl, refl)
        | inl (true, there) ↦ rw there (
            unfold clean_if in
            clean_if-Quiet name dataset true (record s { world = (jail_exists m name s.world).1 })
              busy)
        | inl (false, absent) ↦ rw absent (
            unfold clean_if in
            look-Quiet name dataset (dataset_exists m dataset (jail_exists m name s.world).1).0
              (record s { world = (dataset_exists m dataset (jail_exists m name s.world).1).1 })
              busy)
      ]

  pub reconcile_orphaned-Quiet :
      (name dataset : Text) (s : State W)
      → member name s.held ≡ true
      → let p = reconcile_orphaned_jail_before_create m name dataset s in Quiet s p.0 p.1
  unfolding reconcile_orphaned_jail_before_create load_registry
  reconcile_orphaned-Quiet name dataset s busy =
      elim (Result-cases (read_entry (lookup name s.registry))) [
        | inl (found, read) ↦ rw read (reconcile_orphan-Quiet name dataset found s busy)
        | inr (e, broken) ↦ rw broken (refl, refl)
      ]
