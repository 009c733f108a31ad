-- ===== src/Daemon/Reconcile.antt =====
-- What `create_jail` and `create_bhyve` share: reconciling a runtime of the same name that is there
-- already, and cleaning up when a later step raises.
pub mod Effect
use freebsd_laboratory.Base.{
  ℕ, Bool, true, false, List, [], ◌∷◌, ◌++◌, Option, none, some, ◌≡◌, refl, not, ◌||◌,
  if◌then◌else◌,
}
use freebsd_laboratory.Base.Text.{Text, text}
use freebsd_laboratory.Base.Result.{Result, ok, err, Error, runtime_error}
use freebsd_laboratory.Host.{Sys}
use freebsd_laboratory.Daemon.Config.{Manager, RuntimeRecord, RuntimeOwner}
use freebsd_laboratory.Daemon.Access.{record_owned_by}
use freebsd_laboratory.Daemon.State.{
  State, Ended, returned, raised, blocked, Daemon, pure, raise, attempt, lift, gets, modify, ◌>>=◌,
  ◌>>◌,
}
use freebsd_laboratory.Daemon.Registry.{load_registry}
use freebsd_laboratory.Daemon.Teardown.{jail_exists, dataset_exists, listed}
use freebsd_laboratory.Daemon.Destroy.{Destroyed, destroy}

-- The handler has run: its own failure replaces the exception.
unfoldable pub reraise : {A : Type 0} → Error → Ended Destroyed → Ended A
reraise e (returned d) = raised e
reraise e (raised f) = raised f
reraise e blocked = blocked

module _ {W A : Type 0} where
  unfoldable pub handle_failure : Daemon W Destroyed → Ended A → State W → Ended A × State W
  unfolding reraise
  handle_failure handler (returned a) s = (returned a, s)
  handle_failure handler (raised e) s = let (r, s') = handler s in (reraise e r, s')
  handle_failure handler blocked s = (blocked, s)

  -- try: m; except Exception: handler; raise
  unfoldable pub on_exception : Daemon W A → Daemon W Destroyed → Daemon W A
  unfolding handle_failure
  on_exception m handler s = let (r, s') = m s in handle_failure handler r s'

module _ {W : Type 0} (m : Manager W) where
  -- The registry must hold no record of the name once it has been reconciled.
  unfoldable pub assert_unregistered : Text → Option RuntimeRecord → Daemon W (Unit {0})
  assert_unregistered name none = pure tt
  assert_unregistered name (some r) =
      raise (runtime_error "Runtime cleanup incomplete before recreate" (name ∷ []))

  unfoldable pub replace_own : Text → RuntimeOwner → Daemon W (Unit {0})
  unfolding assert_unregistered
  replace_own name owner = do
    destroy m name (some owner.uid) false
    found ← load_registry name
    assert_unregistered name found

  unfoldable pub reconcile_found : Text → RuntimeOwner → Option RuntimeRecord → Daemon W (Unit {0})
  unfolding replace_own
  reconcile_found name owner none = pure tt
  reconcile_found name owner (some r) =
      if not (record_owned_by r owner)
      then raise (runtime_error "Runtime already registered" (name ∷ []))
      else replace_own name owner

  unfoldable pub reconcile_registered_before_create : Text → RuntimeOwner → Daemon W (Unit {0})
  unfolding reconcile_found
  reconcile_registered_before_create name owner = do
    found ← load_registry name
    reconcile_found name owner found

  assert_reconciled : Text → List Text → Daemon W (Unit {0})
  assert_reconciled name [] = pure tt
  assert_reconciled name (what ∷ others) =
      raise (runtime_error "Unable to reconcile orphaned runtime" (name ∷ what ∷ others))

  unfoldable pub remove_orphan : Text → Text → Daemon W (Unit {0})
  unfolding text assert_reconciled
  remove_orphan name dataset = do
    destroy m name none true
    jail ← lift (jail_exists m name)
    data_left ← lift (dataset_exists m dataset)
    assert_reconciled name
        (listed m (text "jail:" ++ name) jail ++ listed m (text "dataset:" ++ dataset) data_left)

  -- `not jail and not dataset`: the second question is asked only if the first answer is no.
  unfoldable pub orphan_there : Text → Text → Bool → Daemon W Bool
  orphan_there name dataset true = pure true
  orphan_there name dataset false = lift (dataset_exists m dataset)

  unfoldable pub reconcile_orphan : Text → Text → Option RuntimeRecord → Daemon W (Unit {0})
  unfolding remove_orphan orphan_there
  reconcile_orphan name dataset (some r) = pure tt
  reconcile_orphan name dataset none = do
    jail ← lift (jail_exists m name)
    there ← orphan_there name dataset jail
    if there then remove_orphan name dataset else pure tt

  unfoldable pub reconcile_orphaned_jail_before_create : Text → Text → Daemon W (Unit {0})
  unfolding reconcile_orphan
  reconcile_orphaned_jail_before_create name dataset = do
    found ← load_registry name
    reconcile_orphan name dataset found
