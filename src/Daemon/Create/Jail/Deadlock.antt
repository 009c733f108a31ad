-- ===== src/Daemon/Create/Jail/Deadlock.antt =====
-- When `create_jail` waits for ever on the lock that it holds itself.
use freebsd_laboratory.Base.{true, false, ◌∷◌, none, some, ◌≡◌, refl}
use freebsd_laboratory.Base.Text.{Text, member, eq_text_refl}
use freebsd_laboratory.Base.Value.{Value}
use freebsd_laboratory.Base.Dict.{lookup}
use freebsd_laboratory.Base.Result.{ok, Error}
use freebsd_laboratory.Daemon.Config.{Manager, RuntimeOwner, RuntimeRecord, PeerCredentials}
use freebsd_laboratory.Daemon.Names.{validate_name, validate_ssh_public_key, matches_runtime_name}
use freebsd_laboratory.Daemon.Access.{owner_from_peer, record_owned_by}
use freebsd_laboratory.Daemon.State.{
  State, document, returned, raised, blocked, with_runtime_lock, unlock,
}
use freebsd_laboratory.Daemon.Registry.{load_registry, read_entry, write_registry}
use freebsd_laboratory.Daemon.Teardown.{jail_dataset}
use freebsd_laboratory.Daemon.Reconcile.{
  reconcile_registered_before_create, reconcile_found, replace_own, on_exception, handle_failure,
}
use freebsd_laboratory.Daemon.Reconcile.Effect.{destroy-blocked}
use freebsd_laboratory.Daemon.Create.Jail.{
  create_jail, create_jail_held, create_owned_jail, launch_jail, jail_attempt, jail_record,
}

module _ {W : Type 0} (m : Manager W) where
  -- A user who asks again for a jail that the registry already records as that same process's own
  -- gets no answer: `create_jail` blocks on its own lock, which stays taken, and the registry is as
  -- before. The name, the key and the peer pass the checks, and the lock was free.
  pub create_jail_own_runtime :
      (name : Text) (owner_pid : Value) (peer : PeerCredentials) (key line : Text)
      (owner : RuntimeOwner) (r : RuntimeRecord) (s : State W)
      → member name s.held ≡ false
      → matches_runtime_name name ≡ true
      → validate_ssh_public_key m.host.b64decode key ≡ ok line
      → (owner_from_peer m.host peer owner_pid s.world).0 ≡ ok owner
      → lookup name s.registry ≡ some (document r)
      → record_owned_by r owner ≡ true
      → create_jail m name owner_pid peer key s ≡ (
        blocked,
        record s {
          held = name ∷ s.held;
          world = (owner_from_peer m.host peer owner_pid s.world).1;
        },
      )
  unfolding create_jail with_runtime_lock unlock create_jail_held validate_name create_owned_jail
      reconcile_registered_before_create load_registry read_entry reconcile_found replace_own
  create_jail_own_runtime name owner_pid peer key line owner r s free valid good known there own =
      let here : State W = record s {
        held = name ∷ s.held;
        world = (owner_from_peer m.host peer owner_pid s.world).1;
      } in
      rw
        (
          free,
          valid,
          good,
          known,
          there,
          own,
          destroy-blocked m name (some owner.uid) false here (rw (eq_text_refl name) refl),
        )
        refl

  -- Under its lock, a jail whose creation fails behind the first registry write is not torn down:
  -- the call blocks in the state in which the failure left it, instead of raising the error.
  pub launch_jail_failure :
      (name address root key : Text) (owner : RuntimeOwner) (e : Error) (s t u : State W)
      → member name u.held ≡ true
      → write_registry m (jail_record name owner address (jail_dataset m name) root) s
        ≡ (returned tt, t)
      → jail_attempt m name root address key
          (jail_record name owner address (jail_dataset m name) root)
          t
        ≡ (raised e, u)
      → launch_jail m name owner address root key s ≡ (blocked, u)
  unfolding launch_jail on_exception handle_failure
  launch_jail_failure name address root key owner e s t u busy written failed =
      rw (written, failed, destroy-blocked m name none true u busy) refl
