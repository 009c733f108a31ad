-- ===== src/Daemon/Create/Jail/Effect.antt =====
-- How `create_jail` may end.
use mathlib.Core.Path.{subst}
use freebsd_laboratory.Base.{true, [], ◌∷◌, ◌++◌, ◌≡◌, refl, ◌∙◌, ap, inl, inr, Bool-cases}
use freebsd_laboratory.Base.Text.{Text, text, eq_text_refl, member}
use freebsd_laboratory.Base.Value.{Value, str, int}
use freebsd_laboratory.Base.Dict.{lookup}
use freebsd_laboratory.Base.Result.{Result, Result-cases}
use freebsd_laboratory.Daemon.Config.{
  Manager, RuntimeRecord, RuntimeOwner, PeerCredentials, registry_fields,
}
use freebsd_laboratory.Daemon.Names.{validate_name, validate_ssh_public_key, matches_runtime_name}
use freebsd_laboratory.Daemon.Access.{owner_from_peer, owner_from_peer_sound}
use freebsd_laboratory.Daemon.State.{State, returned, ◌>>=◌, with_runtime_lock}
use freebsd_laboratory.Daemon.Rules.{bind-intro, Yields, OkAll}
use freebsd_laboratory.Daemon.Registry.{write_registry}
use freebsd_laboratory.Daemon.Registry.Effect.{Written, write_registry-Written}
use freebsd_laboratory.Daemon.Teardown.{jail_dataset}
use freebsd_laboratory.Daemon.Network.{ensure_bridge}
use freebsd_laboratory.Daemon.Reconcile.{
  on_exception, reconcile_registered_before_create, reconcile_orphaned_jail_before_create,
}
use freebsd_laboratory.Daemon.Reconcile.Effect.{
  reconcile_registered-Quiet, reconcile_orphaned-Quiet,
}
use freebsd_laboratory.Daemon.Create.Effect.{
  Owned, Leased, Registered, CreateEffect, Attempted, Registered-write, Registered-rewrite,
  Quiet-then, handle_failure-CreateEffect, ensure_bridge-Quiet, SameOwner, lease-then, Locked,
  unlock-Locked,
}
use freebsd_laboratory.Daemon.Create.JailSteps.{build_jail, built_jail, assemble_jail}
use freebsd_laboratory.Daemon.Create.Jail.{
  create_jail, create_jail_held, create_owned_jail, launch_jail, jail_attempt, jail_record,
  jail_root_of, jail_reply,
}

built_jail-SameOwner : (r : RuntimeRecord) (stem : Text) → SameOwner r (built_jail stem r)
unfolding built_jail
built_jail-SameOwner r stem = (refl, refl, refl, refl, refl)

module _ {W : Type 0} (m : Manager W) where
  build_jail-SameOwner :
      (name dataset root address key : Text) (r : RuntimeRecord)
      → Yields (SameOwner r) (build_jail m name dataset root address key r)
  unfolding build_jail
  build_jail-SameOwner name dataset root address key r w =
      elim (Result-cases (assemble_jail m name dataset root address key w).0) [
        | inl (stem, made) ↦ rw (made, build_jail) (built_jail-SameOwner r stem)
        | inr (e, failed) ↦ rw (failed, build_jail) tt
      ]

  module _ (name : Text) (peer : PeerCredentials) (owner : RuntimeOwner) (address root key : Text)
      (own : (owner.pid ≡ peer.pid) × (owner.uid ≡ peer.uid) × (owner.gid ≡ peer.gid)) where
    first : RuntimeRecord
    first = jail_record name owner address (jail_dataset m name) root

    first-Owned : Owned name peer first × (first.guest_ip ≡ str address)
    unfolding first jail_record registry_fields
    first-Owned = ((refl, ap int own.0, ap int own.1, ap int own.2), refl)

    -- The second write and the reply.
    recorded :
        (s t : State W) (b : RuntimeRecord)
        → Registered name first s t
        → t.held ≡ s.held
        → Leased name address t
        → SameOwner first b
        → let p =
            (write_registry m b >>= λ _. λ (u : State W). (returned (jail_reply m name address), u))
              t in
          Attempted name peer s p.0 p.1
    unfolding jail_reply
    recorded s t b reg h l same =
        bind-intro (Written name b t) (Attempted name peer s) (write_registry m b t) _
          (write_registry-Written m name b t (same.0 ∙ first-Owned.0.0))
          (λ a u q. (
            refl,
            (
              b,
              (
                same.0 ∙ first-Owned.0.0,
                same.1 ∙ first-Owned.0.1,
                same.2 ∙ first-Owned.0.2,
                same.3 ∙ first-Owned.0.3,
              ),
              same.4 ∙ first-Owned.1,
              Registered-rewrite name first b s t u reg q.0,
            ),
            ap (λ d. lookup address d.files) q.2 ∙ l,
            q.1 ∙ h,
          ))
          (λ e u q. (q.1 ∙ h, (first, first-Owned.0, λ stem. ap (lookup stem) q.0 ∙ reg stem)))
          (λ u q. q)

    -- The body of the `try`, under the first record.
    jail_attempt-Attempted :
        (s t : State W)
        → Registered name first s t
        → t.held ≡ s.held
        → Leased name address t
        → let p = jail_attempt m name root address key first t in Attempted name peer s p.0 p.1
    unfolding jail_attempt
    jail_attempt-Attempted s t reg h l =
        let q : Result RuntimeRecord × W =
          build_jail m name (jail_dataset m name) root address key first t.world in
        elim (Result-cases q.0) [
          | inr (e, failed) ↦ rw failed (h, (first, first-Owned.0, reg))
          | inl (b, made) ↦ rw made (
              recorded s (record t { world = q.1 }) b reg h l
                (subst (OkAll (SameOwner first)) made
                  (build_jail-SameOwner name (jail_dataset m name) root address key first t.world)))
        ]

    launch_jail-CreateEffect :
        (s : State W)
        → member name s.held ≡ true
        → Leased name address s
        → let p = launch_jail m name owner address root key s in CreateEffect name peer s p.0 p.1
    unfolding launch_jail on_exception first
    launch_jail-CreateEffect s busy l =
        bind-intro (Written name first s) (CreateEffect name peer s) (write_registry m first s) _
          (write_registry-Written m name first s first-Owned.0.0)
          (λ a t q. handle_failure-CreateEffect m name peer s _ _ busy (
            jail_attempt-Attempted s t (Registered-write name first s t q.0) q.1
              (ap (λ d. lookup address d.files) q.2 ∙ l)))
          (λ e t q. q) (λ t q. absurd q)

  module _ (name : Text) (peer : PeerCredentials) (owner : RuntimeOwner) (key : Text)
      (own : (owner.pid ≡ peer.pid) × (owner.uid ≡ peer.uid) × (owner.gid ≡ peer.gid)) where
    -- Everything behind the checks of the request, under the lock.
    create_owned_jail-CreateEffect :
        (s : State W)
        → member name s.held ≡ true
        → let p = create_owned_jail m name owner key s in CreateEffect name peer s p.0 p.1
    unfolding create_owned_jail jail_root_of
    create_owned_jail-CreateEffect s busy =
        Quiet-then name peer s (reconcile_registered_before_create m name owner s) _
          (reconcile_registered-Quiet m name owner s busy)
          λ a1 s1 e1 h1.
            Quiet-then name peer s1
              (reconcile_orphaned_jail_before_create m name (jail_dataset m name) s1) _
              (reconcile_orphaned-Quiet m name (jail_dataset m name) s1
                (ap (member name) h1 ∙ busy))
              λ a2 s2 e2 h2.
                Quiet-then name peer s2 (ensure_bridge m s2) _ (ensure_bridge-Quiet m s2)
                  λ a3 s3 e3 h3.
                    lease-then m name peer s3 (λ address. text "arp" ∷ text "-d" ∷ address ∷ []) _
                      λ address t h l.
                        launch_jail-CreateEffect name peer owner address
                          (m.host.resolve (m.config.jail_mount_root ++ (b'/' ∷ name)) s3.world) key
                          own t (ap (member name) (h ∙ h3 ∙ h2 ∙ h1) ∙ busy) l

  create_jail_held-CreateEffect :
      (name : Text) (owner_pid : Value) (peer : PeerCredentials) (key : Text) (s : State W)
      → member name s.held ≡ true
      → let p = create_jail_held m name owner_pid peer key s in CreateEffect name peer s p.0 p.1
  unfolding create_jail_held validate_name
  create_jail_held-CreateEffect name owner_pid peer key s busy =
      elim (Bool-cases (matches_runtime_name name)) [
        | inr bad ↦ rw bad (refl, refl)
        | inl valid ↦ elim (Result-cases (validate_ssh_public_key m.host.b64decode key)) [
          | inr (e, bad) ↦ rw (valid, bad) (refl, refl)
          | inl (line, good) ↦
              elim (Result-cases (owner_from_peer m.host peer owner_pid s.world).0) [
                | inr (e, bad) ↦ rw (valid, good, bad) (refl, refl)
                | inl (owner, known) ↦
                    let sound = owner_from_peer_sound m.host peer owner_pid s.world owner known in
                    rw (valid, good, known)
                      (create_owned_jail-CreateEffect name peer owner line
                        (sound.2, sound.3, sound.4)
                        (record s { world = (owner_from_peer m.host peer owner_pid s.world).1 })
                        busy)
              ]
        ]
      ]

  -- How `create_jail` may end. When it returns, the registry holds a record of the name with the
  -- peer's kernel credentials and the replied address, whose lease is held in that name; no other
  -- record has changed, and the lock is free again. When it raises, every record is as before and
  -- the lock is free. Otherwise it waits for ever on the lock of the runtime, which is taken, and at
  -- most the record of this name has been added.
  pub create_jail-Locked :
      (name : Text) (owner_pid : Value) (peer : PeerCredentials) (key : Text) (s : State W)
      → let p = create_jail m name owner_pid peer key s in Locked name peer s p.0 p.1
  unfolding create_jail with_runtime_lock
  create_jail-Locked name owner_pid peer key s = elim (Bool-cases (member name s.held)) [
    | inl busy ↦ rw busy (busy, inl refl)
    | inr free ↦ rw free (
        unlock-Locked name peer s _ _ free (
          create_jail_held-CreateEffect name owner_pid peer key (record s { held = name ∷ s.held })
            (rw (eq_text_refl name))))
  ]
