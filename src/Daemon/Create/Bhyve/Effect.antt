-- ===== src/Daemon/Create/Bhyve/Effect.antt =====
-- How `create_bhyve` may end.
use mathlib.Core.Path.{subst}
use freebsd_laboratory.Base.{
  Bool, true, false, [], ◌∷◌, ◌≡◌, refl, ◌∙◌, ap, inl, inr, arith, Bool-cases,
}
use freebsd_laboratory.Base.Text.{Text, text, eq_text_refl, member}
use freebsd_laboratory.Base.Value.{Value, str, int}
use freebsd_laboratory.Base.Dict.{lookup}
use freebsd_laboratory.Base.Result.{Result, ok, err, Result-cases}
use freebsd_laboratory.Host.{file, unlink}
use freebsd_laboratory.Daemon.Config.{
  Manager, RuntimeRecord, RuntimeOwner, PeerCredentials, BhyveGuestProfile, registry_fields,
  bhyve_profile,
}
use freebsd_laboratory.Daemon.Names.{validate_name, validate_ssh_public_key, matches_runtime_name}
use freebsd_laboratory.Daemon.Access.{owner_from_peer, owner_from_peer_sound}
use freebsd_laboratory.Daemon.State.{
  State, Ended, returned, raised, blocked, lift, ◌>>=◌, with_runtime_lock,
}
use freebsd_laboratory.Daemon.Rules.{bind-intro, Quiet, OkAll}
use freebsd_laboratory.Daemon.Registry.{write_registry}
use freebsd_laboratory.Daemon.Registry.Effect.{Written, write_registry-Written}
use freebsd_laboratory.Daemon.Teardown.{require_vm_backend, answers}
use freebsd_laboratory.Daemon.Network.{ensure_bridge, ensure_vm_switch, command}
use freebsd_laboratory.Daemon.Reconcile.{on_exception, reconcile_registered_before_create}
use freebsd_laboratory.Daemon.Reconcile.Effect.{reconcile_registered-Quiet}
use freebsd_laboratory.Daemon.Create.Reply.{Created}
use freebsd_laboratory.Daemon.Create.Effect.{
  Owned, Leased, Registered, CreateEffect, Attempted, Registered-write, Registered-rewrite,
  Quiet-then, handle_failure-CreateEffect, ensure_bridge-Quiet, SameOwner, lease-then, Locked,
  unlock-Locked,
}
use freebsd_laboratory.Daemon.Create.BhyveSteps.{build_bhyve, write_runtime_public_key}
use freebsd_laboratory.Daemon.Create.BhyveSteps.Effect.{build_bhyve-SameOwner}
use freebsd_laboratory.Daemon.Create.Bhyve.{
  create_bhyve, create_bhyve_held, create_owned_bhyve, launch_bhyve, bhyve_attempt, bhyve_record,
  bhyve_reply, with_key_file, dropped, drop_key_file, removed, known_profile, refuse_existing,
}

-- A file that is there can be removed.
abbrev pub CanRemove : {W : Type 0} → Manager W → Type 0
CanRemove m =
    (path : Text) (w : _)
    → m.host.is_file path w ≡ true
    → (m.host.file_call (unlink path) w).0 ≡ true

module _ {W : Type 0} (m : Manager W) where
  -- Removing the key file changes only the outside world, where a file can be removed.
  drop_key_file-same :
      (key_path : Text) (x : Ended Created) (s : State W)
      → CanRemove m
      → (w : W) × (drop_key_file m key_path x s ≡ (x, record s { world = w }))
  unfolding drop_key_file removed file
  drop_key_file-same key_path x s can = elim (Bool-cases (m.host.is_file key_path s.world)) [
    | inl there ↦
        ((file m.host (unlink key_path) s.world).1, ground (arith, can key_path s.world there))
    | inr absent ↦ (s.world, ground arith)
  ]

  module _ (name profile : Text) (guest : BhyveGuestProfile) (peer : PeerCredentials)
      (owner : RuntimeOwner) (address : Text)
      (own : (owner.pid ≡ peer.pid) × (owner.uid ≡ peer.uid) × (owner.gid ≡ peer.gid)) where
    first : RuntimeRecord
    first = bhyve_record name profile guest owner address

    first-Owned : Owned name peer first × (first.guest_ip ≡ str address)
    unfolding first bhyve_record registry_fields
    first-Owned = ((refl, ap int own.0, ap int own.1, ap int own.2), refl)

    -- The start of the guest, behind the second write.
    started :
        (s u : State W) (b : RuntimeRecord)
        → Registered name b s u
        → u.held ≡ s.held
        → Leased name address u
        → SameOwner first b
        → let p =
            (lift (command m (m.config.vm_command ∷ text "start" ∷ name ∷ [])) >>= λ _.
            λ (v : State W). (returned (bhyve_reply m name profile guest address), v))
              u in
          Attempted name peer s p.0 p.1
    unfolding bhyve_reply
    started s u b reg h l same =
        let named : Owned name peer b = (
          same.0 ∙ first-Owned.0.0,
          same.1 ∙ first-Owned.0.1,
          same.2 ∙ first-Owned.0.2,
          same.3 ∙ first-Owned.0.3,
        ) in
        elim (Result-cases (command m (m.config.vm_command ∷ text "start" ∷ name ∷ []) u.world).0) [
          | inl (a, done) ↦ rw done (refl, (b, named, same.4 ∙ first-Owned.1, reg), l, h)
          | inr (e, failed) ↦ rw failed (h, (b, named, reg))
        ]

    -- The second write, and what follows.
    recorded :
        (s t : State W) (b : RuntimeRecord)
        → Registered name first s t
        → t.held ≡ s.held
        → Leased name address t
        → SameOwner first b
        → let p =
            (write_registry m b >>= λ _.
            lift (command m (m.config.vm_command ∷ text "start" ∷ name ∷ [])) >>= λ _.
            λ (v : State W). (returned (bhyve_reply m name profile guest address), v))
              t in
          Attempted name peer s p.0 p.1
    recorded s t b reg h l same =
        bind-intro (Written name b t) (Attempted name peer s) (write_registry m b t) _
          (write_registry-Written m name b t (same.0 ∙ first-Owned.0.0))
          (λ a u q.
            started s u b (Registered-rewrite name first b s t u reg q.0) (q.1 ∙ h)
              (ap (λ d. lookup address d.files) q.2 ∙ l) same)
          (λ e u q. (q.1 ∙ h, (first, first-Owned.0, λ stem. ap (lookup stem) q.0 ∙ reg stem)))
          (λ u q. q)

    bhyve_attempt-Attempted :
        (key_path : Text) (s t : State W)
        → Registered name first s t
        → t.held ≡ s.held
        → Leased name address t
        → let p = bhyve_attempt m name profile guest address key_path first t in
          Attempted name peer s p.0 p.1
    unfolding bhyve_attempt
    bhyve_attempt-Attempted key_path s t reg h l =
        let q : Result RuntimeRecord × W =
          build_bhyve m name guest address key_path first t.world in
        elim (Result-cases q.0) [
          | inr (e, failed) ↦ rw failed (h, (first, first-Owned.0, reg))
          | inl (b, made) ↦ rw made (
              recorded s (record t { world = q.1 }) b reg h l
                (subst (OkAll (SameOwner first)) made
                  (build_bhyve-SameOwner m name guest address key_path first t.world)))
        ]

    -- Dropping the key file afterwards changes nothing of this.
    dropped-CreateEffect :
        (key_path : Text) (s : State W) (x : Ended Created) (t : State W)
        → CanRemove m
        → CreateEffect name peer s x t
        → let p = dropped m key_path x t in CreateEffect name peer s p.0 p.1
    unfolding dropped
    dropped-CreateEffect key_path s (returned c) t can q =
        rw ((drop_key_file-same key_path (returned c) t can).1) q
    dropped-CreateEffect key_path s (raised e) t can q =
        rw ((drop_key_file-same key_path (raised e) t can).1) q
    dropped-CreateEffect key_path s blocked t can q = q

    with_key_file-CreateEffect :
        (key : Result Text) (s t : State W)
        → CanRemove m
        → member name s.held ≡ true
        → Registered name first s t
        → t.held ≡ s.held
        → Leased name address t
        → let p = with_key_file m name profile guest address first key t in
          CreateEffect name peer s p.0 p.1
    unfolding with_key_file on_exception
    with_key_file-CreateEffect (err e) s t can busy reg h l =
        handle_failure-CreateEffect m name peer s (raised e) t busy (h, (first, first-Owned.0, reg))
    with_key_file-CreateEffect (ok key_path) s t can busy reg h l =
        dropped-CreateEffect key_path s _ _ can (
          handle_failure-CreateEffect m name peer s _ _ busy
            (bhyve_attempt-Attempted key_path s t reg h l))

    launch_bhyve-CreateEffect :
        (key : Text) (s : State W)
        → CanRemove m
        → member name s.held ≡ true
        → Leased name address s
        → let p = launch_bhyve m name profile guest owner address key s in
          CreateEffect name peer s p.0 p.1
    unfolding launch_bhyve first
    launch_bhyve-CreateEffect key s can busy l =
        bind-intro (Written name first s) (CreateEffect name peer s) (write_registry m first s) _
          (write_registry-Written m name first s first-Owned.0.0)
          (λ a t q.
            with_key_file-CreateEffect (write_runtime_public_key m name key t.world).0 s
              (record t { world = (write_runtime_public_key m name key t.world).1 }) can busy
              (Registered-write name first s t q.0) q.1 (ap (λ d. lookup address d.files) q.2 ∙ l))
          (λ e t q. q) (λ t q. absurd q)

  ensure_vm_switch-Quiet : (s : State W) → Quiet s (ensure_vm_switch m s).0 (ensure_vm_switch m s).1
  unfolding ensure_vm_switch
  ensure_vm_switch-Quiet s = ground arith

  refuse_existing-Quiet :
      (name : Text) (there : Bool) (s : State W)
      → let p = refuse_existing m name there s in Quiet s p.0 p.1
  unfolding refuse_existing
  refuse_existing-Quiet name true s = (refl, refl)
  refuse_existing-Quiet name false s = (refl, refl)

  module _ (name profile : Text) (guest : BhyveGuestProfile) (peer : PeerCredentials)
      (owner : RuntimeOwner) (key : Text)
      (own : (owner.pid ≡ peer.pid) × (owner.uid ≡ peer.uid) × (owner.gid ≡ peer.gid)) where
    -- Everything behind the checks of the request, under the lock.
    create_owned_bhyve-CreateEffect :
        (s : State W)
        → CanRemove m
        → member name s.held ≡ true
        → let p = create_owned_bhyve m name profile guest owner key s in
          CreateEffect name peer s p.0 p.1
    unfolding create_owned_bhyve
    create_owned_bhyve-CreateEffect s can busy =
        Quiet-then name peer s (lift (require_vm_backend m) s) _ (refl, refl)
          λ a0 s0 e0 h0.
            Quiet-then name peer s0 (reconcile_registered_before_create m name owner s0) _
              (reconcile_registered-Quiet m name owner s0 (ap (member name) h0 ∙ busy))
              λ a1 s1 e1 h1.
                Quiet-then name peer s1 (ensure_bridge m s1) _ (ensure_bridge-Quiet m s1)
                  λ a2 s2 e2 h2.
                    Quiet-then name peer s2 (ensure_vm_switch m s2) _ (ensure_vm_switch-Quiet s2)
                      λ a3 s3 e3 h3.
                        Quiet-then name peer s3
                          (lift (answers m (m.config.vm_command ∷ text "info" ∷ name ∷ [])) s3) _
                          (refl, refl)
                          λ there s4 e4 h4.
                            Quiet-then name peer s4 (refuse_existing m name there s4) _
                              (refuse_existing-Quiet name there s4)
                              λ a5 s5 e5 h5.
                                lease-then m name peer s5
                                  (λ address. text "arp" ∷ text "-d" ∷ address ∷ []) _
                                  λ address t h l.
                                    launch_bhyve-CreateEffect name profile guest peer owner address
                                      own key t can
                                      (ap (member name) (h ∙ h5 ∙ h4 ∙ h3 ∙ h2 ∙ h1 ∙ h0) ∙ busy) l

  create_bhyve_held-CreateEffect :
      (name : Text) (owner_pid : Value) (peer : PeerCredentials) (key profile : Text) (s : State W)
      → CanRemove m
      → member name s.held ≡ true
      → let p = create_bhyve_held m name owner_pid peer key profile s in
        CreateEffect name peer s p.0 p.1
  unfolding create_bhyve_held validate_name
  create_bhyve_held-CreateEffect name owner_pid peer key profile s can busy =
      elim (Bool-cases (matches_runtime_name name)) [
        | inr bad ↦ rw bad (refl, refl)
        | inl valid ↦ elim (Result-cases (validate_ssh_public_key m.host.b64decode key)) [
          | inr (e, bad) ↦ rw (valid, bad) (refl, refl)
          | inl (line, good) ↦ elim (Result-cases (known_profile (bhyve_profile profile))) [
            | inr (e, bad) ↦ rw (valid, good, bad) (refl, refl)
            | inl (guest, offered) ↦
                elim (Result-cases (owner_from_peer m.host peer owner_pid s.world).0) [
                  | inr (e, bad) ↦ rw (valid, good, offered, bad) (refl, refl)
                  | inl (owner, known) ↦
                      let sound = owner_from_peer_sound m.host peer owner_pid s.world owner known in
                      rw (valid, good, offered, known)
                        (create_owned_bhyve-CreateEffect name profile guest peer owner line
                          (sound.2, sound.3, sound.4)
                          (record s { world = (owner_from_peer m.host peer owner_pid s.world).1 })
                          can busy)
                ]
          ]
        ]
      ]

  -- How `create_bhyve` may end, on a host where a file that is there can be removed. When it returns, the registry holds a record of the name with the
  -- peer's kernel credentials and the replied address, whose lease is held in that name; no other
  -- record has changed, and the lock is free again. When it raises, every record is as before and
  -- the lock is free. Otherwise it waits for ever on the lock of the runtime, which is taken, and at
  -- most the record of this name has been added.
  pub create_bhyve-Locked :
      (name : Text) (owner_pid : Value) (peer : PeerCredentials) (key profile : Text) (s : State W)
      → CanRemove m
      → let p = create_bhyve m name owner_pid peer key profile s in Locked name peer s p.0 p.1
  unfolding create_bhyve with_runtime_lock
  create_bhyve-Locked name owner_pid peer key profile s can =
      elim (Bool-cases (member name s.held)) [
        | inl busy ↦ rw busy (busy, inl refl)
        | inr free ↦ rw free (
            unlock-Locked name peer s _ _ free (
              create_bhyve_held-CreateEffect name owner_pid peer key profile
                (record s { held = name ∷ s.held }) can (rw (eq_text_refl name))))
      ]
