-- ===== src/Daemon/Isolation/Create.antt =====
-- Create requests for a name that is registered already, and for other names.
use freebsd_laboratory.Base.{
  true, false, ◌∷◌, some, ◌≡◌, refl, sym, ◌∙◌, ap, inl, inr, arith, Bool-cases,
}
use freebsd_laboratory.Base.Text.{Text, eq_text, eq_text_refl, eq_text_iff, member}
use freebsd_laboratory.Base.Value.{Value}
use freebsd_laboratory.Base.Dict.{lookup}
use freebsd_laboratory.Base.Result.{Result-cases}
use freebsd_laboratory.Daemon.Config.{
  Manager, RuntimeRecord, RuntimeOwner, PeerCredentials, BhyveGuestProfile, bhyve_profile,
}
use freebsd_laboratory.Daemon.Names.{validate_name, validate_ssh_public_key, matches_runtime_name}
use freebsd_laboratory.Daemon.Access.{owner_from_peer, record_owned_by}
use freebsd_laboratory.Daemon.State.{
  State, Ended, returned, raised, blocked, continue, Daemon, with_runtime_lock, unlock,
}
use freebsd_laboratory.Daemon.Registry.{load_registry, read_entry}
use freebsd_laboratory.Daemon.Teardown.{require_vm_backend}
use freebsd_laboratory.Daemon.Reconcile.{
  reconcile_registered_before_create, reconcile_found, replace_own,
}
use freebsd_laboratory.Daemon.Reconcile.Effect.{destroy-blocked}
use freebsd_laboratory.Daemon.Create.Reply.{Created}
use freebsd_laboratory.Daemon.Create.Effect.{Locked}
use freebsd_laboratory.Daemon.Create.Jail.{create_jail, create_jail_held, create_owned_jail}
use freebsd_laboratory.Daemon.Create.Jail.Effect.{create_jail-Locked}
use freebsd_laboratory.Daemon.Create.Bhyve.{
  create_bhyve, create_bhyve_held, create_owned_bhyve, known_profile,
}
use freebsd_laboratory.Daemon.Create.Bhyve.Effect.{create_bhyve-Locked, CanRemove}
use freebsd_laboratory.Daemon.Isolation.{Keeps}

-- The action does not return.
abbrev IsStuck : {A : Type 0} → Ended A → Type 0
IsStuck (returned a) = ⊥
IsStuck (raised e) = Unit
IsStuck blocked = Unit

continue-stuck :
    {W A B : Type 0} (p : Ended A × State W) (f : A → Daemon W B)
    → IsStuck p.0
    → (continue p.0 f p.1).1 ≡ p.1
continue-stuck (returned a, t) f stuck = absurd stuck
continue-stuck (raised e, t) f stuck = refl
continue-stuck (blocked, t) f stuck = refl

-- Leaving the lock leaves the registry alone.
unlock-registry :
    {W A : Type 0} (name : Text) (x : Ended A) (t : State W)
    → (unlock name x t).1.registry ≡ t.registry
unfolding unlock
unlock-registry name (returned a) t = refl
unlock-registry name (raised e) t = refl
unlock-registry name blocked t = refl

module _ {W : Type 0} (m : Manager W) (name : Text) (r : RuntimeRecord) where
  -- Reconciling a registered runtime under its lock raises or blocks, and changes nothing.
  reconcile-IsStuck :
      (owner : RuntimeOwner) (s : State W)
      → member name s.held ≡ true
      → Keeps name r s
      → let p = reconcile_registered_before_create m name owner s in IsStuck p.0 × (p.1 ≡ s)
  unfolding reconcile_registered_before_create load_registry read_entry reconcile_found replace_own
  reconcile-IsStuck owner s busy kept = elim (Bool-cases (record_owned_by r owner)) [
    | inl own ↦ rw (kept, own, destroy-blocked m name (some owner.uid) false s busy) (tt, refl)
    | inr other ↦ rw (kept, other) (tt, refl)
  ]

  create_owned_jail-same :
      (owner : RuntimeOwner) (key : Text) (s : State W)
      → member name s.held ≡ true
      → Keeps name r s
      → (create_owned_jail m name owner key s).1.registry ≡ s.registry
  unfolding create_owned_jail
  create_owned_jail-same owner key s busy kept =
      let stuck = reconcile-IsStuck owner s busy kept in
      ap (λ u. u.registry)
        (continue-stuck (reconcile_registered_before_create m name owner s) _ stuck.0 ∙ stuck.1)

  create_jail_held-same :
      (owner_pid : Value) (peer : PeerCredentials) (key : Text) (s : State W)
      → member name s.held ≡ true
      → Keeps name r s
      → (create_jail_held m name owner_pid peer key s).1.registry ≡ s.registry
  unfolding create_jail_held validate_name
  create_jail_held-same owner_pid peer key s busy kept =
      elim (Bool-cases (matches_runtime_name name)) [
        | inr bad ↦ rw bad refl
        | inl valid ↦ elim (Result-cases (validate_ssh_public_key m.host.b64decode key)) [
          | inr (e, bad) ↦ rw (valid, bad) refl
          | inl (line, good) ↦
              elim (Result-cases (owner_from_peer m.host peer owner_pid s.world).0) [
                | inr (e, bad) ↦ rw (valid, good, bad) refl
                | inl (owner, known) ↦
                    rw (valid, good, known)
                      (create_owned_jail-same owner line
                        (record s { world = (owner_from_peer m.host peer owner_pid s.world).1 })
                        busy kept)
              ]
        ]
      ]

  create_owned_bhyve-same :
      (profile : Text) (guest : BhyveGuestProfile) (owner : RuntimeOwner) (key : Text) (s : State W)
      → member name s.held ≡ true
      → Keeps name r s
      → (create_owned_bhyve m name profile guest owner key s).1.registry ≡ s.registry
  unfolding create_owned_bhyve
  create_owned_bhyve-same profile guest owner key s busy kept =
      elim (Result-cases (require_vm_backend m s.world).0) [
        | inr (e, failed) ↦ rw failed refl
        | inl (u, fine) ↦
            let t : State W = record s { world = (require_vm_backend m s.world).1 } in
            let stuck = reconcile-IsStuck owner t busy kept in
            rw fine (
              ap (λ (v : State W). v.registry)
                (continue-stuck (reconcile_registered_before_create m name owner t) _ stuck.0
                  ∙ stuck.1))
      ]

  create_bhyve_held-same :
      (owner_pid : Value) (peer : PeerCredentials) (key profile : Text) (s : State W)
      → member name s.held ≡ true
      → Keeps name r s
      → (create_bhyve_held m name owner_pid peer key profile s).1.registry ≡ s.registry
  unfolding create_bhyve_held validate_name
  create_bhyve_held-same owner_pid peer key profile s busy kept =
      elim (Bool-cases (matches_runtime_name name)) [
        | inr bad ↦ rw bad refl
        | inl valid ↦ elim (Result-cases (validate_ssh_public_key m.host.b64decode key)) [
          | inr (e, bad) ↦ rw (valid, bad) refl
          | inl (line, good) ↦ elim (Result-cases (known_profile (bhyve_profile profile))) [
            | inr (e, bad) ↦ rw (valid, good, bad) refl
            | inl (guest, offered) ↦
                elim (Result-cases (owner_from_peer m.host peer owner_pid s.world).0) [
                  | inr (e, bad) ↦ rw (valid, good, offered, bad) refl
                  | inl (owner, known) ↦
                      rw (valid, good, offered, known)
                        (create_owned_bhyve-same profile guest owner line
                          (record s { world = (owner_from_peer m.host peer owner_pid s.world).1 })
                          busy kept)
                ]
          ]
        ]
      ]

  -- What holds of the method under its lock holds of the method.
  with_runtime_lock-same :
      (method : Daemon W Created) (s : State W)
      → ((t : State W)
          → member name t.held ≡ true
          → t.registry ≡ s.registry
          → (method t).1.registry ≡ t.registry)
      → (with_runtime_lock name method s).1.registry ≡ s.registry
  unfolding with_runtime_lock
  with_runtime_lock-same method s same = elim (Bool-cases (member name s.held)) [
    | inl busy ↦ rw busy refl
    | inr free ↦
        let here : State W = record s { held = name ∷ s.held } in
        rw free (
          unlock-registry name (method here).0 (method here).1
          ∙ same here (rw (eq_text_refl name) refl) refl)
  ]

  create_jail-same :
      (owner_pid : Value) (peer : PeerCredentials) (key : Text) (s : State W)
      → Keeps name r s
      → (create_jail m name owner_pid peer key s).1.registry ≡ s.registry
  unfolding create_jail
  create_jail-same owner_pid peer key s kept =
      with_runtime_lock-same _ s
        λ t busy e. create_jail_held-same owner_pid peer key t busy (ap (lookup name) e ∙ kept)

  create_bhyve-same :
      (owner_pid : Value) (peer : PeerCredentials) (key profile : Text) (s : State W)
      → Keeps name r s
      → (create_bhyve m name owner_pid peer key profile s).1.registry ≡ s.registry
  unfolding create_bhyve
  create_bhyve-same owner_pid peer key profile s kept = with_runtime_lock-same _ s λ t busy e.
      create_bhyve_held-same owner_pid peer key profile t busy (ap (lookup name) e ∙ kept)

-- What `Locked` says of the other names.
Locked-Keeps :
    {W : Type 0} (name stem : Text) (r : RuntimeRecord) (peer : PeerCredentials) (s : State W)
    (x : Ended Created) (t : State W)
    → eq_text stem name ≡ false
    → Keeps stem r s
    → Locked name peer s x t
    → Keeps stem r t
Locked-Keeps name stem r peer s (returned c) t other kept (free, (n, (q, o, g, reg), l, h)) =
    ground (arith, other, kept, reg stem)
Locked-Keeps name stem r peer s (raised e) t other kept (free, er, eh) = ap (lookup stem) er ∙ kept
Locked-Keeps name stem r peer s blocked t other kept (busy, inl er) = ap (lookup stem) er ∙ kept
Locked-Keeps name stem r peer s blocked t other kept (busy, inr (q, o, reg)) =
    ground (arith, other, kept, reg stem)

-- A create request for one name keeps the records of all names, its own included.
pub create_jail-Keeps :
    {W : Type 0} (m : Manager W) (name stem : Text) (r : RuntimeRecord) (owner_pid : Value)
    (peer : PeerCredentials) (key : Text) (s : State W)
    → Keeps stem r s
    → Keeps stem r (create_jail m name owner_pid peer key s).1
create_jail-Keeps m name stem r owner_pid peer key s kept = elim (Bool-cases (eq_text stem name)) [
  | inl same ↦
      let e = (eq_text_iff stem name).0 same in
      ap (lookup stem) (
        create_jail-same m name r owner_pid peer key s
          (ap (λ n. lookup n s.registry) (sym e) ∙ kept))
      ∙ kept
  | inr other ↦
      Locked-Keeps name stem r peer s _ _ other kept
        (create_jail-Locked m name owner_pid peer key s)
]

pub create_bhyve-Keeps :
    {W : Type 0} (m : Manager W) (name stem : Text) (r : RuntimeRecord) (owner_pid : Value)
    (peer : PeerCredentials) (key profile : Text) (s : State W)
    → CanRemove m
    → Keeps stem r s
    → Keeps stem r (create_bhyve m name owner_pid peer key profile s).1
create_bhyve-Keeps m name stem r owner_pid peer key profile s can kept =
    elim (Bool-cases (eq_text stem name)) [
      | inl same ↦
          let e = (eq_text_iff stem name).0 same in
          ap (lookup stem) (
            create_bhyve-same m name r owner_pid peer key profile s
              (ap (λ n. lookup n s.registry) (sym e) ∙ kept))
          ∙ kept
      | inr other ↦
          Locked-Keeps name stem r peer s _ _ other kept
            (create_bhyve-Locked m name owner_pid peer key profile s can)
    ]
