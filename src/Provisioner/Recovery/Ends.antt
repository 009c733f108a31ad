-- ===== src/Provisioner/Recovery/Ends.antt =====
-- What the recovery after a failed launch or behind a cleanup leaves in the session.
use freebsd_laboratory.Base.{
  Bool, false, if◌then◌else◌, ◌&&◌, [], ◌∷◌, Option, none, some, ◌≡◌, ◌⊎◌, inl, inr, refl, ◌∙◌,
  ◌||◌, arith, Bool-cases,
}
use freebsd_laboratory.Base.Text.{Text, member}
use freebsd_laboratory.Base.Result.{Result, ok, err, os_error, Result-cases}
use freebsd_laboratory.Base.Dict.{Dict, lookup}
use freebsd_laboratory.PortLeases.{releasable, lock_error}
use freebsd_laboratory.PortLeases.Releases.{lease_names, release_ports-cases}
use freebsd_laboratory.Host
use freebsd_laboratory.Host.{Sys, file, FileCall, ◌>>=◌, ◌>>◌}
use freebsd_laboratory.Provisioner.Session.{Reservation, Session, Setting, act, update}
use freebsd_laboratory.Provisioner.Runtime.{
  destroy_runtime, release_tunnel_ports, release_reservation, remove_runtime_path, remove_local,
  destroy_remote,
}
use freebsd_laboratory.Provisioner.Launch.{recover, restore_and_forget, restore_connection}

-- The provisioner holds no ports and no runtime that it knows to be there, and has no address or
-- ports to put back.
pub record IsReset {W : Type 0} (s : Session W) : Type 0 where
  pub reservation : s.reservation ≡ none
  pub tunnel_ports : s.tunnel_ports ≡ []
  pub runtime_created : s.runtime_created ≡ false
  pub original_ip : s.original_ip ≡ none
  pub original_ports : s.original_ports ≡ []

-- It has no name, address, key or file of a runtime either.
pub record IsBlank {W : Type 0} (s : Session W) : Type 0 where
  pub runtime_name : s.runtime_name ≡ none
  pub guest_ip : s.guest_ip ≡ none
  pub known_hosts_file : s.known_hosts_file ≡ none
  pub ssh_private_key : s.ssh_private_key ≡ none

-- Whether a name is that of a lease of the reservation.
abbrev pub holds_lease : {W : Type 0} → Setting W → Option Reservation → Text → Bool
holds_lease setting none name = false
holds_lease setting (some r) name =
    releasable r.reserved.ports r.owner r.pid r.reserved.uid r.reserved.digest
    && member name (
        lease_names setting.ports.host.sha256 r.reserved.ports r.owner r.pid r.reserved.uid
          r.reserved.digest)

-- What follows for the session from the end of a call that recovers: the leases of its reservation are
-- gone, and the others are there.
pub record Recovered {W : Type 0} (setting : Setting W) (s t : Session W) (r : Result (Unit {0}))
    : Type 0 where
  pub reset : IsReset t
  pub leases :
      (name : Text)
      → lookup name t.leases
        ≡ (if holds_lease setting s.reservation name then none else lookup name s.leases)
  pub ending : ((r ≡ ok tt) × IsBlank t) ⊎ (r ≡ err os_error)

-- The recovery that stops because the lock of the leases does not open: the reservation is forgotten,
-- but its leases stay, and so do the name of the runtime and the flag that it is there.
pub record Stuck {W : Type 0} (setting : Setting W) (s t : Session W) (r : Result (Unit {0}))
    : Type 0 where
  pub ending : r ≡ err lock_error
  pub shut : setting.ports.lock_opens t.world ≡ false
  pub leases : t.leases ≡ s.leases
  pub reservation : t.reservation ≡ none
  pub runtime_name : t.runtime_name ≡ s.runtime_name
  pub runtime_created : t.runtime_created ≡ s.runtime_created
  pub original_ip : t.original_ip ≡ none
  pub original_ports : t.original_ports ≡ []

module _ {W : Type 0} (setting : Setting W) where
  release_reservation-cases :
      (o : Option Reservation) (opens : Bool) (leases : Dict Bool)
      → let e = release_reservation setting o opens leases in
        ((e.0 ≡ ok tt)
          × ((name : Text)
              → lookup name e.1
                ≡ (if holds_lease setting o name then none else lookup name leases)))
        ⊎ ((e.0 ≡ err lock_error) × (e.1 ≡ leases) × (opens ≡ false))
  unfolding release_reservation
  release_reservation-cases none opens leases = inl (refl, λ name. refl)
  release_reservation-cases (some r) opens leases =
      release_ports-cases setting.ports.host.sha256 r.reserved.ports r.owner r.pid r.reserved.uid
        r.reserved.digest opens leases

  -- Removing a path fails with OSError or not at all.
  Removes : Result (Unit {0}) → Type 0
  Removes r = (r ≡ ok tt) ⊎ (r ≡ err os_error)

  remove_runtime_path-Removes :
      (path : Text) (w : W) → Removes (remove_runtime_path setting path w).0
  unfolding Removes remove_runtime_path file
  remove_runtime_path-Removes path w =
      elim (Bool-cases (setting.net.host.is_symlink path w || setting.net.host.is_file path w)) [
        | inr other ↦ rw other (inl refl)
        | inl there ↦ elim (Bool-cases (setting.net.host.file_call (FileCall.unlink path) w).0) [
          | inl done ↦ rw (there, done) (inl refl)
          | inr failed ↦ rw (there, failed) (inr refl)
        ]
      ]

  remove_local-Removes : (name : Option Text) (w : W) → Removes (remove_local setting name w).0
  unfolding Removes remove_local
  remove_local-Removes none w = inl refl
  remove_local-Removes (some []) w = inl refl
  remove_local-Removes (some (c ∷ name)) w = remove_runtime_path-Removes _ w

  -- The session when the runtime's files have been removed, or not.
  abbrev dismantled : Session W → Dict Bool → W → Session W
  dismantled s leases w = record s {
    runtime_created = false;
    tunnel_ports = [];
    reservation = none;
    leases = leases;
    world = w;
  }

  abbrev blanked : Session W → Session W
  blanked s = record s {
    runtime_name = none;
    guest_ip = none;
    known_hosts_file = none;
    ssh_private_key = none;
  }

  dismantled-Recovered :
      (s : Session W) (leases : Dict Bool) (w : W) (r : Result (Unit {0}))
      → s.original_ip ≡ none
      → s.original_ports ≡ []
      → ((name : Text)
          → lookup name leases
            ≡ (if holds_lease setting s.reservation name then none else lookup name s.leases))
      → Removes r
      → Recovered setting s
          (Host.continue r (λ done t. (ok tt, blanked t)) (dismantled s leases w)).1
          (Host.continue r (λ done t. (ok tt, blanked t)) (dismantled s leases w)).0
  unfolding Removes
  dismantled-Recovered s leases w (ok done) ip ports gone h = record {
    reset = record {
      reservation = refl;
      tunnel_ports = refl;
      runtime_created = refl;
      original_ip = ip;
      original_ports = ports;
    };
    leases = gone;
    ending = inl (
      refl,
      record {
        runtime_name = refl;
        guest_ip = refl;
        known_hosts_file = refl;
        ssh_private_key = refl;
      },
    );
  }
  dismantled-Recovered s leases w (err e) ip ports gone h = record {
    reset = record {
      reservation = refl;
      tunnel_ports = refl;
      runtime_created = refl;
      original_ip = ip;
      original_ports = ports;
    };
    leases = gone;
    ending = inr (ground (arith, h));
  }

  destroy_runtime-Recovered :
      (s : Session W)
      → s.original_ip ≡ none
      → s.original_ports ≡ []
      → let e = destroy_runtime setting s in Recovered setting s e.1 e.0 ⊎ Stuck setting s e.1 e.0
  unfolding destroy_runtime release_tunnel_ports update act
  destroy_runtime-Recovered s ip ports =
      let x =
        release_reservation setting s.reservation (setting.ports.lock_opens s.world) s.leases in
      let w = destroy_remote setting s.runtime_created s.runtime_name s.world in
      elim (release_reservation-cases s.reservation (setting.ports.lock_opens s.world) s.leases) [
        | inl (released, gone) ↦ rw released (
            inl (
              dismantled-Recovered s x.1 (remove_local setting s.runtime_name w).1
                (remove_local setting s.runtime_name w).0 ip ports gone
                (remove_local-Removes s.runtime_name w)))
        | inr (failed, same, shut) ↦ rw failed (
            inr (record {
              ending = refl;
              shut = shut;
              leases = same;
              reservation = refl;
              runtime_name = refl;
              runtime_created = refl;
              original_ip = ip;
              original_ports = ports;
            }))
      ]

  destroy_runtime-document : (s : Session W) → (destroy_runtime setting s).1.document ≡ s.document
  unfolding destroy_runtime release_tunnel_ports update act
  destroy_runtime-document s =
      let w = destroy_remote setting s.runtime_created s.runtime_name s.world in
      elim (Result-cases
        (release_reservation setting s.reservation (setting.ports.lock_opens s.world) s.leases).0) [
          | inr (e, failed) ↦ rw failed refl
          | inl (u, released) ↦ elim (Result-cases (remove_local setting s.runtime_name w).0) [
            | inr (e, failed) ↦ rw (released, failed) refl
            | inl (v, removed) ↦ rw (released, removed) refl
          ]
        ]

  restore_and_forget-Keeps :
      (s : Session W)
      → let t = restore_and_forget setting s in
        (t.reservation ≡ s.reservation)
        × (t.leases ≡ s.leases)
        × (t.runtime_name ≡ s.runtime_name)
        × (t.runtime_created ≡ s.runtime_created)
  unfolding restore_and_forget restore_connection
  restore_and_forget-Keeps s = elim (Bool-cases setting.traits.has_parent) [
    | inl parent ↦ rw parent (refl, refl, refl, refl)
    | inr none_there ↦ rw none_there (refl, refl, refl, refl)
  ]

  -- How a recovery ends.
  abbrev pub Ended : Session W → Result (Unit {0}) × Session W → Type 0
  Ended s e = Recovered setting s e.1 e.0 ⊎ Stuck setting s e.1 e.0

  kept-Ended :
      (s t : Session W) (e : Result (Unit {0}) × Session W)
      → (t.reservation ≡ s.reservation)
        × (t.leases ≡ s.leases)
        × (t.runtime_name ≡ s.runtime_name)
        × (t.runtime_created ≡ s.runtime_created)
      → Ended t e
      → Ended s e
  kept-Ended s t e k (inl r) = inl (record {
    reset = r.reset;
    leases = λ name. rw (← k.0, ← k.1) (r.leases name);
    ending = r.ending;
  })
  kept-Ended s t e k (inr r) = inr (record {
    ending = r.ending;
    shut = r.shut;
    leases = r.leases ∙ k.1;
    reservation = r.reservation;
    runtime_name = r.runtime_name ∙ k.2;
    runtime_created = r.runtime_created ∙ k.3;
    original_ip = r.original_ip;
    original_ports = r.original_ports;
  })

  pub recover-Ended : (s : Session W) → Ended s (recover setting s)
  unfolding recover update restore_and_forget
  recover-Ended s =
      kept-Ended s (restore_and_forget setting s) _ (restore_and_forget-Keeps s)
        (destroy_runtime-Recovered (restore_and_forget setting s) refl refl)

  -- The recovery's document is the restored one.
  pub recover-document :
      (s : Session W) → (recover setting s).1.document ≡ (restore_and_forget setting s).document
  unfolding recover update
  recover-document s = destroy_runtime-document (restore_and_forget setting s)
