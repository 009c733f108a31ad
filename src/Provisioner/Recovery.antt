-- ===== src/Provisioner/Recovery.antt =====
-- What a failed launch and a cleanup leave behind.
pub mod Ends
use freebsd_laboratory.Base.{
  if◌then◌else◌, false, List, [], ◌∷◌, Option, none, some, ◌≡◌, ◌⊎◌, inl, inr, ◌∙◌, ◌||◌, arith,
  Bool-cases,
}
use freebsd_laboratory.Base.Text.{Text}
use freebsd_laboratory.Base.Result.{Result, ok, err, Error, os_error}
use freebsd_laboratory.Base.Dict.{lookup}
use freebsd_laboratory.PortLeases.{lock_error}
use freebsd_laboratory.Host
use freebsd_laboratory.Host.{Sys, file, FileCall, ◌>>=◌, ◌>>◌}
use freebsd_laboratory.Transport.{SshTransport}
use freebsd_laboratory.Provisioner.Session.{
  Session, Setting, Prov, act, outcome, update, on_exception, rescued, replaced,
}
use freebsd_laboratory.Provisioner.Runtime.{
  destroy_runtime, release_tunnel_ports, release_reservation, remove_runtime_path, remove_local,
  destroy_remote,
}
use freebsd_laboratory.Provisioner.Launch.{
  prepared_first, recover, restore_and_forget, restore_connection, pre_launch, connect,
  launch_kernel, set_up, launch, prepare, connect_ready, assert_supported,
}
pub use freebsd_laboratory.Provisioner.Recovery.Ends.{
  IsReset, IsBlank, Recovered, Stuck, holds_lease, Ended, recover-Ended, recover-document,
}

-- What an end of a recovery says, where it returned and where it raised.
abbrev End : Result (Unit {0}) → Type 0 → Type 0
End r Blank = ((r ≡ ok tt) × Blank) ⊎ (r ≡ err os_error)

not_raised : (done : Unit {0}) (e : Error) → (let r : Result (Unit {0}) = ok done in r ≡ err e) → ⊥
not_raised done e h = absurd cc

raised_same : (d e : Error) → (let r : Result (Unit {0}) = err d in r ≡ err e) → d ≡ e
raised_same d e h = ground (arith, h)

done_anyway : {W : Type 0} (t : Session W) (done : Unit {0}) → End (ok done) (IsBlank t) → IsBlank t
done_anyway t done (inl (same, blank)) = blank
done_anyway t done (inr clash) = absurd (not_raised done os_error clash)

raised_os : {W : Type 0} (t : Session W) (e : Error) → End (err e) (IsBlank t) → e ≡ os_error
raised_os t e (inl (clash, blank)) = absurd cc
raised_os t e (inr same) = raised_same e os_error same

module _ {W : Type 0} (setting : Setting W) where
  -- How a call that failed, and recovered, leaves the session: reset, and blank unless the error is the
  -- OSError of removing the runtime's files; or the error is that the lock of the leases does not open.
  abbrev pub Failed : Error → Session W → Type 0
  Failed e t =
      IsReset t × (IsBlank t ⊎ (e ≡ os_error))
      ⊎ ((e ≡ lock_error)
          × (setting.ports.lock_opens t.world ≡ false)
          × (t.reservation ≡ none)
          × (t.original_ip ≡ none)
          × (t.original_ports ≡ []))

  replaced-Failed :
      {A : Type 0} (s : Session W) (before : Error) (x : Result (Unit {0}) × Session W) (e : Error)
      → Ended setting s x
      → (replaced {A = A} (err before) x).0 ≡ err e
      → Failed e (replaced {A = A} (err before) x).1
  unfolding replaced
  replaced-Failed s before (ok done, t) e (inl r) h =
      inl (r.reset, inl (done_anyway t done r.ending))
  replaced-Failed s before (err other, t) e (inl r) h =
      inl (r.reset, inr (ground (arith, raised_os t other r.ending, h)))
  replaced-Failed s before (ok done, t) e (inr r) h = absurd (not_raised done lock_error r.ending)
  replaced-Failed s before (err other, t) e (inr r) h = inr (
    ground (arith, raised_same other lock_error r.ending, h),
    r.shut,
    r.reservation,
    r.original_ip,
    r.original_ports,
  )

  rescued-Failed :
      {A : Type 0} (x : Result A × Session W) (e : Error)
      → (rescued x (recover setting)).0 ≡ err e
      → Failed e (rescued x (recover setting)).1
  unfolding rescued
  rescued-Failed (ok a, t) e h = absurd cc
  rescued-Failed (err before, t) e h =
      replaced-Failed t before (recover setting t) e (recover-Ended setting t) h

  continue-Failed :
      {A B : Type 0} (r : Result A) (f : A → Prov W B) (t : Session W) (e : Error)
      → (r ≡ err e → Failed e t)
      → ((a : A) → (f a t).0 ≡ err e → Failed e (f a t).1)
      → (Host.continue r f t).0 ≡ err e
      → Failed e (Host.continue r f t).1
  continue-Failed (ok a) f t e start rest h = rest a h
  continue-Failed (err d) f t e start rest h = start (ground (arith, h))

  connect-Failed :
      (prepared : List Text) (t : SshTransport) (name : Text) (s : Session W) (e : Error)
      → (connect setting prepared_first prepared t name s).0 ≡ err e
      → Failed e (connect setting prepared_first prepared t name s).1
  unfolding connect on_exception
  connect-Failed prepared t name s e h = rescued-Failed _ e h

  launch-Failed :
      (prepared : List Text) (s : Session W) (e : Error)
      → (launch setting prepared_first prepared s).0 ≡ err e
      → Failed e (launch setting prepared_first prepared s).1
  unfolding launch on_exception connect_ready
  launch-Failed prepared s e =
      let x = rescued (set_up setting s) (recover setting) in
      continue-Failed x.0 (connect_ready setting prepared_first prepared) x.1 e
        (rescued-Failed (set_up setting s) e) (λ (t, name). connect-Failed prepared t name x.1 e)

  -- A launch whose connection document is prepared before the wait for the guest ends leaves, when it
  -- fails, a provisioner that was blank before without a reservation, tunnel ports, a runtime or
  -- anything to restore; and it is blank again unless the error is an OSError, which the removal of
  -- the runtime's files may raise. The one exception is that the error is the RuntimeError of the lock
  -- of the leases, which does not open: then the reservation is forgotten, and there is nothing to restore.
  pub pre_launch-Failed :
      (s : Session W) (e : Error)
      → IsReset s
      → IsBlank s
      → (pre_launch setting prepared_first s).0 ≡ err e
      → Failed e (pre_launch setting prepared_first s).1
  unfolding pre_launch prepare act outcome
  pre_launch-Failed s e reset blank h =
      let w = setting.super_pre_launch s.world in
      let u : Session W = record s { world = w.1 } in
      let still : IsReset u = record {
        reservation = reset.reservation;
        tunnel_ports = reset.tunnel_ports;
        runtime_created = reset.runtime_created;
        original_ip = reset.original_ip;
        original_ports = reset.original_ports;
      } in
      let empty : IsBlank u = record {
        runtime_name = blank.runtime_name;
        guest_ip = blank.guest_ip;
        known_hosts_file = blank.known_hosts_file;
        ssh_private_key = blank.ssh_private_key;
      } in
      continue-Failed (assert_supported setting) (prepare setting prepared_first) s e
        (λ bad. inl (reset, inl blank))
        (λ passed.
          continue-Failed w.0 (launch setting prepared_first) u e (λ bad. inl (still, inl empty))
            (λ prepared. launch-Failed prepared u e))
        h

  -- A kernel that fails to launch leaves the provisioner as a launch that fails does.
  pub launch_kernel-Failed :
      (argv : List Text) (s : Session W) (e : Error)
      → (launch_kernel setting argv s).0 ≡ err e
      → Failed e (launch_kernel setting argv s).1
  unfolding launch_kernel on_exception update
  launch_kernel-Failed argv s e h = rescued-Failed _ e h

  -- How a cleanup ends, of which the cleanup that it extends ends with `r`.
  abbrev pub Cleaned : Session W → Result (Unit {0}) → Result (Unit {0}) × Session W → Type 0
  Cleaned s r e =
      IsReset e.1
        × ((name : Text)
            → lookup name e.1.leases
              ≡ (if holds_lease setting s.reservation name then none else lookup name s.leases))
        × (((e.0 ≡ r) × IsBlank e.1) ⊎ (e.0 ≡ err os_error))
      ⊎ Stuck setting s e.1 e.0
