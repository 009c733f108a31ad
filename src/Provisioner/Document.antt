-- ===== src/Provisioner/Document.antt =====
-- The connection document through a launch.
pub mod Restored
use freebsd_laboratory.Base.{
  Bool, true, false, List, [], ◌∷◌, Option, none, some, ◌≡◌, ◌⊎◌, inl, inr, refl, ap, ◌∙◌, sym,
  arith, Bool-cases, if◌then◌else◌, map, length, suc,
}
use freebsd_laboratory.Base.Int.{ℤ, pos}
use freebsd_laboratory.Base.Text.{Text}
use freebsd_laboratory.Base.Result.{Result, ok, err, Error, os_error, Result-cases}
use freebsd_laboratory.Host
use freebsd_laboratory.Host.{Sys, ◌>>=◌, ◌>>◌}
use freebsd_laboratory.Evidence.Json.{Json, Members, str, get}
use freebsd_laboratory.Connection.{
  ip_key, read_ports, valid_port, connection_port_fields, connection_ports, tunnel_ports,
  validate_port_sequence, rewrite_document, restore_document,
}
use freebsd_laboratory.Connection.Ports.{
  prepend_sound, unique_ports_sound, restore_document-rewrite_document,
}
use freebsd_laboratory.PortLeases
use freebsd_laboratory.PortLeases.{PortPool, Reserved, port_pool}
use freebsd_laboratory.Transport.{SshTransport}
use freebsd_laboratory.Provisioner.Session.{
  Session, Setting, Prov, Reservation, act, outcome, update, on_exception, rescued, replaced,
}
use freebsd_laboratory.Provisioner.Runtime.{create_runtime, transport}
use freebsd_laboratory.Provisioner.Launch.{
  Order, prepared_first, recover, restore_and_forget, restore_connection, pre_launch, launch,
  prepare, connect, connect_ready, prepare_connection, prepare_in, rewrite_for, keep_and_release,
  rewrite_connection, read_and_write, write_and_return, write_rewriting, read_rewriting,
  rewriting_of, Rewriting, original_ip_of, loopback, keep_rewriting, keep_reservation,
  release_cached_ports, reserve_ports, wait, compose, set_up,
}

-- The document, and what is kept to restore it, are as in another session.
abbrev pub SameDocument : {W : Type 0} → Session W → Session W → Type 0
SameDocument s t =
    (t.original_ip ≡ s.original_ip)
    × (t.original_ports ≡ s.original_ports)
    × (t.document ≡ s.document)

-- An action that leaves them alone.
pub record Spares {W A : Type 0} (m : Prov W A) : Type 0 where
  pub same : (s : Session W) → SameDocument s (m s).1

pub Spares-bind :
    {W A B : Type 0} (m : Prov W A) (f : A → Prov W B)
    → Spares m
    → ((a : A) → Spares (f a))
    → Spares (m >>= f)
Spares-bind {W} {A} {B} m f first rest = record { same = λ s. go s (m s).0 (m s).1 (first.same s) }
  where
    go :
        (s : Session W) (r : Result A) (t : Session W)
        → SameDocument s t
        → SameDocument s (Host.continue r f t).1
    go s (err e) t h = h
    go s (ok a) t (x, y, z) = let h = (rest a).same t in (h.0 ∙ x, h.1 ∙ y, h.2 ∙ z)

Spares-act : {W A : Type 0} (m : Sys W A) → Spares (act m)
unfolding act
Spares-act m = record { same = λ s. (refl, refl, refl) }

Spares-outcome : {W A : Type 0} (r : Result A) → Spares {W = W} (outcome r)
unfolding outcome
Spares-outcome r = record { same = λ s. (refl, refl, refl) }

Spares-pure : {W A : Type 0} (a : A) → Spares {W = W} (Host.pure a)
Spares-pure a = record { same = λ s. (refl, refl, refl) }

Spares-read : {W A : Type 0} (g : Session W → Result A) → Spares (λ (s : Session W). (g s, s))
Spares-read g = record { same = λ s. (refl, refl, refl) }

Spares-update :
    {W : Type 0} (f : Session W → Session W)
    → ((s : Session W) → SameDocument s (f s))
    → Spares (update f)
unfolding update
Spares-update f h = record { same = h }

-- Five ports, as a connection document has them.
abbrev pub Five : List ℤ → Type 0
Five ps = (a : ℤ) × (b : ℤ) × (c : ℤ) × (d : ℤ) × (e : ℤ) × (ps ≡ a ∷ b ∷ c ∷ d ∷ e ∷ [])

length-read_ports :
    (fields : List Text) (d : Members) (ps : List ℤ)
    → read_ports fields d ≡ ok ps
    → length ps ≡ length fields
unfolding read_ports
length-read_ports [] d ps h = ground (arith, h)
length-read_ports (f ∷ fields) d ps h =
    let q = prepend_sound (valid_port f (get f d)) (read_ports fields d) ps h in
    rw q.4 (ap suc (length-read_ports fields d q.1 q.3))

length-Five : (ps : List ℤ) → length ps ≡ 5 → Five ps
length-Five (a ∷ b ∷ c ∷ d ∷ e ∷ []) h = (a, b, c, d, e, refl)
length-Five [] h = absurd (omega (arith, h))
length-Five (a ∷ []) h = absurd (omega (arith, h))
length-Five (a ∷ b ∷ []) h = absurd (omega (arith, h))
length-Five (a ∷ b ∷ c ∷ []) h = absurd (omega (arith, h))
length-Five (a ∷ b ∷ c ∷ d ∷ []) h = absurd (omega (arith, h))
length-Five (a ∷ b ∷ c ∷ d ∷ e ∷ f ∷ ps) h = absurd (omega (arith, h))

pub connection_ports-Five : (d : Members) (ps : List ℤ) → connection_ports d ≡ ok ps → Five ps
unfolding connection_ports connection_port_fields
connection_ports-Five d ps h = length-Five ps (
    length-read_ports connection_port_fields d ps
      (unique_ports_sound (read_ports connection_port_fields d) ps h))

pub validate-Five : (given ps : List ℤ) → validate_port_sequence given ≡ ok ps → Five ps
unfolding validate_port_sequence
validate-Five (a ∷ b ∷ c ∷ d ∷ e ∷ []) ps h = connection_ports-Five _ ps h
validate-Five [] ps h = absurd cc
validate-Five (a ∷ []) ps h = absurd cc
validate-Five (a ∷ b ∷ []) ps h = absurd cc
validate-Five (a ∷ b ∷ c ∷ []) ps h = absurd cc
validate-Five (a ∷ b ∷ c ∷ d ∷ []) ps h = absurd cc
validate-Five (a ∷ b ∷ c ∷ d ∷ e ∷ f ∷ given) ps h = absurd cc

module _ {W : Type 0} (setting : Setting W) where
  create_runtime-Spares : Spares (create_runtime setting)
  unfolding create_runtime
  create_runtime-Spares = Spares-bind _ _ (Spares-outcome _) λ name.
      Spares-bind _ _ (Spares-update _ (λ s. (refl, refl, refl))) λ a.
        Spares-bind _ _ (Spares-act _) λ b.
          Spares-bind _ _ (Spares-update _ (λ s. (refl, refl, refl))) λ c.
            Spares-bind _ _ (Spares-act _) λ key.
              Spares-bind _ _ (Spares-update _ (λ s. (refl, refl, refl))) λ d.
                Spares-bind _ _ (Spares-act _) λ result.
                  Spares-bind _ _ (Spares-update _ (λ s. (refl, refl, refl))) λ e.
                    Spares-bind _ _ (Spares-outcome _)
                      λ ip. Spares-update _ (λ s. (refl, refl, refl))

  pub set_up-Spares : Spares (set_up setting)
  unfolding set_up transport
  set_up-Spares = Spares-bind _ _ create_runtime-Spares λ made. Spares-bind _ _ (Spares-read _) λ t.
      Spares-bind _ _ (Spares-act _)
        λ available. Spares-bind _ _ (Spares-read _) λ name. Spares-pure _

  pub wait-Spares : (t : SshTransport) → Spares (wait setting t)
  unfolding wait
  wait-Spares t = Spares-act _

  pub compose-Spares :
      (prepared : List Text) (t : SshTransport) (ports : List ℤ)
      → Spares (compose setting prepared t ports)
  unfolding compose
  compose-Spares prepared t ports =
      Spares-bind _ _ (Spares-act _)
        λ remote. Spares-bind _ _ (Spares-outcome _) λ kernel_command. Spares-outcome _

  reserve_ports-Spares : (name : Text) (pool : PortPool) → Spares (reserve_ports setting name pool)
  unfolding reserve_ports
  reserve_ports-Spares name pool = record { same = λ s. (refl, refl, refl) }

  -- The document was rewritten, and what it had is kept.
  pub record IsRewritten (document : Members) (t : Session W) : Type 0 where
    pub ip : Text
    pub parent_ip : Text
    pub before : List ℤ
    pub given : List ℤ
    pub ports : List ℤ
    pub kept_ip : t.original_ip ≡ some ip
    pub kept_ports : t.original_ports ≡ before
    pub written : t.document ≡ rewrite_document loopback ports document
    pub was_ip : ip ≡ original_ip_of setting parent_ip (get ip_key document)
    pub was_ports : connection_ports document ≡ ok before
    pub valid : validate_port_sequence given ≡ ok ports

  abbrev pub Standing : Session W → Session W → Type 0
  Standing s t = SameDocument s t ⊎ IsRewritten s.document t

  rewriting_of_sound :
      (ip : Text) (before ports : Result (List ℤ)) (r : Rewriting)
      → rewriting_of ip before ports ≡ ok r
      → (r.ip ≡ ip) × (before ≡ ok r.before) × (ports ≡ ok r.ports)
  unfolding rewriting_of
  rewriting_of_sound ip (ok b) (ok p) r h = ground (arith, h)
  rewriting_of_sound ip (ok b) (err e) r h = absurd cc
  rewriting_of_sound ip (err e) p r h = absurd cc

  write-Standing :
      (given : List ℤ) (r : Rewriting) (s : Session W)
      → read_rewriting setting given s ≡ ok r
      → Standing s ((write_and_return setting r >>= keep_and_release setting) s).1
  unfolding write_and_return write_rewriting keep_and_release keep_rewriting release_cached_ports
      update read_rewriting tunnel_ports
  write-Standing given r s h =
      let read =
        rewriting_of_sound (original_ip_of setting s.parent_ip (get ip_key s.document))
          (connection_ports s.document) (validate_port_sequence given) r h in
      elim (Bool-cases (setting.replace_document s.world).0) [
        | inr failed ↦ rw failed (inl (refl, refl, refl))
        | inl done ↦ rw done (
            inr (record {
              ip = r.ip;
              parent_ip = s.parent_ip;
              before = r.before;
              given = given;
              ports = r.ports;
              kept_ip = refl;
              kept_ports = refl;
              written = refl;
              was_ip = read.0;
              was_ports = read.1;
              valid = read.2;
            }))
      ]

  read-Standing :
      (given : List ℤ) (s : Session W)
      → Standing s ((read_and_write setting given tt >>= keep_and_release setting) s).1
  unfolding read_and_write
  read-Standing given s = elim (Result-cases (read_rewriting setting given s)) [
    | inr (e, bad) ↦ rw bad (inl (refl, refl, refl))
    | inl (r, good) ↦ rw good (write-Standing given r s good)
  ]

  rewrite_for-Standing :
      (name : Text) (reserved : Reserved) (s : Session W)
      → Standing s (rewrite_for setting name reserved s).1
  unfolding rewrite_for rewrite_connection keep_reservation update act
  rewrite_for-Standing name reserved s = elim (Result-cases (setting.rewritable s.world)) [
    | inr (e, bad) ↦ rw bad (inl (refl, refl, refl))
    | inl (fine, good) ↦ rw good (read-Standing (map pos reserved.ports) _)
  ]

  prepare_in-Standing :
      (name : Text) (pool : PortPool) (s : Session W)
      → Standing s (prepare_in setting name pool s).1
  unfolding prepare_in reserve_ports
  prepare_in-Standing name pool s =
      let a = PortLeases.allocate setting.ports pool name setting.traits.pid 5 s.leases s.world in
      elim (Result-cases a.0) [
        | inr (e, bad) ↦ rw bad (inl (refl, refl, refl))
        | inl (reserved, good) ↦ rw good (rewrite_for-Standing name reserved _)
      ]

  pub prepare_connection-Standing :
      (name : Text) (s : Session W) → Standing s (prepare_connection setting name s).1
  unfolding prepare_connection outcome
  prepare_connection-Standing name s =
      elim (Result-cases
        (port_pool setting.traits.tunnel_port_start setting.traits.tunnel_port_end)) [
          | inr (e, bad) ↦ rw bad (inl (refl, refl, refl))
          | inl (pool, good) ↦ rw good (prepare_in-Standing name pool s)
        ]

  pub Standing-Spares : (s t u : Session W) → Standing s t → SameDocument t u → Standing s u
  Standing-Spares s t u (inl (x, y, z)) (x', y', z') = inl (x' ∙ x, y' ∙ y, z' ∙ z)
  Standing-Spares s t u (inr r) (x', y', z') = inr (record {
    ip = r.ip;
    parent_ip = r.parent_ip;
    before = r.before;
    given = r.given;
    ports = r.ports;
    kept_ip = x' ∙ r.kept_ip;
    kept_ports = y' ∙ r.kept_ports;
    written = z' ∙ r.written;
    was_ip = r.was_ip;
    was_ports = r.was_ports;
    valid = r.valid;
  })
