-- ===== src/Provisioner/Document/Restored.antt =====
-- The connection document behind a failed launch.
use freebsd_laboratory.Base.{true, List, [], Option, none, some, ◌≡◌, inl, inr, refl, ap, ◌∙◌}
use freebsd_laboratory.Base.Int.{ℤ}
use freebsd_laboratory.Base.Text.{Text}
use freebsd_laboratory.Base.Result.{Result, ok, err, Error, Result-cases}
use freebsd_laboratory.Host
use freebsd_laboratory.Host.{Sys, ◌>>=◌, ◌>>◌}
use freebsd_laboratory.Evidence.Json.{Json, Members, str, get}
use freebsd_laboratory.Connection.{
  ip_key, validate_port_sequence, connection_ports, rewrite_document, restore_document,
  restored_ports, restored_ip,
}
use freebsd_laboratory.Connection.Ports.{restore_document-rewrite_document}
use freebsd_laboratory.Transport.{SshTransport}
use freebsd_laboratory.Provisioner.Session.{
  Session, Setting, act, outcome, on_exception, rescued, replaced,
}
use freebsd_laboratory.Provisioner.Launch.{
  prepared_first, recover, restore_and_forget, restore_connection, restored, original_ip_of,
  loopback, pre_launch, prepare, launch, connect, connect_ready, assert_supported,
  prepare_connection, wait, compose, set_up,
}
use freebsd_laboratory.Provisioner.Recovery.{recover-document}
use freebsd_laboratory.Provisioner.Document.{
  SameDocument, Five, Standing, connection_ports-Five, validate-Five, prepare_connection-Standing,
  Standing-Spares, set_up-Spares, wait-Spares, compose-Spares, Spares-bind,
}

restore_document-get :
    (ip bind k : Text) (before ports : List ℤ) (document : Members)
    → get ip_key document ≡ some (str ip)
    → connection_ports document ≡ ok before
    → Five before
    → Five ports
    → get k (restore_document (some ip) before (rewrite_document bind ports document))
      ≡ get k document
restore_document-get ip bind k before ports document hip hports (a, b, c, d, e, was)
      (a', b', c', d', e', now) =
    rw (was, now)
      (restore_document-rewrite_document ip bind k a b c d e a' b' c' d' e' document hip
        (hports ∙ ap ok was))

module _ {W : Type 0} (setting : Setting W) (ip : Text) (parent : setting.traits.has_parent ≡ true)
    (readable : (w : W) → setting.restorable w ≡ true)
    (writable : (w : W) → (setting.replace_document w).0 ≡ true) where
  -- A session whose document is to have the values of another's.
  abbrev Alike : Session W → Session W → Type 0
  Alike s t = (k : Text) → get k t.document ≡ get k s.document

  document-restore_and_forget :
      (t : Session W)
      → (restore_and_forget setting t).document
        ≡ restore_document t.original_ip t.original_ports t.document
  unfolding restore_and_forget restore_connection restored
  document-restore_and_forget t = rw (parent, readable t.world, writable t.world) refl

  restored_nothing :
      (s t : Session W)
      → s.original_ip ≡ none
      → s.original_ports ≡ []
      → SameDocument s t
      → restore_document t.original_ip t.original_ports t.document ≡ s.document
  unfolding restore_document restored_ports restored_ip validate_port_sequence
  restored_nothing s t hip hports (x, y, z) = rw (x, y, z, hip, hports) refl

  was_text :
      (parent_ip : Text) (o : Option Json)
      → o ≡ some (str ip)
      → original_ip_of setting parent_ip o ≡ ip
  unfolding original_ip_of
  was_text parent_ip o h = rw h refl

  restore_and_forget-Alike :
      (s t : Session W)
      → s.original_ip ≡ none
      → s.original_ports ≡ []
      → get ip_key s.document ≡ some (str ip)
      → Standing setting s t
      → Alike s (restore_and_forget setting t)
  restore_and_forget-Alike s t hip hports at (inl same) k =
      ap (get k) (document-restore_and_forget t ∙ restored_nothing s t hip hports same)
  restore_and_forget-Alike s t hip hports at (inr r) k =
      let same_ip : r.ip ≡ ip = r.was_ip ∙ was_text r.parent_ip (get ip_key s.document) at in
      ap (get k) (document-restore_and_forget t)
      ∙ rw (r.kept_ip, same_ip, r.kept_ports, r.written)
          (restore_document-get ip loopback k r.before r.ports s.document at r.was_ports
            (connection_ports-Five s.document r.before r.was_ports)
            (validate-Five r.given r.ports r.valid))

  -- A call whose exception is handled: where it raises, the document is as it was.
  rescued-Alike :
      {A : Type 0} (s : Session W) (x : Result A × Session W) (e : Error)
      → s.original_ip ≡ none
      → s.original_ports ≡ []
      → get ip_key s.document ≡ some (str ip)
      → Standing setting s x.1
      → (rescued x (recover setting)).0 ≡ err e
      → Alike s (rescued x (recover setting)).1
  unfolding rescued
  rescued-Alike {A} s (ok a, t) e hip hports at standing h k = absurd cc
  rescued-Alike {A} s (err before, t) e hip hports at standing h k =
      ap (get k) (replaced_session (recover setting t) ∙ recover-document setting t)
      ∙ restore_and_forget-Alike s t hip hports at standing k
    where
      replaced_session :
          (y : Result (Unit {0}) × Session W)
          → (replaced {A = A} (err before) y).1.document ≡ y.1.document
      replaced_session (ok done, u) = refl
      replaced_session (err other, u) = refl

  connect_body-Standing :
      (prepared : List Text) (t : SshTransport) (name : Text) (s : Session W)
      → Standing setting s
          ((prepare_connection setting name >>= λ ports.
              wait setting t >>= λ _. compose setting prepared t ports)
            s).1
  connect_body-Standing prepared t name s =
      elim (Result-cases (prepare_connection setting name s).0) [
        | inr (e, bad) ↦ rw bad (prepare_connection-Standing setting name s)
        | inl (ports, good) ↦ rw good (
            Standing-Spares setting s (prepare_connection setting name s).1 _
              (prepare_connection-Standing setting name s)
              ((Spares-bind (wait setting t) (λ done. compose setting prepared t ports)
                  (wait-Spares setting t) (λ done. compose-Spares setting prepared t ports)).same
                _))
      ]

  rescued-err :
      {A : Type 0} (before : Error) (y : Result (Unit {0}) × Session W) (a : A)
      → (replaced {A = A} (err before) y).0 ≡ ok a
      → ⊥
  unfolding replaced
  rescued-err before (ok done, u) a h = cc
  rescued-err before (err other, u) a h = cc

  module _ (prepared : List Text) (s : Session W) (e : Error) (hip : s.original_ip ≡ none)
      (hports : s.original_ports ≡ []) (at : get ip_key s.document ≡ some (str ip)) where
    -- The launch behind the set-up, for each end of the set-up.
    launched-Alike :
        (x : Result (SshTransport × Text) × Session W)
        → SameDocument s x.1
        → (Host.continue
            (rescued x (recover setting)).0
            (connect_ready setting prepared_first prepared)
            (rescued x (recover setting)).1).0
          ≡ err e
        → Alike s
            (Host.continue
              (rescued x (recover setting)).0
              (connect_ready setting prepared_first prepared)
              (rescued x (recover setting)).1).1
    unfolding rescued connect_ready connect on_exception
    launched-Alike (ok (t, name), u) (x, y, z) h k =
        rescued-Alike u
          ((prepare_connection setting name >>= λ ports.
              wait setting t >>= λ _. compose setting prepared t ports)
            u)
          e (x ∙ hip) (y ∙ hports) (ap (get ip_key) z ∙ at)
          (connect_body-Standing prepared t name u) h k
        ∙ ap (get k) z
    launched-Alike (err before, u) same h k =
        let r = replaced {A = SshTransport × Text} (err before) (recover setting u) in
        elim (Result-cases r.0) [
          | inl (ready, clash) ↦ absurd (rescued-err before (recover setting u) ready clash)
          | inr (d, bad) ↦ rw bad (
              rescued-Alike {A = SshTransport × Text} s (err before, u) d hip hports at (inl same)
                bad k)
        ]

    launch-Alike :
        (launch setting prepared_first prepared s).0 ≡ err e
        → Alike s (launch setting prepared_first prepared s).1
    unfolding launch on_exception
    launch-Alike = launched-Alike (set_up setting s) ((set_up-Spares setting).same s)

  -- A launch whose connection document is prepared before the wait for the guest ends leaves, when it
  -- fails, the value of every key of the connection document as it was. The document has an address,
  -- which is a text, the provisioner has nothing to restore yet, there is a parent, and the document
  -- can be read and replaced.
  pub pre_launch-Alike :
      (s : Session W) (e : Error)
      → s.original_ip ≡ none
      → s.original_ports ≡ []
      → get ip_key s.document ≡ some (str ip)
      → (pre_launch setting prepared_first s).0 ≡ err e
      → (k : Text) → get k (pre_launch setting prepared_first s).1.document ≡ get k s.document
  unfolding pre_launch prepare act outcome
  pre_launch-Alike s e hip hports at h = elim (Result-cases (assert_supported setting)) [
    | inr (d, bad) ↦ rw bad (λ k. refl)
    | inl (fine, good) ↦ elim (Result-cases (setting.super_pre_launch s.world).0) [
      | inr (d, bad) ↦ rw (good, bad) (λ k. refl)
      | inl (prepared, ready) ↦
          rw (good, ready)
            (launch-Alike prepared (record s { world = (setting.super_pre_launch s.world).1 }) e hip
              hports at (rw (good, ready) at h))
    ]
  ]
