-- ===== src/Daemon/Isolation/Serve.antt =====
-- A whole request of one Unix user against the runtimes of the others.
use freebsd_laboratory.Base.{true, false, Option, none, some, ◌≢◌, arith}
use freebsd_laboratory.Base.Text.{Text, text}
use freebsd_laboratory.Base.Value.{str?, int?, bool?, str, bool, int}
use freebsd_laboratory.Base.Result.{Result, ok, err}
use freebsd_laboratory.Daemon.Config.{Manager, RuntimeRecord, PeerCredentials}
use freebsd_laboratory.Daemon.Access.{authorize_record}
use freebsd_laboratory.Daemon.State.{State, Daemon, ◌>>=◌, attempt}
use freebsd_laboratory.Daemon.Destroy.{destroy}
use freebsd_laboratory.Daemon.Gc.{gc}
use freebsd_laboratory.Daemon.Create.Jail.{create_jail}
use freebsd_laboratory.Daemon.Create.Bhyve.{create_bhyve}
use freebsd_laboratory.Daemon.Create.Bhyve.Effect.{CanRemove}
use freebsd_laboratory.Daemon.Handler.{
  Request, Line, handle, answer, dispatch, do_create_jail, do_create_bhyve, do_destroy, do_gc,
  decoded, required, default,
}
use freebsd_laboratory.Daemon.Isolation.{Keeps, destroy-Keeps}
use freebsd_laboratory.Daemon.Isolation.Collect.{continue-Keeps, gc-Keeps}
use freebsd_laboratory.Daemon.Isolation.Create.{create_jail-Keeps, create_bhyve-Keeps}

module _ {W : Type 0} (m : Manager W) (stem : Text) (r : RuntimeRecord) where
  -- A check leaves the registry alone, whatever it answers.
  after_check :
      {A B : Type 0} (c : Result A) (f : A → Daemon W B) (s : State W)
      → Keeps stem r s
      → ((a : A) → Keeps stem r (f a s).1)
      → Keeps stem r ((attempt c >>= f) s).1
  after_check (ok a) f s kept rest = rest a
  after_check (err e) f s kept rest = kept

  module _ (q : Request) (peer : PeerCredentials) (s : State W) (kept : Keeps stem r s) where
    do_create_jail-Keeps : Keeps stem r (do_create_jail m q peer s).1
    unfolding do_create_jail
    do_create_jail-Keeps =
        after_check (required "name must be a string" (str? q.name)) _ s kept λ name.
          after_check (required "owner_pid must be an integer process id" (int? q.owner_pid)) _ s
            kept
            λ pid.
              after_check (required "ssh_public_key must be a string" (str? q.ssh_public_key)) _ s
                kept
                λ key.
                  continue-Keeps stem r (create_jail m name (int pid) peer key s) _
                    (create_jail-Keeps m name stem r (int pid) peer key s kept) λ c t k. k

    do_create_bhyve-Keeps : CanRemove m → Keeps stem r (do_create_bhyve m q peer s).1
    unfolding do_create_bhyve
    do_create_bhyve-Keeps can =
        after_check (required "name must be a string" (str? q.name)) _ s kept λ name.
          after_check (required "owner_pid must be an integer process id" (int? q.owner_pid)) _ s
            kept
            λ pid.
              after_check (required "ssh_public_key must be a string" (str? q.ssh_public_key)) _ s
                kept
                λ key.
                  after_check
                    (required "profile must be a string"
                      (str? (default q.profile (str (text "freebsd-python")))))
                    _ s kept
                    λ profile.
                      continue-Keeps stem r (create_bhyve m name (int pid) peer key profile s) _
                        (create_bhyve-Keeps m name stem r (int pid) peer key profile s can kept)
                        λ c t k. k

    module _ (foreign : authorize_record r (some peer.uid) ≢ ok tt) where
      do_destroy-Keeps : Keeps stem r (do_destroy m q peer s).1
      unfolding do_destroy
      do_destroy-Keeps =
          after_check (required "name must be a string" (str? q.name)) _ s kept λ name.
            continue-Keeps stem r (destroy m name (some peer.uid) false s) _
              (destroy-Keeps m name stem (some peer.uid) r s foreign kept) λ c t k. k

      do_gc-Keeps : Keeps stem r (do_gc m q peer s).1
      unfolding do_gc
      do_gc-Keeps =
          after_check
            (required "stale_only must be boolean" (bool? (default q.stale_only (bool true)))) _ s
            kept
            λ stale_only.
              continue-Keeps stem r (gc m stale_only peer.uid s) _
                (gc-Keeps m stem r peer.uid stale_only s foreign kept) λ c t k. k

      dispatch-Keeps : CanRemove m → Keeps stem r (dispatch m q peer s).1
      unfolding dispatch
      dispatch-Keeps can = ground (
        arith,
        kept,
        do_create_jail-Keeps,
        do_create_bhyve-Keeps can,
        do_destroy-Keeps,
        do_gc-Keeps,
      )

answer-Keeps :
    {W : Type 0} (m : Manager W) (stem : Text) (r : RuntimeRecord) (q : Option Request)
    (peer : PeerCredentials) (s : State W)
    → Keeps stem r s
    → authorize_record r (some peer.uid) ≢ ok tt
    → CanRemove m
    → Keeps stem r (answer m q peer s).1
unfolding answer
answer-Keeps m stem r none peer s kept foreign can = kept
answer-Keeps m stem r (some q) peer s kept foreign can =
    continue-Keeps stem r (dispatch m q peer s) _
      (dispatch-Keeps m stem r q peer s kept foreign can) λ a t k. k

-- Whatever a peer sends, and however its request ends, the record of a runtime that the peer may
-- not destroy stays in the registry unchanged, on a host where a file that is there can be removed.
pub handle-Keeps :
    {W : Type 0} (m : Manager W) (stem : Text) (r : RuntimeRecord) (peer : PeerCredentials)
    (line : Line) (s : State W)
    → CanRemove m
    → authorize_record r (some peer.uid) ≢ ok tt
    → Keeps stem r s
    → Keeps stem r (handle m (ok peer) line s).1
unfolding handle
handle-Keeps m stem r peer line s can foreign kept =
    after_check m stem r (decoded m line) _ s kept
      λ q. answer-Keeps m stem r q peer s kept foreign can
