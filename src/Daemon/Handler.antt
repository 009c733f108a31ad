-- ===== src/Daemon/Handler.antt =====
-- `RuntimeRequestHandler`: one request of a peer, read, dispatched and answered.
use freebsd_laboratory.Base.{ℕ, true, false, Option, none, some, if◌then◌else◌}
use freebsd_laboratory.Base.{leb}
use freebsd_laboratory.Base.Text.{text}
use Prim.Native.String.{String}
use freebsd_laboratory.Base.Value.{Value, str, bool, eq_str, str?, int?, bool?}
use freebsd_laboratory.Base.Result.{Result, ok, err, Error, value_error}
use freebsd_laboratory.Daemon.Config.{Manager, PeerCredentials}
use freebsd_laboratory.Daemon.State.{
  Ended, returned, raised, blocked, Daemon, pure, raise, attempt, ◌>>=◌,
}
use freebsd_laboratory.Daemon.Destroy.{Destroyed, destroy}
use freebsd_laboratory.Daemon.Create.Reply.{Created}
use freebsd_laboratory.Daemon.Create.Jail.{create_jail}
use freebsd_laboratory.Daemon.Create.Bhyve.{create_bhyve}
use freebsd_laboratory.Daemon.Gc.{Collected, gc}

-- A request object, by the keys that the handler reads. A missing key is `null`, as `request.get`
-- returns None for it; `none` is a missing key that has a default.
pub record Request : Type 0 where
  pub action : Value
  pub name : Value
  pub owner_pid : Value
  pub ssh_public_key : Value
  pub profile : Option Value
  pub stale_only : Option Value

-- What a successful request returns; `service` is the answer to a ping, which is a constant.
pub data Answer : Type 0 where
  service : Answer
  created : Created → Answer
  destroyed : Destroyed → Answer
  collected : Collected → Answer

-- What stands on the connection's first line, read up to one byte past the limit: nothing, a line
-- of that length that is no JSON document, one that is no object, or a request.
pub data Line : Type 0 where
  end_of_file : Line
  undecodable : ℕ → Line
  not_an_object : ℕ → Line
  request : ℕ → Request → Line

-- {"ok": true, "result": …} and {"ok": false, "error": …}; `silence` is no reply at all.
pub data Reply : Type 0 where
  silence : Reply
  success : Answer → Reply
  failure : Error → Reply

unfoldable pub max_request_bytes : ℕ
max_request_bytes = 65536

unfoldable pub required : {A : Type 0} → String → Option A → Result A
required message none = err (value_error message)
required message (some a) = ok a

unfoldable pub default : Option Value → Value → Value
default none d = d
default (some v) d = v

module _ {W : Type 0} (m : Manager W) where
  unfoldable pub do_create_jail : Request → PeerCredentials → Daemon W Answer
  unfolding required
  do_create_jail q peer = do
    name ← attempt (required "name must be a string" (str? q.name))
    owner_pid ← attempt (required "owner_pid must be an integer process id" (int? q.owner_pid))
    key ← attempt (required "ssh_public_key must be a string" (str? q.ssh_public_key))
    c ← create_jail m name (Value.int owner_pid) peer key
    pure (created c)

  unfoldable pub do_create_bhyve : Request → PeerCredentials → Daemon W Answer
  unfolding required default text
  do_create_bhyve q peer = do
    name ← attempt (required "name must be a string" (str? q.name))
    owner_pid ← attempt (required "owner_pid must be an integer process id" (int? q.owner_pid))
    key ← attempt (required "ssh_public_key must be a string" (str? q.ssh_public_key))
    profile ← attempt (
        required "profile must be a string"
          (str? (default q.profile (str (text "freebsd-python")))))
    c ← create_bhyve m name (Value.int owner_pid) peer key profile
    pure (created c)

  unfoldable pub do_destroy : Request → PeerCredentials → Daemon W Answer
  unfolding required
  do_destroy q peer = do
    name ← attempt (required "name must be a string" (str? q.name))
    d ← destroy m name (some peer.uid) false
    pure (destroyed d)

  unfoldable pub do_gc : Request → PeerCredentials → Daemon W Answer
  unfolding required default
  do_gc q peer = do
    stale_only ←
        attempt (required "stale_only must be boolean" (bool? (default q.stale_only (bool true))))
    c ← gc m stale_only peer.uid
    pure (collected c)

  unfoldable pub dispatch : Request → PeerCredentials → Daemon W Answer
  unfolding text
  dispatch q peer =
      if eq_str q.action (text "ping")
      then pure service
      else if eq_str q.action (text "create-jail")
      then do_create_jail q peer
      else if eq_str q.action (text "create-bhyve")
      then do_create_bhyve q peer
      else if eq_str q.action (text "destroy")
      then do_destroy q peer
      else if eq_str q.action (text "gc")
      then do_gc q peer
      else raise (value_error "unsupported runtime action")

  -- The request behind the size limit.
  unfoldable pub decoded : Line → Result (Option Request)
  decoded end_of_file = ok none
  decoded (undecodable n) =
      if leb n max_request_bytes
      then err (value_error "request is not a JSON document")
      else err (value_error "request exceeded size limit")
  decoded (not_an_object n) =
      if leb n max_request_bytes
      then err (value_error "request must be an object")
      else err (value_error "request exceeded size limit")
  decoded (request n q) =
      if leb n max_request_bytes
      then ok (some q)
      else err (value_error "request exceeded size limit")

  unfoldable pub answer : Option Request → PeerCredentials → Daemon W (Option Answer)
  answer none peer = pure none
  answer (some q) peer = dispatch q peer >>= λ a. pure (some a)

  unfoldable pub reply : Ended (Option Answer) → Ended Reply
  reply (returned none) = returned silence
  reply (returned (some a)) = returned (success a)
  reply (raised e) = returned (failure e)
  reply blocked = blocked

  -- `handle`: a peer without credentials, and every exception, gets an error reply.
  unfoldable pub handle : Result PeerCredentials → Line → Daemon W Reply
  unfolding answer reply
  handle credentials line s =
      let (r, s') =
        (attempt credentials >>= λ peer. attempt (decoded line) >>= λ q. answer q peer) s in
      (reply r, s')
