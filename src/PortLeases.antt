-- ===== src/PortLeases.antt =====
-- freebsd_laboratory/port_leases.py: the leases of local ports for SSH tunnels. The lease directory
-- maps file names to whether they are links, and a file that is there can be removed. A method is one
-- step under the file lock.
pub mod Reservation
pub mod Releases
pub mod Paths
pub mod Candidates
use freebsd_laboratory.Base.{
  ℕ, zero, suc, ◌+◌, ◌-◌, ◌%◌, ◌<◌, ◌≤◌, Bool, true, false, List, [], ◌∷◌, ◌++◌, Option, none, some,
  ◌≡◌, refl, not, ◌&&◌, ◌||◌, ◌==◌, if◌then◌else◌, is_nil, length, leb, ltb, map,
}
use freebsd_laboratory.Base.Int.{ℤ, pos, eq_ℤ, le_ℤ}
use freebsd_laboratory.Base.Text.{Text, text, eq_text, starts_with}
use freebsd_laboratory.Base.Split.{split_at}
use freebsd_laboratory.Base.Decimal.{decimal}
use freebsd_laboratory.Base.PythonInt.{int_of}
use freebsd_laboratory.Base.Dict.{Dict, lookup, insert, erase, keys}
use freebsd_laboratory.Base.Result.{Result, ok, err, Error, value_error, runtime_error, os_error}
use freebsd_laboratory.Host.{Host}
use freebsd_laboratory.Identity.{ProcessIdentity, query_process_identity, process_matches, int_text}

-- LocalPortLeasePool
pub record PortPool : Type 0 where
  pub start : ℕ
  pub end : ℕ

-- LocalPortLeasePool.__init__, of two integers
unfoldable pub port_pool : ℤ → ℤ → Result PortPool
port_pool (pos start) (pos end) =
    if leb 1024 start && leb start 65535 && leb 1024 end && leb end 65535 && leb start end
    then ok (record { start = start; end = end })
    else err (value_error "Invalid tunnel port range")
port_pool _ _ = err (value_error "Invalid tunnel port range")

unfoldable pub capacity : PortPool → ℕ
capacity pool = pool.end + 1 - pool.start

-- What the process asks of its system: who it is, whether a port can be bound and listened on,
-- whether a lease file can be created, the number that the digest of an owner begins with, and whether
-- the provisioned directory and its lock file open.
pub record System (W : Type 0) : Type 0 where
  pub host : Host W
  pub own_pid : ℤ
  pub own_uid : ℤ
  pub bindable : ℕ → Bool
  pub creatable : Text → Bool
  pub offset : Text → ℕ
  pub is_hex : Text → Bool
  pub lock_opens : W → Bool

-- `_candidate_ports` from an index on, for a number of rounds
unfoldable pub candidates_from : PortPool → ℕ → ℕ → ℕ → List ℕ
candidates_from pool offset index zero = []
candidates_from pool offset index (suc n) =
    (pool.start + (offset + index) % capacity pool) ∷ candidates_from pool offset (index + 1) n

-- {port}.{pid}.{uid}.{process_digest}.{owner_digest}.lease
unfoldable pub lease_path : ℕ → ℤ → ℤ → Text → Text → Text
unfolding text
lease_path port pid uid digest owner_digest =
    decimal port
    ++ (b'.' ∷ int_text pid
        ++ (b'.' ∷ int_text uid ++ (b'.' ∷ digest ++ (b'.' ∷ owner_digest ++ text ".lease"))))

valid_identity : (Text → Bool) → Option ℤ → Option ℤ → Text → Text → Option (ℤ × ℤ × Text)
valid_identity is_hex (some pid) (some uid) digest owner_digest =
    if le_ℤ 2 pid
      && le_ℤ 0 uid
      && length digest == 64
      && is_hex digest
      && length owner_digest == 64
      && is_hex owner_digest
    then some (pid, uid, digest)
    else none
valid_identity is_hex _ _ digest owner_digest = none

identity_of_parts : (Text → Bool) → ℕ → List Text → Option (ℤ × ℤ × Text)
unfolding text
identity_of_parts is_hex port (p ∷ pid ∷ uid ∷ digest ∷ owner_digest ∷ kind ∷ []) =
    if eq_text p (decimal port) && eq_text kind (text "lease")
    then valid_identity is_hex (int_of pid) (int_of uid) digest owner_digest
    else none
identity_of_parts is_hex port _ = none

-- `_lease_identity` of a name and whether it is a link
unfoldable pub lease_identity : (Text → Bool) → Text → Bool → ℕ → Option (ℤ × ℤ × Text)
unfolding identity_of_parts valid_identity
lease_identity is_hex name true port = none
lease_identity is_hex name false port = identity_of_parts is_hex port (split_at b'.' name)

ends_with_lease : Text → Bool
unfolding text
ends_with_lease [] = false
ends_with_lease (c ∷ s) = eq_text (c ∷ s) (text ".lease") || ends_with_lease s

-- self.directory.glob(f"{port}.*.lease")
unfoldable pub lease_paths : ℕ → Dict Bool → Dict Bool
unfolding ends_with_lease
lease_paths port [] = []
lease_paths port ((name, link) ∷ files) =
    let rest = lease_paths port files in
    if starts_with name (decimal port ++ b'.' ∷ [])
      && ends_with_lease (after (length (decimal port ++ b'.' ∷ [])) name)
    then (name, link) ∷ rest
    else rest
  where
    after : ℕ → Text → Text
    after zero s = s
    after (suc n) [] = []
    after (suc n) (c ∷ s) = after n s

unfoldable pub unlink_all : Dict Bool → Dict Bool → Dict Bool
unlink_all [] files = files
unlink_all ((name, link) ∷ paths) files = unlink_all paths (erase name files)

unfoldable pub unlink_names : List Text → Dict Bool → Dict Bool
unlink_names [] files = files
unlink_names (name ∷ names) files = unlink_names names (erase name files)

pub record Reserved : Type 0 where
  pub ports : List ℕ
  pub uid : ℤ
  pub digest : Text

-- How the loop over the candidates ends: enough ports, a failed write, or no more candidates;
-- with the ports, and the names of the leases that it made.
pub data Looped : Type 0 where
  enough short : List ℕ → List Text → Looped
  failed : Error → List Text → Looped

-- What `_locked` raises where the directory or its lock is not there.
abbrev pub lock_error : Error
lock_error = runtime_error "Tunnel lease directory must be provisioned by the host service" []

module _ {W : Type 0} (sys : System W) where
  -- Whether a lease of the port belongs to a live process.
  unfoldable pub is_leased : ℕ → Dict Bool → W → Bool × W
  is_leased port [] w = (false, w)
  is_leased port ((name, link) ∷ paths) w =
      let rest = is_leased port paths w in
      elim (lease_identity sys.is_hex name link port) [
        | none ↦ rest
        | some (pid, uid, digest) ↦
            let (live, w') = process_matches sys.host pid uid digest w in
            let later = is_leased port paths w' in if live then (true, w') else later
      ]

  -- `_write_lease`: O_CREAT | O_EXCL
  unfoldable pub write_lease : Text → Dict Bool → Result (Dict Bool)
  write_lease name files = elim (lookup name files) [
    | some link ↦ err os_error
    | none ↦ if sys.creatable name then ok (insert name false files) else err os_error
  ]

  -- One candidate that is free and bound: its stale leases go, and its own lease is written. The
  -- loop stops at `count` ports.
  unfoldable pub take_ports :
      ℕ
      → Text
      → ℤ
      → ProcessIdentity
      → List ℕ
      → List ℕ
      → List Text
      → Dict Bool
      → W
      → Looped × Dict Bool × W
  take_ports count owner pid identity [] ports names files w = (short ports names, files, w)
  take_ports count owner pid identity (port ∷ candidates) ports names files w =
      let (leased, w') = is_leased port (lease_paths port files) w in
      let name = lease_path port pid identity.uid identity.digest (sys.host.sha256 owner) in
      let cleared = unlink_all (lease_paths port files) files in
      let skipped = take_ports count owner pid identity candidates ports names files w' in
      elim (write_lease name cleared) [
        | err e ↦
            if leased || not (sys.bindable port) then skipped else (failed e names, cleared, w')
        | ok written ↦
            let more =
              take_ports count owner pid identity candidates (ports ++ port ∷ [])
                (names ++ name ∷ []) written w' in
            if leased || not (sys.bindable port)
            then skipped
            else if length ports + 1 == count
            then (enough (ports ++ port ∷ []) (names ++ name ∷ []), written, w')
            else more
      ]

  -- What follows the loop: unless there are enough ports, the leases that it made go again.
  unfoldable pub finish : ProcessIdentity → Looped × Dict Bool × W → Result Reserved × Dict Bool × W
  finish identity (enough ports names, files, w) =
      (ok (record { ports = ports; uid = identity.uid; digest = identity.digest }), files, w)
  finish identity (short ports names, files, w) =
      (err (runtime_error "Unable to reserve SSH tunnel ports" []), unlink_names names files, w)
  finish identity (failed e names, files, w) = (err e, unlink_names names files, w)

  unfoldable pub reserve :
      PortPool
      → Text
      → ℤ
      → ℕ
      → Option ProcessIdentity
      → Dict Bool
      → W
      → Result Reserved × Dict Bool × W
  unfolding finish
  reserve pool owner pid count none files w =
      (err (runtime_error "Unable to fingerprint tunnel port lease owner" []), files, w)
  reserve pool owner pid count (some identity) files w =
      let candidates = candidates_from pool (sys.offset owner % capacity pool) 0 (capacity pool) in
      let taken = finish identity (take_ports count owner pid identity candidates [] [] files w) in
      if not (eq_ℤ identity.uid sys.own_uid)
      then (err (runtime_error "Unable to fingerprint tunnel port lease owner" []), files, w)
      else if not (sys.lock_opens w)
      then (err lock_error, files, w)
      else taken

  -- `allocate`, for a count that is an integer of no negative sign
  unfoldable pub allocate :
      PortPool → Text → ℤ → ℕ → Dict Bool → W → Result Reserved × Dict Bool × W
  unfolding reserve
  allocate pool owner pid count files w =
      let (identity, w') = query_process_identity sys.host pid w in
      let reserved = reserve pool owner pid count identity files w' in
      if is_nil owner
      then (err (value_error "Tunnel port lease owner is required"), files, w)
      else if not (eq_ℤ pid sys.own_pid)
      then (err (value_error "Tunnel port lease PID must match the calling process"), files, w)
      else if leb count 0 || ltb (capacity pool) count
      then (err (value_error "Invalid tunnel port lease count"), files, w)
      else reserved

unfoldable pub unlink_ports : List ℕ → ℤ → ℤ → Text → Text → Dict Bool → Dict Bool
unlink_ports [] pid uid digest owner_digest files = files
unlink_ports (port ∷ ports) pid uid digest owner_digest files =
    unlink_ports ports pid uid digest owner_digest
      (erase (lease_path port pid uid digest owner_digest) files)

all_tcp : List ℕ → Bool
all_tcp [] = true
all_tcp (p ∷ ps) = leb 1024 p && leb p 65535 && all_tcp ps

-- The arguments that `release` does not ignore.
unfoldable pub releasable : List ℕ → Text → ℤ → ℤ → Text → Bool
unfolding all_tcp
releasable ports owner pid uid digest =
    not (is_nil ports || is_nil owner || not (le_ℤ 2 pid) || not (le_ℤ 0 uid) || is_nil digest)
    && all_tcp ports

-- `release`, of a list of integers, with whether the lock opens
unfoldable pub release_ports :
    (Text → Text) → List ℕ → Text → ℤ → ℤ → Text → Bool → Dict Bool → Result (Unit {0}) × Dict Bool
release_ports sha256 ports owner pid uid digest opens files =
    if not (releasable ports owner pid uid digest)
    then (ok tt, files)
    else if opens
    then (ok tt, unlink_ports ports pid uid digest (sha256 owner) files)
    else (err lock_error, files)
