-- ===== src/Daemon/Access.antt =====
-- Who may do what: `_owner_from_peer`, `_owner_alive`, `_authorize_record`, `_record_owned_by`.
use freebsd_laboratory.Base.{
  Bool, true, false, Option, none, some, ◌≡◌, ◌↔◌, ◌⊎◌, inl, inr, not, ◌&&◌, if◌then◌else◌, is_nil,
  arith, Bool-cases,
}
use freebsd_laboratory.Base.Int.{ℤ, pos, eq_ℤ, eq_ℤ_iff, le_ℤ}
use freebsd_laboratory.Base.Text.{Text}
use freebsd_laboratory.Base.Value.{
  Value, null, bool, int, real, str, array, object, int?, str?, eq_int, eq_str,
}
use freebsd_laboratory.Base.Result.{Result, ok, err, permission_error}
use freebsd_laboratory.Host.{Host, Sys}
use freebsd_laboratory.Identity.{ProcessIdentity, query_process_identity, process_matches}
use freebsd_laboratory.Daemon.Config.{PeerCredentials, RuntimeOwner, RuntimeRecord}
use freebsd_laboratory.Daemon.Names.{validate_owner_pid}

fingerprinted : PeerCredentials → Option ProcessIdentity → Result RuntimeOwner
fingerprinted peer none = err (permission_error "Unable to fingerprint authenticated peer process")
fingerprinted peer (some identity) =
    if not (eq_ℤ identity.uid peer.uid)
    then err (permission_error "Authenticated peer uid does not own pid")
    else ok (record {
      pid = peer.pid;
      uid = peer.uid;
      gid = peer.gid;
      started_at = identity.started_at;
      process_digest = identity.digest;
    })

module _ {W : Type 0} (host : Host W) where
  claimed : PeerCredentials → Result ℤ → Sys W RuntimeOwner
  claimed peer (err e) w = (err e, w)
  claimed peer (ok owner_pid) w =
      let (identity, w') = query_process_identity host peer.pid w in
      if not (eq_ℤ owner_pid peer.pid)
      then (err (permission_error "owner_pid does not match authenticated peer pid"), w)
      else (fingerprinted peer identity, w')

  unfoldable pub owner_from_peer : PeerCredentials → Value → Sys W RuntimeOwner
  unfolding claimed fingerprinted
  owner_from_peer peer requested_pid = claimed peer (validate_owner_pid requested_pid)

  -- The three recorded fields of the owner, where they have their types and ranges.
  alive_fields : Option ℤ → Option ℤ → Option Text → W → Bool × W
  alive_fields (some pid) (some uid) (some digest) w =
      if le_ℤ 2 pid && not (is_nil digest)
      then process_matches host pid uid digest w
      else (false, w)
  alive_fields _ _ _ w = (false, w)

  unfoldable pub owner_alive : RuntimeRecord → W → Bool × W
  unfolding alive_fields
  owner_alive r = alive_fields (int? r.owner_pid) (int? r.owner_uid) (str? r.owner_process_digest)

refused : Result (Unit {0})
refused = err (permission_error "Runtime is owned by another Unix user")

authorize_owner : Option ℤ → ℤ → Result (Unit {0})
authorize_owner none requester = refused
authorize_owner (some owner) requester = if eq_ℤ owner requester then ok tt else refused

unfoldable pub authorize_record : RuntimeRecord → Option ℤ → Result (Unit {0})
unfolding authorize_owner refused
authorize_record r none = err (permission_error "Runtime operation has no authenticated requester")
authorize_record r (some requester) =
    if not (le_ℤ 0 requester)
    then err (permission_error "Runtime operation has no authenticated requester")
    else if eq_ℤ requester (pos 0)
    then ok tt
    else authorize_owner (int? r.owner_uid) requester

unfoldable pub record_owned_by : RuntimeRecord → RuntimeOwner → Bool
record_owned_by r owner =
    eq_int r.owner_pid owner.pid
    && eq_int r.owner_uid owner.uid
    && eq_int r.owner_gid owner.gid
    && eq_str r.owner_process_digest owner.process_digest

authorize_owner_iff :
    (v : Value) (requester : ℤ) → (authorize_owner (int? v) requester ≡ ok tt) ↔ (v ≡ int requester)
unfolding authorize_owner refused
authorize_owner_iff (int i) requester =
    (λ h. ground (arith, eq_ℤ_iff i requester), λ h. ground (arith, eq_ℤ_iff i requester))
authorize_owner_iff null requester = (λ h. cc, λ h. cc)
authorize_owner_iff (bool b) requester = (λ h. cc, λ h. cc)
authorize_owner_iff (real m k) requester = (λ h. cc, λ h. cc)
authorize_owner_iff (str t) requester = (λ h. cc, λ h. cc)
authorize_owner_iff array requester = (λ h. cc, λ h. cc)
authorize_owner_iff object requester = (λ h. cc, λ h. cc)

authorized_cases :
    (r : RuntimeRecord) (requester : ℤ)
    → authorize_record r (some requester) ≡ ok tt
    → (requester ≡ pos 0) ⊎ ((le_ℤ 0 requester ≡ true) × (r.owner_uid ≡ int requester))
unfolding authorize_record
authorized_cases r requester h = elim (Bool-cases (eq_ℤ requester (pos 0))) [
  | inl root ↦ inl ((eq_ℤ_iff requester (pos 0)).0 root)
  | inr other ↦ inr (ground arith, (authorize_owner_iff r.owner_uid requester).0 (ground arith))
]

authorized_intro :
    (r : RuntimeRecord) (requester : ℤ)
    → (requester ≡ pos 0) ⊎ ((le_ℤ 0 requester ≡ true) × (r.owner_uid ≡ int requester))
    → authorize_record r (some requester) ≡ ok tt
unfolding authorize_record
authorized_intro r requester (inl e) = rw e
authorized_intro r requester (inr (p, e)) =
    ground (arith, (authorize_owner_iff r.owner_uid requester).1 e)

-- A requester passes exactly when it is root, or is not negative and is recorded, as an integer, as
-- the uid of the owner.
pub authorize_record_iff :
    (r : RuntimeRecord) (requester : ℤ)
    → (authorize_record r (some requester) ≡ ok tt)
      ↔ ((requester ≡ pos 0) ⊎ ((le_ℤ 0 requester ≡ true) × (r.owner_uid ≡ int requester)))
authorize_record_iff r requester = (authorized_cases r requester, authorized_intro r requester)

-- An owner is accepted only with the kernel's own pid, uid and gid of the peer, which asked for its
-- own pid and for no other.
pub owner_from_peer_sound :
    {W : Type 0} (host : Host W) (peer : PeerCredentials) (requested : Value) (w : W)
    (owner : RuntimeOwner)
    → (owner_from_peer host peer requested w).0 ≡ ok owner
    → (requested ≡ int peer.pid)
      × (le_ℤ 2 peer.pid ≡ true)
      × (owner.pid ≡ peer.pid)
      × (owner.uid ≡ peer.uid)
      × (owner.gid ≡ peer.gid)
unfolding owner_from_peer validate_owner_pid
owner_from_peer_sound host peer (int pid) w owner h = ground (arith, eq_ℤ_iff pid peer.pid)
owner_from_peer_sound host peer _ w owner h = cc
