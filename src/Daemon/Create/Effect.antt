-- ===== src/Daemon/Create/Effect.antt =====
-- What a create request changes, whichever way it ends, and the steps that both kinds share.
use freebsd_laboratory.Base.{
  ℕ, Bool, true, false, List, [], ◌∷◌, ◌++◌, none, some, ◌≡◌, refl, sym, ◌∙◌, ap, inl, inr, arith,
  ◌⊎◌, if◌then◌else◌, Bool-cases,
}
use freebsd_laboratory.Base.Text.{Text, eq_text, eq_text_refl, eq_text_iff, member}
use freebsd_laboratory.Base.Value.{str, int}
use freebsd_laboratory.Base.Dict.{insert, lookup, lookup-insert}
use freebsd_laboratory.Base.Result.{Result-cases}
use freebsd_laboratory.Addresses.{lease, allocate}
use freebsd_laboratory.Addresses.Allocation.{allocate-IsGrant}
use freebsd_laboratory.Base.Ipv4.{address_text}
use freebsd_laboratory.Daemon.Config.{Manager, RuntimeRecord, PeerCredentials}
use freebsd_laboratory.Daemon.State.{
  State, document, Ended, returned, raised, blocked, continue, Daemon, lift, ◌>>=◌, ◌>>◌, unlock,
  release_name,
}
use freebsd_laboratory.Daemon.Rules.{bind-intro, Quiet}
use freebsd_laboratory.Daemon.Destroy.{destroy, release_lease}
use freebsd_laboratory.Daemon.Network.{
  allocate_address, take_lease, refuse_host_address, given_back, ensure_bridge, command_unchecked,
}
use freebsd_laboratory.Daemon.Reconcile.{handle_failure}
use freebsd_laboratory.Daemon.Reconcile.Effect.{destroy-blocked}
use freebsd_laboratory.Daemon.Create.Reply.{Created}

-- The record carries the peer's kernel credentials as its owner.
abbrev pub Owned : Text → PeerCredentials → RuntimeRecord → Type 0
Owned name peer r =
    (r.name ≡ str name)
    × (r.owner_pid ≡ int peer.pid)
    × (r.owner_uid ≡ int peer.uid)
    × (r.owner_gid ≡ int peer.gid)

-- The fields that identify a record, which the steps after the first write leave alone.
abbrev pub SameOwner : RuntimeRecord → RuntimeRecord → Type 0
SameOwner r b =
    (b.name ≡ r.name)
    × (b.owner_pid ≡ r.owner_pid)
    × (b.owner_uid ≡ r.owner_uid)
    × (b.owner_gid ≡ r.owner_gid)
    × (b.guest_ip ≡ r.guest_ip)

-- The lease of an address is held in the name of a runtime.
abbrev pub Leased : {W : Type 0} → Text → Text → State W → Type 0
Leased name address s = lookup address s.leases.files ≡ some (lease (name ++ 10 ∷ []))

-- The registry is as it was, but for the record of one name.
abbrev pub Registered : {W : Type 0} → Text → RuntimeRecord → State W → State W → Type 0
Registered name r s t =
    (stem : Text)
    → lookup stem t.registry
      ≡ (if eq_text stem name then some (document r) else lookup stem s.registry)

-- How a create request may end under its lock.
abbrev pub CreateEffect :
    {W : Type 0} → Text → PeerCredentials → State W → Ended Created → State W → Type 0
CreateEffect name peer s (returned c) t =
    (c.name ≡ name)
    × ((r : RuntimeRecord) × Owned name peer r
        × (r.guest_ip ≡ str c.guest_ip)
        × Registered name r s t)
    × Leased name c.guest_ip t
    × (t.held ≡ s.held)
CreateEffect name peer s (raised e) t = (t.registry ≡ s.registry) × (t.held ≡ s.held)
CreateEffect name peer s blocked t =
    (t.held ≡ s.held)
    × ((t.registry ≡ s.registry)
        ⊎ ((r : RuntimeRecord) × Owned name peer r × Registered name r s t))

pub Registered-write :
    {W : Type 0} (name : Text) (r : RuntimeRecord) (s t : State W)
    → t.registry ≡ insert name (document r) s.registry
    → Registered name r s t
Registered-write name r s t e stem = rw e (lookup-insert name stem (document r) s.registry)

pub Registered-rewrite :
    {W : Type 0} (name : Text) (r r' : RuntimeRecord) (s t u : State W)
    → Registered name r s t
    → u.registry ≡ insert name (document r') t.registry
    → Registered name r' s u
Registered-rewrite name r r' s t u h e stem =
    rw (e, lookup-insert name stem (document r') t.registry)
      (ground (arith, h stem, eq_text_iff stem name))

-- How a create request may end, with its lock.
abbrev pub Locked :
    {W : Type 0} → Text → PeerCredentials → State W → Ended Created → State W → Type 0
Locked name peer s (returned c) t =
    (member name s.held ≡ false) × CreateEffect name peer s (returned c) t
Locked name peer s (raised e) t =
    (member name s.held ≡ false) × (t.registry ≡ s.registry) × (t.held ≡ s.held)
Locked name peer s blocked t =
    (member name t.held ≡ true)
    × ((t.registry ≡ s.registry)
        ⊎ ((r : RuntimeRecord) × Owned name peer r × Registered name r s t))

-- Entering and leaving the lock of the runtime around a create request.
pub unlock-Locked :
    {W : Type 0} (name : Text) (peer : PeerCredentials) (s : State W) (x : Ended Created)
    (t : State W)
    → member name s.held ≡ false
    → CreateEffect name peer (record s { held = name ∷ s.held }) x t
    → Locked name peer s (unlock name x t).0 (unlock name x t).1
unfolding unlock release_name
unlock-Locked name peer s (returned c) t free (n, r, l, h) =
    (free, (n, r, l, ap (release_name name) h ∙ rw (eq_text_refl name)))
unlock-Locked name peer s (raised e) t free (r, h) =
    (free, r, ap (release_name name) h ∙ rw (eq_text_refl name))
unlock-Locked name peer s blocked t free (h, r) = (ap (member name) h ∙ rw (eq_text_refl name), r)

-- The body of a create request's `try`: when it raises, the first record has been written.
abbrev pub Attempted :
    {W : Type 0} → Text → PeerCredentials → State W → Ended Created → State W → Type 0
Attempted name peer s (returned c) t = CreateEffect name peer s (returned c) t
Attempted name peer s (raised e) t =
    (t.held ≡ s.held) × ((r : RuntimeRecord) × Owned name peer r × Registered name r s t)
Attempted name peer s blocked t = ⊥

module _ {W : Type 0} where
  Registered-from :
      (name : Text) (r : RuntimeRecord) (s t u : State W)
      → t.registry ≡ s.registry
      → Registered name r t u
      → Registered name r s u
  Registered-from name r s t u e h stem =
      h stem ∙ ap (λ d. if eq_text stem name then some (document r) else lookup stem d) e

  CreateEffect-from :
      (name : Text) (peer : PeerCredentials) (s t u : State W) (x : Ended Created)
      → t.registry ≡ s.registry
      → t.held ≡ s.held
      → CreateEffect name peer t x u
      → CreateEffect name peer s x u
  CreateEffect-from name peer s t u (returned c) er eh (n, (r, o, g, reg), l, h) =
      (n, (r, o, g, Registered-from name r s t u er reg), l, h ∙ eh)
  CreateEffect-from name peer s t u (raised e) er eh (r, h) = (r ∙ er, h ∙ eh)
  CreateEffect-from name peer s t u blocked er eh (h, inl r) = (h ∙ eh, inl (r ∙ er))
  CreateEffect-from name peer s t u blocked er eh (h, inr (r, o, reg)) =
      (h ∙ eh, inr (r, o, Registered-from name r s t u er reg))

  -- A quiet step, and then the rest.
  pub Quiet-then :
      {A : Type 0} (name : Text) (peer : PeerCredentials) (s : State W) (p : Ended A × State W)
      (f : A → Daemon W Created)
      → Quiet s p.0 p.1
      → ((a : A) (t : State W)
          → p ≡ (returned a, t)
          → t.held ≡ s.held
          → CreateEffect name peer t (f a t).0 (f a t).1)
      → CreateEffect name peer s (continue p.0 f p.1).0 (continue p.0 f p.1).1
  Quiet-then name peer s (returned a, t) f (er, eh) rest =
      CreateEffect-from name peer s t _ (f a t).0 er eh (rest a t refl eh)
  Quiet-then name peer s (raised e, t) f q rest = q
  Quiet-then name peer s (blocked, t) f (er, eh) rest = (eh, inl er)

-- How taking an address may end.
abbrev pub GrantEffect : {W : Type 0} → Text → State W → Ended Text → State W → Type 0
GrantEffect name s (returned a) t = Quiet s (returned a) t × Leased name a t
GrantEffect name s (raised e) t = (t.registry ≡ s.registry) × (t.held ≡ s.held)
GrantEffect name s blocked t = ⊥

GrantEffect-from :
    {W : Type 0} (name : Text) (s t : State W)
    → t.registry ≡ s.registry
    → t.held ≡ s.held
    → (x : Ended Text) (u : State W) → GrantEffect name t x u
    → GrantEffect name s x u
GrantEffect-from name s t er eh (returned a) u ((r, h), l) = ((r ∙ er, h ∙ eh), l)
GrantEffect-from name s t er eh (raised e) u (r, h) = (r ∙ er, h ∙ eh)
GrantEffect-from name s t er eh blocked u q = absurd q

module _ {W : Type 0} (m : Manager W) where
  -- The `except` clause runs under the lock that `destroy` asks for.
  pub handle_failure-CreateEffect :
      (name : Text) (peer : PeerCredentials) (s : State W) (x : Ended Created) (t : State W)
      → member name s.held ≡ true
      → Attempted name peer s x t
      → CreateEffect name peer s
          (handle_failure (destroy m name none true) x t).0
          (handle_failure (destroy m name none true) x t).1
  unfolding handle_failure
  handle_failure-CreateEffect name peer s (returned c) t busy a = a
  handle_failure-CreateEffect name peer s (raised e) t busy (h, r) =
      rw (destroy-blocked m name none true t (ap (member name) h ∙ busy)) (h, inr r)
  handle_failure-CreateEffect name peer s blocked t busy a = absurd a

  pub ensure_bridge-Quiet : (s : State W) → Quiet s (ensure_bridge m s).0 (ensure_bridge m s).1
  unfolding ensure_bridge
  ensure_bridge-Quiet s = ground arith

  refuse_host_address-GrantEffect :
      (name address : Text) (s : State W)
      → Leased name address s
      → GrantEffect name s
          (refuse_host_address m name address s).0
          (refuse_host_address m name address s).1
  unfolding refuse_host_address given_back release_lease
  refuse_host_address-GrantEffect name address s l =
      elim (Bool-cases (eq_text address m.config.host_address)) [
        | inl bad ↦ rw bad (refl, refl)
        | inr fine ↦ rw fine ((refl, refl), l)
      ]

  take_lease-GrantEffect :
      (name : Text) (s : State W)
      → GrantEffect name s (take_lease m name s).0 (take_lease m name s).1
  unfolding take_lease
  take_lease-GrantEffect name s =
      let denied : ℕ → Bool = λ n. m.host.refuses (address_text n) s.world in
      let unwritable : ℕ → Bool = λ n. m.host.unwritable (address_text n) s.world in
      elim (Result-cases (allocate denied unwritable m.config.pool name s.leases).0) [
        | inr (e, failed) ↦ rw (failed, take_lease) (refl, refl)
        | inl (a, granted) ↦
            let g = allocate-IsGrant denied unwritable m.config.pool name a s.leases granted in
            rw (granted, take_lease)
              ((refl, refl), ground (arith, g.1, g.2.files a, eq_text_refl a))
      ]

  -- Taking an address changes neither a record nor a lock, and the address is leased to the name.
  pub allocate_address-GrantEffect :
      (name : Text) (s : State W)
      → GrantEffect name s (allocate_address m name s).0 (allocate_address m name s).1
  unfolding allocate_address
  allocate_address-GrantEffect name s =
      bind-intro (GrantEffect name s) (GrantEffect name s) (take_lease m name s) _
        (take_lease-GrantEffect name s)
        (λ a t q.
          GrantEffect-from name s t (q.0.0) (q.0.1) _ _
            (refuse_host_address-GrantEffect name a t q.1))
        (λ e t q. q) (λ t q. q)

  -- From the address on: the stale ARP entry goes, and the runtime is launched.
  pub lease-then :
      (name : Text) (peer : PeerCredentials) (s : State W) (argv : Text → List Text)
      (launch : Text → Daemon W Created)
      → ((address : Text) (t : State W)
          → t.held ≡ s.held
          → Leased name address t
          → CreateEffect name peer t (launch address t).0 (launch address t).1)
      → let p =
          (allocate_address m name >>= λ address.
          lift (command_unchecked m (argv address)) >> launch address)
            s in
        CreateEffect name peer s p.0 p.1
  lease-then name peer s argv launch rest =
      bind-intro (GrantEffect name s) (CreateEffect name peer s) (allocate_address m name s) _
        (allocate_address-GrantEffect name s)
        (λ address t q. CreateEffect-from name peer s t _ _ q.0.0 q.0.1 (
          Quiet-then name peer t (lift (command_unchecked m (argv address)) t) _ (refl, refl)
            λ x u e h.
              rest address u (h ∙ q.0.1) (ap (λ p. lookup address p.1.leases.files) (sym e) ∙ q.1)))
        (λ e t q. q) (λ t q. absurd q)
