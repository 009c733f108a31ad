-- ===== src/Daemon/Gc.antt =====
-- `RuntimeManager.gc`: what it retains, cleans and reports. It runs under the shared lock, which is
-- reentrant, and takes the lock of each runtime that it destroys.
use freebsd_laboratory.Base.{
  Bool, true, false, List, [], ◌∷◌, ◌++◌, Option, none, some, not, ◌&&◌, ◌||◌, if◌then◌else◌, map,
}
use freebsd_laboratory.Base.Int.{ℤ, pos, eq_ℤ, le_ℤ}
use freebsd_laboratory.Base.Text.{Text, text, member}
use freebsd_laboratory.Base.Dict.{Dict, keys}
use freebsd_laboratory.Base.Value.{Value, eq_int}
use freebsd_laboratory.Base.Result.{Error, permission_error}
use freebsd_laboratory.Host
use freebsd_laboratory.Host.{Completed, Sys, run, succeeded}
use freebsd_laboratory.Addresses.{sorted, clear_orphans}
use freebsd_laboratory.Daemon.Config.{Manager, RuntimeRecord}
use freebsd_laboratory.Daemon.Access.{owner_alive}
use freebsd_laboratory.Daemon.State.{
  Ended, returned, raised, blocked, Daemon, pure, raise, lift, ◌>>=◌, ◌>>◌,
}
use freebsd_laboratory.Daemon.Registry.{registered}
use freebsd_laboratory.Daemon.Destroy.{Destroyed, destroy}
use freebsd_laboratory.Daemon.Network.{command_unchecked}
use freebsd_laboratory.Daemon.Discover.{
  discover_jails, discover_vms, discover_datasets, bridge_epairs, base_name,
}

-- The local variables `retained`, `cleaned` and `errors`.
pub record Tally : Type 0 where
  pub retained : List Text
  pub cleaned : List Text
  pub errors : Dict Error

pub record Collected : Type 0 where
  pub cleaned : List Text
  pub retained : List Text
  pub removed_epairs : List Text
  pub released_addresses : List Text
  pub errors : Dict Error
  pub stale_only : Bool

-- The texts of the first list that are not in the second, each once.
unfoldable pub difference : List Text → List Text → List Text
difference [] gone = []
difference (s ∷ ss) gone =
    let rest = difference ss gone in if member s gone || member s rest then rest else s ∷ rest

unfoldable pub retain : Text → Tally → Tally
retain name t = record t { retained = name ∷ t.retained }

-- `try: self.destroy(…); cleaned.append(name)`, `except`: keep the name and its error. The second
-- loop does not put the name among the retained ones.
unfoldable pub note : Text → Bool → Tally → Ended Destroyed → Ended Tally
note name keeps t (returned d) = returned (record t { cleaned = name ∷ t.cleaned })
note name true t (raised e) =
    returned (record t { retained = name ∷ t.retained; errors = (name, e) ∷ t.errors })
note name false t (raised e) = returned (record t { errors = (name, e) ∷ t.errors })
note name keeps t blocked = blocked

module _ {W : Type 0} (m : Manager W) where
  unfoldable pub try_destroy : Text → Option ℤ → Bool → Bool → Tally → Daemon W Tally
  unfolding note
  try_destroy name requester force keeps t s =
      let (r, s') = destroy m name requester force s in (note name keeps t r, s')

  -- One round of the loop over the registered runtimes.
  unfoldable pub collect_one : Bool → ℤ → Text → RuntimeRecord → Tally → Daemon W Tally
  unfolding retain
  collect_one stale_only requester name r t s =
      let (alive, w) = owner_alive m.host r s.world in
      let t' = record s { world = w } in
      let tried = try_destroy name (some requester) (eq_ℤ requester (pos 0)) true t t' in
      if not (eq_ℤ requester (pos 0)) && not (eq_int r.owner_uid requester)
      then (returned (retain name t), s)
      else if stale_only && alive
      then (returned (retain name t), t')
      else tried

  unfoldable pub collect_all : Bool → ℤ → Dict RuntimeRecord → Tally → Daemon W Tally
  collect_all stale_only requester [] t = pure t
  collect_all stale_only requester ((name, r) ∷ rs) t = do
    t' ← collect_one stale_only requester name r t
    collect_all stale_only requester rs t'

  unfoldable pub destroy_all : List Text → Tally → Daemon W Tally
  destroy_all [] t = pure t
  destroy_all (name ∷ names) t = do t' ← try_destroy name none true false t; destroy_all names t'

  -- The names found on the host that nothing retains.
  unfoldable pub discovered : List Text → Sys W (List Text)
  discovered retained = Host.◌>>=◌ (discover_jails m) λ jails. Host.◌>>=◌ (discover_vms m) λ vms.
      Host.◌>>=◌ (discover_datasets m) λ datasets.
        Host.pure (sorted (difference (jails ++ (vms ++ map base_name datasets)) retained))

  unfoldable pub remove_epairs : List Text → Sys W (List Text)
  unfolding text
  remove_epairs [] = Host.pure []
  remove_epairs (interface ∷ others) =
      Host.◌>>=◌ (run m.host (text "ifconfig" ∷ interface ∷ text "destroy" ∷ []) false (some 60))
        λ c.
          Host.◌>>=◌ (remove_epairs others)
            λ removed. Host.pure (if succeeded c then interface ∷ removed else removed)

  unfoldable pub forget_arp : List Text → Sys W (Unit {0})
  unfolding text
  forget_arp [] = Host.pure tt
  forget_arp (address ∷ others) =
      Host.◌>>=◌ (command_unchecked m (text "arp" ∷ text "-d" ∷ address ∷ []))
        λ _. forget_arp others

-- str(record.get("epair_host")) where that is true
unfoldable pub epair_reference : RuntimeRecord → List Text
epair_reference r = elim r.epair_host [
  | Value.str [] ↦ []
  | Value.str (c ∷ s) ↦ (c ∷ s) ∷ []
  | _ ↦ []
]

unfoldable pub referenced_epairs : Dict RuntimeRecord → List Text
unfolding epair_reference
referenced_epairs [] = []
referenced_epairs ((name, r) ∷ rs) = epair_reference r ++ referenced_epairs rs

module _ {W : Type 0} (m : Manager W) where
  -- What only root's collection does: unregistered runtimes and unreferenced epairs go.
  unfoldable pub sweep_host : Tally → Daemon W (Tally × List Text)
  unfolding referenced_epairs
  sweep_host t = do
    names ← lift (discovered m t.retained)
    t' ← destroy_all m names t
    records ← registered
    members ← lift (bridge_epairs m)
    removed ← lift (remove_epairs m (sorted (difference members (referenced_epairs records))))
    pure (t', removed)

  unfoldable pub sweep_if : Bool → Tally → Daemon W (Tally × List Text)
  sweep_if true t = sweep_host t
  sweep_if false t = pure (t, [])

  unfoldable pub release_orphans : Bool → List Text → Daemon W (List Text)
  release_orphans false active s = (returned [], s)
  release_orphans true active s =
      let (released, leases) = clear_orphans active s.leases in
      (returned released, record s { leases = leases })

  -- The method behind its argument checks.
  unfoldable pub collect : Bool → ℤ → Daemon W Collected
  collect stale_only requester = do
    records ← registered
    first ←
        collect_all m stale_only requester records
          (record { retained = []; cleaned = []; errors = [] })
    after ← registered
    let kept = record first { retained = keys after ++ first.retained }
    (last, removed_epairs) ← sweep_if (eq_ℤ requester (pos 0)) kept
    active ← registered
    released ← release_orphans (eq_ℤ requester (pos 0)) (keys active)
    lift (forget_arp m released)
    pure (record {
      cleaned = sorted (difference last.cleaned []);
      retained = sorted (keys active);
      removed_epairs = removed_epairs;
      released_addresses = released;
      errors = last.errors;
      stale_only = stale_only;
    })

  unfoldable pub gc : Bool → ℤ → Daemon W Collected
  gc stale_only requester =
      if not (le_ℤ 0 requester)
      then raise (permission_error "Invalid requester UID")
      else collect stale_only requester
