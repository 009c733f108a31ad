-- ===== src/Daemon/Destroy.antt =====
-- `RuntimeManager.destroy`: who may, what is torn down, and what the daemon then forgets.
pub mod Effect
use freebsd_laboratory.Base.{
  ℕ, Bool, true, false, List, [], ◌∷◌, ◌++◌, Option, none, some, ◌≡◌, refl, not, if◌then◌else◌,
  is_nil, arith,
}
use freebsd_laboratory.Base.Int.{ℤ}
use freebsd_laboratory.Base.Text.{Text, text}
use freebsd_laboratory.Base.Value.{Value, str?}
use freebsd_laboratory.Base.Result.{Result, ok, err, Error}
use freebsd_laboratory.Host.{Completed, run}
use freebsd_laboratory.Addresses.{release}
use freebsd_laboratory.Daemon.Config.{RuntimeRecord, Manager, RuntimeConfig, empty_record}
use freebsd_laboratory.Daemon.Names.{validate_name}
use freebsd_laboratory.Daemon.Access.{authorize_record}
use freebsd_laboratory.Daemon.State.{
  State, Ended, returned, raised, blocked, Daemon, pure, raise, attempt, lift, gets, modify, ◌>>=◌,
  ◌>>◌, with_runtime_lock,
}
use freebsd_laboratory.Daemon.Registry.{load_registry, delete_registry}
use freebsd_laboratory.Daemon.Teardown.{teardown}

-- {"name": name, "removed": removed}
pub record Destroyed : Type 0 where
  pub name : Text
  pub removed : List Text

abbrev pub or_empty : Option RuntimeRecord → RuntimeRecord
or_empty none = empty_record
or_empty (some r) = r

unfoldable pub permitted : RuntimeRecord → Option ℤ → Bool → Result (Unit {0})
permitted r requester force = if force then ok tt else authorize_record r requester

module _ {W : Type 0} (m : Manager W) where
  -- self.pool.release(guest_ip, name); its answer is not read
  unfoldable pub release_lease : Text → Text → Daemon W (Unit {0})
  release_lease address name =
      modify λ s. record s { leases = (release m.config.pool address name s.leases).1 }

  -- What is done about the guest's address.
  unfoldable pub forget_address : Option Text → Text → Daemon W (Unit {0})
  unfolding release_lease text
  forget_address none name = pure tt
  forget_address (some []) name = pure tt
  forget_address (some (c ∷ ip)) name = do
    release_lease (c ∷ ip) name
    lift (run m.host (text "arp" ∷ text "-d" ∷ (c ∷ ip) ∷ []) false (some 60))
    pure tt

  -- The method without its lock.
  unfoldable pub destroy_held : Text → Option ℤ → Bool → Daemon W Destroyed
  destroy_held given requester force = do
    name ← attempt (validate_name given)
    found ← load_registry name
    attempt (permitted (or_empty found) requester force)
    removed ← lift (teardown m name (or_empty found))
    forget_address (str? (or_empty found).guest_ip) name
    delete_registry name
    pure (record { name = name; removed = removed })

  unfoldable pub destroy : Text → Option ℤ → Bool → Daemon W Destroyed
  destroy name requester force = with_runtime_lock name (destroy_held name requester force)
