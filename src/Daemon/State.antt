-- ===== src/Daemon/State.antt =====
-- The state of the manager, and its methods as actions. The registry and the lease directory are
-- the daemon's own files; all else that a method changes outside the process is the world `W`.
-- A method returns, raises, or blocks for ever on a lock that its own thread holds.
use freebsd_laboratory.Base.{Bool, List, [], ◌∷◌, if◌then◌else◌}
use freebsd_laboratory.Base.Text.{Text, eq_text, member}
use freebsd_laboratory.Base.Dict.{Dict}
use freebsd_laboratory.Base.Result.{Result, ok, err, Error}
use freebsd_laboratory.Host.{Sys}
use freebsd_laboratory.Addresses.{LeaseDir}
use freebsd_laboratory.Daemon.Config.{RuntimeRecord}

-- What the name `<name>.json` stands for in the registry directory.
pub data Entry : Type 0 where
  link folder unreadable malformed : Entry
  document : RuntimeRecord → Entry

pub record State (W : Type 0) : Type 0 where
  pub registry : Dict Entry
  pub leases : LeaseDir
  pub held : List Text
  pub bridge_configured : Bool
  pub vm_switch_configured : Bool
  pub world : W

pub data Ended (A : Type 0) : Type 0 where
  returned : A → Ended A
  raised : Error → Ended A
  blocked : Ended A

abbrev pub Daemon : Type 0 → Type 0 → Type 0
Daemon W A = State W → Ended A × State W

abbrev pub ended : {A : Type 0} → Result A → Ended A
ended (ok a) = returned a
ended (err e) = raised e

module _ {W A : Type 0} where
  abbrev pub pure : A → Daemon W A
  pure a s = (returned a, s)

  abbrev pub raise : Error → Daemon W A
  raise e s = (raised e, s)

  abbrev pub attempt : Result A → Daemon W A
  attempt r s = (ended r, s)

  -- An action on the outside world: the rest of the state stays.
  abbrev pub lift : Sys W A → Daemon W A
  lift m s = (ended (m s.world).0, record s { world = (m s.world).1 })

  abbrev pub gets : (State W → A) → Daemon W A
  gets f s = (returned (f s), s)

module _ {W : Type 0} where
  abbrev pub modify : (State W → State W) → Daemon W (Unit {0})
  modify f s = (returned tt, f s)

module _ {W A B : Type 0} where
  abbrev pub continue : Ended A → (A → Daemon W B) → Daemon W B
  continue (returned a) f s = f a s
  continue (raised e) f s = (raised e, s)
  continue blocked f s = (blocked, s)

  infixl 5 ◌>>=◌ ◌>>◌
  abbrev pub ◌>>=◌ : Daemon W A → (A → Daemon W B) → Daemon W B
  ◌>>=◌ m f s = continue (m s).0 f (m s).1

  abbrev pub ◌>>◌ : Daemon W A → Daemon W B → Daemon W B
  m >> n = m >>= λ _. n

unfoldable pub release_name : Text → List Text → List Text
release_name name [] = []
release_name name (n ∷ ns) = if eq_text name n then ns else n ∷ release_name name ns

module _ {W A : Type 0} where
  -- Leaving `with self._runtime_lock(name)`: a blocked thread never leaves it.
  unfoldable pub unlock : Text → Ended A → State W → Ended A × State W
  unlock name (returned a) s = (returned a, record s { held = release_name name s.held })
  unlock name (raised e) s = (raised e, record s { held = release_name name s.held })
  unlock name blocked s = (blocked, s)

  -- `with self._runtime_lock(name)` around a method, as `_serialized_lifecycle` does. The lock of a
  -- runtime is a threading.Lock: whoever takes it a second time waits for ever.
  unfoldable pub with_runtime_lock : Text → Daemon W A → Daemon W A
  unfolding unlock release_name
  with_runtime_lock name m s =
      if member name s.held
      then (blocked, s)
      else let (r, s') = m (record s { held = name ∷ s.held }) in unlock name r s'
