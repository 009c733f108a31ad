-- ===== src/Daemon/Registry.antt =====
-- The registry directory: `_load_registry`, `_write_registry`, `_delete_registry`, `_registered`.
pub mod Effect
use freebsd_laboratory.Base.{
  ℕ, Bool, true, false, List, [], ◌∷◌, ◌++◌, Option, none, some, ◌≡◌, refl, not, if◌then◌else◌,
  arith, map, any,
}
use freebsd_laboratory.Base.Text.{Text, text, eq_text}
use freebsd_laboratory.Base.Dict.{Dict, lookup, insert, erase, keys}
use freebsd_laboratory.Base.Value.{Value, str?}
use freebsd_laboratory.Base.Result.{Result, ok, err, Error, runtime_error, os_error}
use freebsd_laboratory.Host
use freebsd_laboratory.Host.{Host, Sys, FileCall, unlink, mkdir, chmod, dump_json, write_text, file}
use freebsd_laboratory.Addresses.{sorted}
use freebsd_laboratory.Daemon.Config.{RuntimeRecord, Manager}
use freebsd_laboratory.Daemon.Names.{validate_name, matches_runtime_name}
use freebsd_laboratory.Daemon.State.{
  State, Entry, link, folder, unreadable, malformed, document, Ended, returned, raised, blocked,
  Daemon, pure, raise, attempt, lift, gets, modify, ◌>>=◌, ◌>>◌,
}

-- `none` is a name with no regular file; a file that is no JSON object raises.
unfoldable pub read_entry : Option Entry → Result (Option RuntimeRecord)
read_entry none = ok none
read_entry (some link) = ok none
read_entry (some folder) = ok none
read_entry (some unreadable) = err (runtime_error "Invalid runtime registry record" [])
read_entry (some malformed) = err (runtime_error "Invalid runtime registry record" [])
read_entry (some (document r)) = ok (some r)

unfoldable pub load_registry : {W : Type 0} → Text → Daemon W (Option RuntimeRecord)
unfolding read_entry
load_registry name s = attempt (read_entry (lookup name s.registry)) s

-- `except Exception: temporary.unlink(missing_ok=True); raise` around `m`
unfoldable pub cleaning_up : {W A : Type 0} → Host W → Text → Sys W A → Sys W A
cleaning_up host path m w =
    let (r, w') = m w in
    elim r [ ok a ↦ (ok a, w') | err e ↦ (err e, (file host (unlink path) w').1) ]

made_temporary : {W : Type 0} → Option Text → Sys W Text
made_temporary none w = (err os_error, w)
made_temporary (some path) w = (ok path, w)

unfoldable pub mkstemp : {W : Type 0} → Host W → Text → Sys W Text
unfolding made_temporary
mkstemp host prefix w = let (made, w') = host.mkstemp prefix w in made_temporary made w'

-- The temporary file of `_write_registry`, written, forced to disk and chmod'ed, not yet renamed.
unfoldable pub write_temporary : {W : Type 0} → Manager W → Text → Sys W Text
unfolding cleaning_up mkstemp text
write_temporary m name = Host.◌>>=◌ (file m.host (mkdir m.config.registry_dir 0o700)) λ _.
    Host.◌>>=◌ (mkstemp m.host (b'.' ∷ (name ++ text "."))) λ path. cleaning_up m.host path (
      Host.◌>>=◌ (file m.host (dump_json path))
        λ _. Host.◌>>=◌ (file m.host (chmod path 0o600)) λ _. Host.pure path)

-- temporary.replace(target): the new file takes the place of a file or of a link, not of a folder.
unfoldable pub replace_entry :
    Text → RuntimeRecord → Option Entry → Dict Entry → Result (Dict Entry)
replace_entry name r (some folder) d = err os_error
replace_entry name r _ d = ok (insert name (document r) d)

-- A rename that fails leaves the temporary file to the `finally` clause.
unfoldable pub put_entry : {W : Type 0} → Host W → Text → Text → RuntimeRecord → Daemon W (Unit {0})
unfolding replace_entry
put_entry host path name r s = elim (replace_entry name r (lookup name s.registry) s.registry) [
  | ok d ↦ (returned tt, record s { registry = d })
  | err e ↦ (raised e, record s { world = (file host (unlink path) s.world).1 })
]

-- str(record["name"]) of a record that the daemon built
unfoldable pub name_text : Value → Text
name_text (Value.str t) = t
name_text _ = []

unfoldable pub write_registry : {W : Type 0} → Manager W → RuntimeRecord → Daemon W (Unit {0})
unfolding name_text write_temporary put_entry
write_registry m r = do
  name ← attempt (validate_name (name_text r.name))
  path ← lift (write_temporary m name)
  put_entry m.host path name r

unfoldable pub delete_entry : Text → Option Entry → Dict Entry → Result (Dict Entry)
delete_entry name (some folder) d = err os_error
delete_entry name _ d = ok (erase name d)

unfoldable pub delete_registry : {W : Type 0} → Text → Daemon W (Unit {0})
unfolding delete_entry
delete_registry name s = elim (delete_entry name (lookup name s.registry) s.registry) [
  | ok d ↦ (returned tt, record s { registry = d })
  | err e ↦ (raised e, s)
]

-- The documents among the given names, in their order; the first one that cannot be read raises.
-- Names that do not match the pattern, links and folders are passed over.
unfoldable pub read_all : Dict Entry → List Text → Result (Dict RuntimeRecord)
unfolding read_entry
read_all d [] = ok []
read_all d (name ∷ names) =
    let rest = read_all d names in
    if not (matches_runtime_name name) then rest else elim (read_entry (lookup name d)) [
      | err e ↦ err e
      | ok none ↦ rest
      | ok (some r) ↦ elim rest [ ok rs ↦ ok ((name, r) ∷ rs) | err e ↦ err e ]
    ]

unfoldable pub registered : {W : Type 0} → Daemon W (Dict RuntimeRecord)
unfolding read_all
registered s = attempt (read_all s.registry (sorted (keys s.registry))) s
