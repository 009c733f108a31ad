-- ===== src/Daemon/Create/BhyveSteps.antt =====
-- The commands and file operations of `create_bhyve` between its two registry writes.
pub mod Effect
use freebsd_laboratory.Base.{
  Bool, true, false, List, [], ◌∷◌, ◌++◌, Option, none, some, ◌==◌, any, if◌then◌else◌,
}
use freebsd_laboratory.Base.Text.{Text, text, eq_text}
use freebsd_laboratory.Base.Split.{strip}
use freebsd_laboratory.Base.Decimal.{decimal}
use freebsd_laboratory.Base.Value.{bool, str}
use freebsd_laboratory.Base.Result.{Result, ok, err, runtime_error}
use freebsd_laboratory.Host.{Sys, pure, ◌>>=◌, ◌>>◌, run, file, chmod, write_text}
use freebsd_laboratory.Daemon.Config.{Manager, RuntimeRecord, BhyveGuestProfile}
use freebsd_laboratory.Daemon.Registry.{mkstemp, cleaning_up}
use freebsd_laboratory.Daemon.Teardown.{answers, dataset_exists, is_md_unit}
use freebsd_laboratory.Daemon.Network.{command, command_unchecked}

-- re.search(r"(?:^|/dev/)?(md\d+)$", output): the longest tail of the form md and digits. `$` also
-- matches before a final newline, and the output is stripped.
unfoldable pub md_tail : Text → Option Text
md_tail [] = none
md_tail (c ∷ s) = let rest = md_tail s in if is_md_unit (c ∷ s) then some (c ∷ s) else rest

found_unit : Option Text → Result Text
found_unit none = err (runtime_error "Unexpected mdconfig output" [])
found_unit (some unit) = ok unit

-- `value or default` for a text
or_default : Text → Text → Text
or_default [] d = d
or_default (c ∷ s) d = c ∷ s

-- A failure of the cleanup replaces the result.
after : {A : Type 0} → Result A → Result (Unit {0}) → Result A
after r (ok u) = r
after r (err e) = err e

module _ {W A : Type 0} where
  -- try: m; finally: cleanup
  unfoldable pub finally : Sys W A → Sys W (Unit {0}) → Sys W A
  unfolding after
  finally m cleanup w = let (r, w') = m w in let (c, w'') = cleanup w' in (after r c, w'')

module _ {W : Type 0} (m : Manager W) where
  unfoldable pub snapshot_exists : Text → Sys W Bool
  unfolding text
  snapshot_exists snapshot =
      let asked = answers m (
        text "zfs"
        ∷ text "list"
        ∷ text "-H"
        ∷ text "-o"
        ∷ text "name"
        ∷ text "-t"
        ∷ text "snapshot"
        ∷ snapshot
        ∷ []) in
      if any (λ c. c == b'@') snapshot then asked else pure false

  copy_to : Text → Text → Sys W (Unit {0})
  unfolding text
  copy_to source unit = command m (
      text "dd"
      ∷ (text "if=" ++ source)
      ∷ (text "of=/dev/" ++ unit)
      ∷ text "bs=1M"
      ∷ text "status=none"
      ∷ [])

  destroy_clone : Text → Sys W (Unit {0})
  unfolding text
  destroy_clone clone =
      command_unchecked m (text "zfs" ∷ text "destroy" ∷ text "-r" ∷ text "-f" ∷ clone ∷ [])

  drop_old_clone : Text → Bool → Sys W (Unit {0})
  drop_old_clone clone true = destroy_clone clone
  drop_old_clone clone false = pure tt

  -- The disk's contents come from a clone of the snapshot, which is destroyed again.
  copy_snapshot : Text → Text → Text → Sys W (Unit {0})
  unfolding text copy_to destroy_clone drop_old_clone
  copy_snapshot name snapshot unit = do
    let clone = m.config.vm_zvol_parent ++ (b'/' ∷ (name ++ text "-src"))
    there ← dataset_exists m clone
    drop_old_clone clone there
    command m (text "zfs" ∷ text "clone" ∷ snapshot ∷ clone ∷ [])
    finally (copy_to (text "/dev/zvol/" ++ clone) unit) (destroy_clone clone)

  copy_image : Text → Text → Sys W (Unit {0})
  copy_image image unit w =
      let copied = copy_to image unit w in if m.host.is_file image w then copied else (ok tt, w)

  fill_disk : Text → Text → Text → Text → Bool → Sys W (Unit {0})
  unfolding copy_snapshot copy_image
  fill_disk name snapshot image unit true = copy_snapshot name snapshot unit
  fill_disk name snapshot image unit false = copy_image image unit

  parsed : {A : Type 0} → Result A → Sys W A
  parsed r w = (r, w)

  unfoldable pub create_memdisk : Text → Text → Text → Sys W Text
  unfolding text found_unit or_default fill_disk parsed
  create_memdisk name given_snapshot given_image = do
    let snapshot = or_default given_snapshot m.config.vm_zvol_snapshot
    let image = or_default given_image m.config.vm_image
    shown ←
        run m.host
          (text "mdconfig"
            ∷ text "-a"
            ∷ text "-t"
            ∷ m.config.vm_memdisk_type
            ∷ text "-s"
            ∷ m.config.vm_disk_size
            ∷ [])
          true (some 60)
    unit ← parsed (found_unit (md_tail (strip shown.stdout)))
    there ← snapshot_exists snapshot
    fill_disk name snapshot image unit there
    pure unit

  unfoldable pub configure_vm_memdisk : Text → Text → Sys W (Unit {0})
  unfolding text
  configure_vm_memdisk name unit = do
    command_unchecked m
        (m.config.vm_command ∷ text "set" ∷ name ∷ (text "disk0_name=/dev/" ++ unit) ∷ [])
    command_unchecked m (m.config.vm_command ∷ text "set" ∷ name ∷ text "disk0_dev=custom" ∷ [])

  -- `vm create` with a template, further options, the key file and the network of the guest.
  unfoldable pub vm_create : Text → List Text → Text → Text → Text → Sys W (Unit {0})
  unfolding text
  vm_create template image_options key_path netconfig name = command m (
      m.config.vm_command
      ∷ text "create"
      ∷ text "-t"
      ∷ template
      ∷ (image_options ++ (text "-C" ∷ text "-k" ∷ key_path ∷ text "-n" ∷ netconfig ∷ name ∷ [])))

  drop_blank_disk : Text → Bool → Sys W (Unit {0})
  unfolding text
  drop_blank_disk disk true = command m (text "zfs" ∷ text "destroy" ∷ text "-f" ∷ disk ∷ [])
  drop_blank_disk disk false = pure tt

  unfoldable pub make_clone : Text → BhyveGuestProfile → Text → Text → Sys W Text
  unfolding text vm_create drop_blank_disk
  make_clone name guest key_path netconfig = do
    let vm_dataset = m.config.vm_dataset_parent ++ (b'/' ∷ name)
    vm_create guest.template [] key_path netconfig name
    there ← dataset_exists m (vm_dataset ++ text "/disk0")
    drop_blank_disk (vm_dataset ++ text "/disk0") there
    command m (text "zfs" ∷ text "clone" ∷ guest.zvol_snapshot ∷ (vm_dataset ++ text "/disk0") ∷ [])
    pure vm_dataset

  unfoldable pub build_clone :
      Text → BhyveGuestProfile → Text → Text → RuntimeRecord → Sys W RuntimeRecord
  build_clone name guest key_path netconfig r = do
    vm_dataset ← make_clone name guest key_path netconfig
    pure (record r { dataset = str vm_dataset; vm_created = bool true })

  unfoldable pub make_memdisk : Text → BhyveGuestProfile → Text → Text → Sys W Text
  unfolding vm_create
  make_memdisk name guest key_path netconfig = do
    unit ← create_memdisk name guest.zvol_snapshot guest.image
    vm_create guest.memdisk_template [] key_path netconfig name
    configure_vm_memdisk name unit
    pure unit

  unfoldable pub build_memdisk :
      Text → BhyveGuestProfile → Text → Text → RuntimeRecord → Sys W RuntimeRecord
  build_memdisk name guest key_path netconfig r = do
    unit ← make_memdisk name guest key_path netconfig
    pure (record r { md_unit = str unit; vm_created = bool true })

  unfoldable pub build_image :
      Text → BhyveGuestProfile → Text → Text → RuntimeRecord → Sys W RuntimeRecord
  unfolding text vm_create
  build_image name guest key_path netconfig r = do
    vm_create guest.template (text "-i" ∷ guest.image ∷ []) key_path netconfig name
    pure (record r { vm_created = bool true })

  -- self.config.vm_disk_backend == "zvol-clone" and self._snapshot_exists(…)
  unfoldable pub clone_ready : Text → Sys W Bool
  unfolding text
  clone_ready snapshot =
      if eq_text m.config.vm_disk_backend (text "zvol-clone")
      then snapshot_exists snapshot
      else pure false

  unfoldable pub build_by_backend :
      Text → BhyveGuestProfile → Text → Text → RuntimeRecord → Bool → Sys W RuntimeRecord
  unfolding text build_clone build_memdisk build_image
  build_by_backend name guest key_path netconfig r true =
      build_clone name guest key_path netconfig r
  build_by_backend name guest key_path netconfig r false =
      if eq_text m.config.vm_disk_backend (text "memdisk")
      then build_memdisk name guest key_path netconfig r
      else build_image name guest key_path netconfig r

  unfoldable pub netconfig_of : Text → BhyveGuestProfile → Text → Text
  unfolding text
  netconfig_of name guest address =
      text "interface="
      ++ (guest.interface
          ++ (text ";ip="
              ++ (address
                  ++ (b'/' ∷ (decimal m.config.prefix_len ++ (text ";hostname=" ++ name))))))

  unfoldable pub write_runtime_public_key : Text → Text → Sys W Text
  unfolding text
  write_runtime_public_key name public_key = do
    path ← mkstemp m.host (b'.' ∷ (name ++ text ".ssh-key."))
    cleaning_up m.host path (do
      file m.host (write_text path (public_key ++ 10 ∷ []))
      file m.host (chmod path 0o600)
      pure path)

  -- The body of the `try` between the key file and the second registry write.
  unfoldable pub build_bhyve :
      Text → BhyveGuestProfile → Text → Text → RuntimeRecord → Sys W RuntimeRecord
  unfolding clone_ready build_by_backend netconfig_of
  build_bhyve name guest address key_path r = do
    ready ← clone_ready guest.zvol_snapshot
    build_by_backend name guest key_path (netconfig_of name guest address) r ready
