-- ===== src/Daemon/Create/JailSteps.antt =====
-- The commands and file operations of `create_jail` between its two registry writes.
use mathlib.Core.List.{reverse}
use freebsd_laboratory.Base.{
  Bool, true, List, [], ◌∷◌, ◌++◌, Option, none, some, ◌==◌, not, ◌||◌, if◌then◌else◌,
}
use freebsd_laboratory.Base.Int.{ℤ}
use freebsd_laboratory.Base.Text.{Text, text, eq_text, starts_with}
use freebsd_laboratory.Base.Split.{split_at, strip, split_lines, drop_leading}
use freebsd_laboratory.Base.Decimal.{decimal}
use freebsd_laboratory.Base.PythonInt.{int_of}
use freebsd_laboratory.Base.Shell.{shell_quote}
use freebsd_laboratory.Base.Value.{bool, str}
use freebsd_laboratory.Base.Result.{Result, ok, err, value_error, runtime_error, index_error}
use freebsd_laboratory.Host.{
  Sys, pure, ◌>>=◌, ◌>>◌, run, file, unlink, mkdir, chmod, chown, write_text,
}
use freebsd_laboratory.Daemon.Config.{Manager, RuntimeRecord}
use freebsd_laboratory.Daemon.Network.{command}

-- The uid, gid and home of the seven fields of a passwd line.
pub record JailUser : Type 0 where
  pub uid : ℤ
  pub gid : ℤ
  pub home : Text

parsed_user : Option ℤ → Option ℤ → Text → Result JailUser
parsed_user (some uid) (some gid) home =
    if not (starts_with home (b'/' ∷ [])) || eq_text home (b'/' ∷ [])
    then err (runtime_error "Jail SSH user must have a dedicated absolute home directory" [])
    else ok (record { uid = uid; gid = gid; home = home })
parsed_user _ _ home = err (value_error "invalid literal for int() with base 10")

unfoldable pub passwd_fields : List Text → Result JailUser
unfolding parsed_user
passwd_fields (name ∷ password ∷ uid ∷ gid ∷ gecos ∷ home ∷ shell ∷ []) =
    parsed_user (int_of uid) (int_of gid) home
passwd_fields _ = err (runtime_error "Unable to resolve jail SSH user" [])

-- root in path.parents or path == root, for resolved paths
unfoldable pub is_inside : Text → Text → Bool
is_inside root path =
    eq_text path root
    || starts_with path (if eq_text root (b'/' ∷ []) then root else root ++ b'/' ∷ [])

-- The last line of the output, which must end in a; its last character is cut off.
last_line : List Text → Result Text
last_line [] = err index_error
last_line (l ∷ []) = ok l
last_line (l ∷ k ∷ ls) = last_line (k ∷ ls)

-- s[:-1] of a text that ends in a
without_final_a : Text → Option Text
without_final_a s = elim (reverse s) [
  | [] ↦ none
  | c ∷ r ↦ if c == b'a' then some (reverse r) else none
]

epair_stem : Option Text → Result Text
epair_stem none = err (runtime_error "Unexpected epair interface name" [])
epair_stem (some stem) = ok stem

epair_name : Result Text → Result Text
unfolding epair_stem
epair_name (err e) = err e
epair_name (ok line) = epair_stem (without_final_a (strip line))

unfoldable pub epair_of_output : Text → Result Text
unfolding last_line without_final_a epair_name
epair_of_output output = epair_name (last_line (split_lines (strip output)))

-- The record once the jail is built, with the two ends of its epair.
unfoldable pub built_jail : Text → RuntimeRecord → RuntimeRecord
built_jail stem r = record r {
  dataset_created = bool true;
  epair_host = str (stem ++ b'a' ∷ []);
  epair_guest = str (stem ++ b'b' ∷ []);
  jail_created = bool true;
}

module _ {W : Type 0} (m : Manager W) where
  -- A link in the way is removed first.
  unfoldable pub unlink_symlink : Text → Sys W (Unit {0})
  unlink_symlink path w =
      let removed = file m.host (unlink path) w in
      if m.host.is_symlink path w then removed else (ok tt, w)

  unfoldable pub write_key_files : Text → ℤ → ℤ → Text → Sys W (Unit {0})
  unfolding unlink_symlink text
  write_key_files home uid gid public_key = do
    let ssh_dir = home ++ text "/.ssh"
    let authorized_keys = home ++ text "/.ssh/authorized_keys"
    unlink_symlink ssh_dir
    file m.host (mkdir ssh_dir 0o700)
    file m.host (chmod ssh_dir 0o700)
    file m.host (chown ssh_dir uid gid)
    unlink_symlink authorized_keys
    file m.host (write_text authorized_keys (public_key ++ 10 ∷ []))
    file m.host (chmod authorized_keys 0o600)
    file m.host (chown authorized_keys uid gid)

  -- Nothing is written where the resolved home is not inside the resolved root of the jail.
  unfoldable pub install_for : Text → Text → JailUser → Sys W (Unit {0})
  install_for jail_root public_key user w =
      let home = m.host.resolve (jail_root ++ (b'/' ∷ drop_leading b'/' user.home)) w in
      let written = write_key_files home user.uid user.gid public_key w in
      if not (is_inside (m.host.resolve jail_root w) home)
      then (err (runtime_error "Jail SSH home escapes the jail root" []), w)
      else written

  parsed : {A : Type 0} → Result A → Sys W A
  parsed r w = (r, w)

  unfoldable pub install_jail_authorized_key : Text → Text → Sys W (Unit {0})
  unfolding parsed text
  install_jail_authorized_key jail_root public_key = do
    shown ←
        run m.host
          (text "pw"
            ∷ text "-R"
            ∷ jail_root
            ∷ text "usershow"
            ∷ text "-n"
            ∷ m.config.jail_ssh_user
            ∷ text "-7"
            ∷ [])
          true (some 60)
    user ← parsed (passwd_fields (split_at b':' (strip shown.stdout)))
    install_for jail_root public_key user

  -- The script that renames the interface, brings it up and starts sshd inside the jail.
  start_script : Text → Text → Text
  unfolding text
  start_script epair_guest address =
      let name = shell_quote m.config.jail_interface_name in
      text "ifconfig "
      ++ (shell_quote epair_guest
          ++ (text " name "
              ++ (name
                  ++ (text " && ifconfig "
                      ++ (name
                          ++ (text " inet "
                              ++ (shell_quote address
                                  ++ (b'/'
                                      ∷ (decimal m.config.prefix_len
                                          ++ (text " up && ifconfig lo0 inet 127.0.0.1/8 up && "
                                              ++ (shell_quote m.config.jail_sshd_service
                                                  ++ text " sshd onestart")))))))))))

  make_epair : Sys W Text
  unfolding parsed text
  make_epair = do
    shown ← run m.host (text "ifconfig" ∷ text "epair" ∷ text "create" ∷ []) true (some 60)
    parsed (epair_of_output shown.stdout)

  attach_epair : Text → Sys W (Unit {0})
  unfolding text
  attach_epair epair_host = do
    command m (text "ifconfig" ∷ m.config.bridge_name ∷ text "addm" ∷ epair_host ∷ [])
    command m (text "ifconfig" ∷ m.config.bridge_name ∷ text "private" ∷ epair_host ∷ [])
    command m (text "ifconfig" ∷ epair_host ∷ text "up" ∷ [])

  start_jail : Text → Text → Text → Text → Sys W (Unit {0})
  unfolding text start_script
  start_jail name jail_root epair_guest address = do
    command m (
        text "jail"
        ∷ text "-c"
        ∷ (text "name=" ++ name)
        ∷ (text "path=" ++ jail_root)
        ∷ (text "host.hostname=" ++ name)
        ∷ text "persist"
        ∷ text "exec.clean"
        ∷ text "mount.devfs"
        ∷ text "vnet"
        ∷ (text "vnet.interface=" ++ epair_guest)
        ∷ [])
    command m (text "jexec" ∷ name ∷ text "sh" ∷ text "-c" ∷ start_script epair_guest address ∷ [])

  -- The commands of the body of the `try`, up to the second registry write; the stem of the epair.
  unfoldable pub assemble_jail : Text → Text → Text → Text → Text → Sys W Text
  unfolding make_epair attach_epair start_jail text
  assemble_jail name dataset jail_root address public_key = do
    command m (
        text "zfs"
        ∷ text "clone"
        ∷ text "-o"
        ∷ (text "mountpoint=" ++ jail_root)
        ∷ m.config.jail_template_snapshot
        ∷ dataset
        ∷ [])
    install_jail_authorized_key jail_root public_key
    stem ← make_epair
    attach_epair (stem ++ b'a' ∷ [])
    start_jail name jail_root (stem ++ b'b' ∷ []) address
    pure stem

  -- The record as it is at the second registry write.
  unfoldable pub build_jail : Text → Text → Text → Text → Text → RuntimeRecord → Sys W RuntimeRecord
  unfolding built_jail
  build_jail name dataset jail_root address public_key r = do
    stem ← assemble_jail name dataset jail_root address public_key
    pure (built_jail stem r)
