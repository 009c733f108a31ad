-- ===== src/Daemon/Teardown.antt =====
-- The part of `RuntimeManager.destroy` that runs commands: it removes the guest, the memory disk,
-- the datasets, the jail and the epair that a record names, and raises if one of them remains.
pub mod Checked
use freebsd_laboratory.Base.{
  ℕ, zero, suc, Bool, true, false, List, [], ◌∷◌, ◌++◌, Option, none, some, not, ◌&&◌, ◌==◌,
  if◌then◌else◌, is_nil, all, drop,
}
use freebsd_laboratory.Base.Text.{Text, text, starts_with, is_digit}
use freebsd_laboratory.Base.Split.{rstrip}
use freebsd_laboratory.Base.Value.{Value, str?, eq_str}
use freebsd_laboratory.Base.Result.{ok, err, runtime_error}
use freebsd_laboratory.Host.{Sys, pure, raise, ◌>>=◌, ◌>>◌, run, succeeded}
use freebsd_laboratory.Daemon.Config.{RuntimeRecord, Manager}

module _ {W : Type 0} (m : Manager W) where
  unfoldable pub vm_available : W → Bool
  vm_available w =
      m.host.is_file m.config.vm_command w && m.host.is_executable m.config.vm_command w

  unfoldable pub require_vm_backend : Sys W (Unit {0})
  require_vm_backend w =
      if vm_available w
      then (ok tt, w)
      else (err (runtime_error "bhyve backend is unavailable" (m.config.vm_command ∷ [])), w)

  -- `self._run(argv, check=False).returncode == 0`
  unfoldable pub answers : List Text → Sys W Bool
  answers argv = do c ← run m.host argv false (some 60); pure (succeeded c)

  unfoldable pub jail_exists : Text → Sys W Bool
  unfolding text
  jail_exists name = answers (text "jls" ∷ text "-j" ∷ name ∷ text "name" ∷ [])

  unfoldable pub vm_exists : Text → Sys W Bool
  unfolding text
  vm_exists name w =
      let asked = answers (m.config.vm_command ∷ text "info" ∷ name ∷ []) w in
      if vm_available w then asked else (ok false, w)

  unfoldable pub dataset_exists : Text → Sys W Bool
  unfolding text
  dataset_exists dataset =
      answers (text "zfs" ∷ text "list" ∷ text "-H" ∷ text "-o" ∷ text "name" ∷ dataset ∷ [])

  unfoldable pub interface_exists : Text → Sys W Bool
  unfolding text
  interface_exists interface = answers (text "ifconfig" ∷ interface ∷ [])

-- re.fullmatch(r"md\d+", s) and re.fullmatch(r"epair\d+a", s), with ASCII digits
unfoldable pub is_md_unit : Text → Bool
unfolding text
is_md_unit s = starts_with s (text "md") && not (is_nil (drop 2 s)) && all is_digit (drop 2 s)

-- One or more digits, then a final a.
digits_then_a : Bool → Text → Bool
digits_then_a seen [] = false
digits_then_a seen (c ∷ s) =
    let more = digits_then_a true s in if is_digit c then more else seen && c == b'a' && is_nil s

unfoldable pub is_epair_host : Text → Bool
unfolding text digits_then_a
is_epair_host s = starts_with s (text "epair") && digits_then_a false (drop 5 s)

-- isinstance(v, str) and the test
unfoldable pub text_where : (Text → Bool) → Value → Option Text
text_where test (Value.str s) = if test s then some s else none
text_where test _ = none

module _ {W : Type 0} (m : Manager W) where
  -- `for _ in range(n)`: run until the command exits with 0; whether it ever did.
  unfoldable pub retry : ℕ → List Text → ℕ → Sys W Bool
  retry zero argv timeout = pure false
  retry (suc n) argv timeout =
      let rest = retry n argv timeout in
      do c ← run m.host argv false (some timeout); if succeeded c then pure true else rest

  -- What is appended to `removed`, or to `remaining`.
  abbrev pub listed : Text → Bool → List Text
  listed what true = what ∷ []
  listed what false = []

  unfoldable pub jail_dataset : Text → Text
  jail_dataset name = rstrip b'/' m.config.jail_dataset_parent ++ (b'/' ∷ name)

  unfoldable pub remove_vm_now : Text → Sys W (List Text)
  unfolding text
  remove_vm_now name = do
    run m.host (m.config.vm_command ∷ text "poweroff" ∷ text "-f" ∷ name ∷ []) false (some 20)
    done ← retry 5 (m.config.vm_command ∷ text "destroy" ∷ text "-f" ∷ name ∷ []) 60
    pure (listed (text "bhyve") done)

  unfoldable pub remove_vm : Bool → Text → Sys W (List Text)
  unfolding remove_vm_now
  remove_vm true name = do require_vm_backend m; remove_vm_now name
  remove_vm false name = do there ← vm_exists m name; if there then remove_vm_now name else pure []

  unfoldable pub remove_md : Option Text → Sys W (List Text)
  unfolding text
  remove_md none = pure []
  remove_md (some unit) = do
    done ← retry 5 (text "mdconfig" ∷ text "-d" ∷ text "-u" ∷ drop 2 unit ∷ []) 60
    pure (listed unit done)

  unfoldable pub remove_dataset_now : Text → Sys W (List Text)
  unfolding text
  remove_dataset_now dataset = do
    done ← retry 10 (text "zfs" ∷ text "destroy" ∷ text "-r" ∷ text "-f" ∷ dataset ∷ []) 60
    pure (listed dataset done)

  unfoldable pub remove_dataset : Option Text → Sys W (List Text)
  unfolding remove_dataset_now
  remove_dataset none = pure []
  remove_dataset (some dataset) = do
    there ← dataset_exists m dataset
    if there then remove_dataset_now dataset else pure []

  unfoldable pub remove_jail_now : Text → Sys W (List Text)
  unfolding text
  remove_jail_now name = do
    done ← retry 5 (text "jail" ∷ text "-r" ∷ name ∷ []) 30
    pure (listed (text "jail") done)

  unfoldable pub remove_jail : Bool → Text → Sys W (List Text)
  unfolding remove_jail_now
  remove_jail true name = remove_jail_now name
  remove_jail false name = do
    there ← jail_exists m name
    if there then remove_jail_now name else pure []

  unfoldable pub remove_epair : Option Text → Sys W (List Text)
  unfolding text
  remove_epair none = pure []
  remove_epair (some interface) = do
    done ← retry 5 (text "ifconfig" ∷ interface ∷ text "destroy" ∷ []) 60
    pure (listed interface done)

  unfoldable pub still_there : (Text → Sys W Bool) → Option Text → Sys W (List Text)
  still_there exists none = pure []
  still_there exists (some what) = do there ← exists what; pure (listed what there)

  unfoldable pub md_exists : Text → Sys W Bool
  unfolding text
  md_exists unit = answers m (text "mdconfig" ∷ text "-l" ∷ text "-u" ∷ drop 2 unit ∷ [])

  -- The list `remaining`, in the order of the checks.
  unfoldable pub remaining : Text → RuntimeRecord → Sys W (List Text)
  unfolding text
  remaining name r = do
    vm ← vm_exists m name
    jail ← jail_exists m name
    epair ← still_there (interface_exists m) (text_where is_epair_host r.epair_host)
    md ← still_there md_exists (text_where is_md_unit r.md_unit)
    recorded ← still_there (dataset_exists m) (str? r.dataset)
    own ← dataset_exists m (jail_dataset name)
    pure (
        listed (text "bhyve") vm
        ++ (listed (text "jail") jail
            ++ (epair ++ (md ++ (recorded ++ listed (jail_dataset name) own)))))

  -- `if remaining: raise RuntimeError`
  unfoldable pub assert_gone : Text → List Text → Sys W (Unit {0})
  assert_gone name [] = pure tt
  assert_gone name (what ∷ others) =
      raise (runtime_error "Runtime cleanup incomplete" (name ∷ what ∷ others))

  unfoldable pub teardown : Text → RuntimeRecord → Sys W (List Text)
  unfolding text
  teardown name r = do
    vm ← remove_vm (eq_str r.kind (text "bhyve")) name
    md ← remove_md (text_where is_md_unit r.md_unit)
    recorded ← remove_dataset (str? r.dataset)
    jail ← remove_jail (eq_str r.kind (text "jail")) name
    epair ← remove_epair (text_where is_epair_host r.epair_host)
    own ← remove_dataset (some (jail_dataset name))
    left ← remaining name r
    assert_gone name left
    pure (vm ++ (md ++ (recorded ++ (jail ++ (epair ++ own)))))
