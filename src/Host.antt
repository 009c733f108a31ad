-- ===== src/Host.antt =====
-- What the Python process asks of its host: subprocesses, signals, the file system. The operating
-- system and the commands that it runs are not part of the repository; they are the fields of
-- `Host`, over a state `W` of the outside world of which nothing is assumed.
-- `run` is `RuntimeManager._run` of freebsd_laboratory/runtime_daemon.py.
use freebsd_laboratory.Base.{ℕ, if◌then◌else◌, Bool, true, false, List, [], Option, not, ◌&&◌}
use freebsd_laboratory.Base.Int.{ℤ, pos}
use freebsd_laboratory.Base.Text.{Text}
use freebsd_laboratory.Base.Result.{Result, ok, err, Error, runtime_error, os_error}

-- subprocess.CompletedProcess
pub record Completed : Type 0 where
  pub returncode : ℤ
  pub stdout : Text
  pub stderr : Text

-- What subprocess.run does: return, or raise TimeoutExpired or OSError.
pub data Outcome : Type 0 where
  completed : Completed → Outcome
  timed_out : Outcome
  not_started : Outcome

-- os.kill(pid, 0)
pub data Signalled : Type 0 where
  delivered no_such_process not_permitted : Signalled

pub data FileCall : Type 0 where
  unlink : Text → FileCall
  mkdir : Text → ℕ → FileCall
  chmod : Text → ℕ → FileCall
  chown : Text → ℤ → ℤ → FileCall
  write_text : Text → Text → FileCall
  dump_json : Text → FileCall

pub record Host (W : Type 0) : Type 0 where
  pub subprocess : List Text → Option ℕ → W → Outcome × W
  pub signal_zero : ℤ → W → Signalled
  pub file_call : FileCall → W → Bool × W
  pub mkstemp : Text → W → Option Text × W
  pub is_symlink : Text → W → Bool
  pub is_file : Text → W → Bool
  pub is_executable : Text → W → Bool
  pub resolve : Text → W → Text
  pub refuses : Text → W → Bool
  pub unwritable : Text → W → Bool
  pub sha256 : Text → Text
  pub b64decode : Text → Option (List ℕ)

-- `dump_json p` writes a JSON document to `p` and forces it to disk; `refuses p w` says that no new
-- file can be created at `p` though none is there, and `unwritable p w` that a new file there cannot
-- be written.

-- Code that acts on the outside world alone, and may raise.
abbrev pub Sys : Type 0 → Type 0 → Type 0
Sys W A = W → Result A × W

module _ {W A : Type 0} where
  abbrev pub pure : A → Sys W A
  pure a w = (ok a, w)

  abbrev pub raise : Error → Sys W A
  raise e w = (err e, w)

module _ {W A B : Type 0} where
  abbrev pub continue : Result A → (A → Sys W B) → Sys W B
  continue (ok a) f w = f a w
  continue (err e) f w = (err e, w)

  infixl 5 ◌>>=◌ ◌>>◌
  abbrev pub ◌>>=◌ : Sys W A → (A → Sys W B) → Sys W B
  ◌>>=◌ m f w = continue (m w).0 f (m w).1

  abbrev pub ◌>>◌ : Sys W A → Sys W B → Sys W B
  m >> n = m >>= λ _. n

abbrev pub is_zero : ℤ → Bool
is_zero (pos ℕ.zero) = true
is_zero _ = false

-- The result of a finished command: with `check`, a nonzero exit status raises.
unfoldable pub checked : Bool → List Text → Outcome → Result Completed
checked check argv (completed c) =
    if check && not (is_zero c.returncode) then err (runtime_error "command failed" argv) else ok c
checked check argv timed_out = err (runtime_error "Command timed out" argv)
checked check argv not_started =
    if check
    then err (runtime_error "Unable to execute" argv)
    else ok (record { returncode = pos 127; stdout = []; stderr = [] })

-- `timeout` in whole seconds, `none` for no limit
unfoldable pub run : {W : Type 0} → Host W → List Text → Bool → Option ℕ → Sys W Completed
unfolding checked
run host argv check timeout w =
    let (o, w') = host.subprocess argv timeout w in (checked check argv o, w')

abbrev pub succeeded : Completed → Bool
succeeded c = is_zero c.returncode

-- A file operation that raises OSError when it fails.
unfoldable pub file : {W : Type 0} → Host W → FileCall → Sys W (Unit {0})
file host call w =
    let (done, w') = host.file_call call w in (if done then ok tt else err os_error, w')
