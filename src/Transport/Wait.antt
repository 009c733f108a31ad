-- ===== src/Transport/Wait.antt =====
-- `_run`, `wait_until_ready` and `stage`: the transport's dealings with the guest.
pub mod Ends
use freebsd_laboratory.Base.{
  ℕ, zero, suc, ◌+◌, ◌-◌, ◌*◌, Bool, true, false, List, [], ◌∷◌, ◌++◌, Option, none, some, not,
  ◌&&◌, ◌||◌, if◌then◌else◌, is_nil, ltb, leb, map,
}
use freebsd_laboratory.Base.Int.{ℤ, pos, negsuc}
use freebsd_laboratory.Base.Text.{Text, text, starts_with}
use freebsd_laboratory.Base.Split.{strip, rstrip}
use freebsd_laboratory.Base.Shell.{shell_quote}
use freebsd_laboratory.Base.Result.{Result, ok, err, Error, value_error, runtime_error, os_error}
use freebsd_laboratory.Host
use freebsd_laboratory.Host.{
  Sys, Completed, Outcome, completed, timed_out, not_started, is_zero, checked, ◌>>=◌, ◌>>◌,
}
use freebsd_laboratory.Identity.{join_words}
use freebsd_laboratory.Transport.{SshTransport, Net, command, target}

unfoldable pub min : ℕ → ℕ → ℕ
min a b = if leb a b then a else b

unfoldable pub max : ℕ → ℕ → ℕ
max a b = if leb a b then b else a

-- What one round of the loop says: the loop is over, or it sleeps and goes on with another detail.
pub data Round : Type 0 where
  over : Result (Unit {0}) → Round
  again : Text → ℕ → Round

-- a or b
unfoldable pub or_else : Text → Text → Text
or_else a b = if is_nil a then b else a

-- After the probe's command: a refusal to start is passed on, a timeout and a failure are noted.
unfoldable pub judged : ℕ → List Text → Text → Outcome → Round
unfolding text join_words shell_quote strip or_else
judged nap argv detail timed_out =
    again (text "Command timed out: " ++ join_words (map shell_quote argv)) nap
judged nap argv detail not_started = over (err (runtime_error "Unable to execute" argv))
judged nap argv detail (completed c) =
    if is_zero c.returncode
    then over (ok tt)
    else again (or_else (strip c.stderr) (or_else (strip c.stdout) detail)) nap

module _ {W : Type 0} (net : Net W) where
  -- `_run` with `check`, the text to read and a timeout in ticks
  unfoldable pub run_checked : List Text → Option Text → ℕ → Sys W Completed
  unfolding checked
  run_checked argv input timeout w =
      let (o, w') = net.feed argv input timeout w in (checked true argv o, w')

  -- The round behind an open port 22.
  unfoldable pub try_ssh : Result (List Text) → Text → ℕ → W → Round × W
  unfolding judged
  try_ssh (err e) detail timeout w = (over (err e), w)
  try_ssh (ok argv) detail timeout w =
      let (o, w') = net.feed argv none timeout w in (judged (2 * net.quarter) argv detail o, w')

  -- The rest of a round at a time `now` before the deadline. A negative timeout raises.
  unfoldable pub probe : SshTransport → ℕ → ℕ → Text → ℕ → W → Round × W
  unfolding try_ssh text min
  probe t deadline limit detail now w =
      let (is_open, w') = net.connects t.host (min (2 * net.quarter) (deadline - now)) w in
      let tried = try_ssh (command t (text "true") []) detail (min limit (deadline - now)) w' in
      if ltb deadline now
      then (over (err (value_error "Timeout value out of range")), w)
      else if is_open
      then tried
      else (again (text "TCP port 22 not yet open on " ++ t.host) net.quarter, w')

  unfoldable pub round : SshTransport → ℕ → ℕ → Text → W → Round × W
  unfolding probe
  round t deadline limit detail w =
      let (now, w') = net.monotonic w in
      let (later, w'') = net.monotonic w' in
      let probed = probe t deadline limit detail later w'' in
      if ltb now deadline
      then probed
      else (over (err (runtime_error "Timed out waiting for SSH" (target t ∷ detail ∷ []))), w')

  -- time.sleep(min(nap, max(0, deadline - time.monotonic())))
  unfoldable pub pause : ℕ → ℕ → W → W
  unfolding min
  pause deadline nap w = let (now, w') = net.monotonic w in net.sleep (min nap (deadline - now)) w'

  unfoldable pub wait_loop : ℕ → SshTransport → ℕ → ℕ → Text → W → Option (Result (Unit {0})) × W
  wait_loop zero t deadline limit detail w = (none, w)
  wait_loop (suc fuel) t deadline limit detail w =
      let (said, w') = round t deadline limit detail w in
      elim said [
        | over r ↦ (some r, w')
        | again detail' nap ↦ wait_loop fuel t deadline limit detail' (pause deadline nap w')
      ]

  -- `none` means that the fuel ran out: a round for each tick, and one more.
  unfoldable pub wait_until_ready : SshTransport → ℤ → W → Option (Result (Unit {0})) × W
  unfolding wait_loop max text
  wait_until_ready t (pos (suc timeout)) w =
      let ticks = suc timeout * (4 * net.quarter) in
      let (now, w') = net.monotonic w in
      let limit = max 5 (t.connect_timeout * t.connection_attempts + 2) * (4 * net.quarter) in
      wait_loop (suc ticks) t (now + ticks) limit (text "SSH did not become ready") w'
  wait_until_ready t _ w = (some (err (value_error "timeout must be a positive integer")), w)

  -- `{install} -m 700 {dir} && cat > {path} && chmod 600 {path}`, quoted
  unfoldable pub stage_script : Text → Text → Text
  unfolding text shell_quote
  stage_script remote_dir remote_path =
      text "install -d -m 700 "
      ++ (shell_quote remote_dir
          ++ (text " && cat > "
              ++ (shell_quote remote_path ++ (text " && chmod 600 " ++ shell_quote remote_path))))

  send : Result (List Text) → Option Text → Text → Sys W Text
  send (err e) content remote_path w = (err e, w)
  send (ok argv) none remote_path w = (err os_error, w)
  send (ok argv) (some content) remote_path w =
      (run_checked argv (some content) (60 * net.quarter) >>= λ done. Host.pure remote_path) w

  -- `stage` of a file with its last path component; the remote path.
  unfoldable pub stage : SshTransport → Text → Text → Text → Sys W Text
  unfolding send stage_script text rstrip run_checked
  stage t host_path name remote_dir w =
      let remote_path = rstrip b'/' remote_dir ++ b'/' ∷ name in
      let sent =
        send (command t (stage_script remote_dir remote_path) []) (net.content host_path w)
          remote_path w in
      if not (net.exists host_path w)
      then (err (runtime_error "File to stage does not exist" (host_path ∷ [])), w)
      else if net.host.is_symlink host_path w || not (net.host.is_file host_path w)
      then (err (runtime_error "File to stage must be a regular file" (host_path ∷ [])), w)
      else if not (starts_with remote_dir (b'/' ∷ []))
      then (err (value_error "remote_dir must be an absolute path"), w)
      else sent
