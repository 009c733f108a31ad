-- ===== src/Identity.antt =====
-- freebsd_laboratory/process_identity.py: the fingerprint of a live process by which ownership of
-- a runtime or of a port lease is recognised again.
pub mod Laws
use freebsd_laboratory.Base.{
  ℕ, Bool, true, false, List, [], ◌∷◌, ◌++◌, Option, none, some, not, ◌&&◌, ◌||◌, ◌==◌,
  if◌then◌else◌, is_nil,
}
use freebsd_laboratory.Base.Int.{ℤ, pos, eq_ℤ, le_ℤ}
use freebsd_laboratory.Base.Text.{Text, text, eq_text}
use freebsd_laboratory.Base.Decimal.{decimal}
use freebsd_laboratory.Base.Split.{words}
use freebsd_laboratory.Base.PythonInt.{int_of}
use freebsd_laboratory.Base.Value.{Value, int?, str?}
use freebsd_laboratory.Host.{
  Host, Completed, Outcome, completed, timed_out, not_started, Signalled, delivered,
  no_such_process, not_permitted, is_zero,
}

pub record ProcessIdentity : Type 0 where
  pub pid : ℤ
  pub uid : ℤ
  pub started_at : Text
  pub digest : Text

-- str(i) of an int
unfoldable pub int_text : ℤ → Text
unfolding decimal
int_text (pos n) = decimal n
int_text (ℤ.negsuc n) = b'-' ∷ decimal (ℕ.suc n)

-- " ".join(ws)
unfoldable pub join_words : List Text → Text
join_words [] = []
join_words (w ∷ []) = w
join_words (w ∷ v ∷ ws) = w ++ (b' ' ∷ join_words (v ∷ ws))

exists_by_signal : Signalled → Bool
exists_by_signal no_such_process = false
exists_by_signal not_permitted = true
exists_by_signal delivered = true

-- uid:started_at, as it is hashed
fingerprint_text : ℤ → Text → Text
fingerprint_text uid started_at = int_text uid ++ (b':' ∷ started_at)

identity_of : (Text → Text) → ℤ → Option ℤ → Text → Option ProcessIdentity
identity_of sha256 pid none started_at = none
identity_of sha256 pid (some uid) started_at = some (record {
  pid = pid;
  uid = uid;
  started_at = started_at;
  digest = sha256 (fingerprint_text uid started_at);
})

-- `normalized.partition(" ")` of the joined words: the first word, and the others joined again.
parsed_line : (Text → Text) → ℤ → List Text → Option ProcessIdentity
parsed_line sha256 pid [] = none
parsed_line sha256 pid (w ∷ []) = none
parsed_line sha256 pid (w ∷ v ∷ ws) = identity_of sha256 pid (int_of w) (join_words (v ∷ ws))

read_ps : (Text → Text) → ℤ → Outcome → Option ProcessIdentity
read_ps sha256 pid (completed c) =
    if is_zero c.returncode then parsed_line sha256 pid (words c.stdout) else none
read_ps sha256 pid timed_out = none
read_ps sha256 pid not_started = none

module _ {W : Type 0} (host : Host W) where
  unfoldable pub pid_exists : ℤ → W → Bool
  unfolding exists_by_signal
  pid_exists pid w = le_ℤ 2 pid && exists_by_signal (host.signal_zero pid w)

  abbrev ps_argv : ℤ → List Text
  ps_argv pid =
      text "/bin/ps"
      ∷ text "-o"
      ∷ text "uid="
      ∷ text "-o"
      ∷ text "lstart="
      ∷ text "-p"
      ∷ int_text pid
      ∷ []

  query_live : ℤ → W → Option ProcessIdentity × W
  unfolding read_ps
  query_live pid w =
      let (o, w') = host.subprocess (ps_argv pid) (some 5) w in (read_ps host.sha256 pid o, w')

  unfoldable pub query_process_identity : ℤ → W → Option ProcessIdentity × W
  unfolding pid_exists query_live read_ps parsed_line identity_of fingerprint_text int_text
      join_words
  query_process_identity pid w = if pid_exists pid w then query_live pid w else (none, w)

abbrev same_identity : ℤ → Text → Option ProcessIdentity → Bool
same_identity uid digest none = false
same_identity uid digest (some identity) = eq_ℤ identity.uid uid && eq_text identity.digest digest

-- The guard of `process_matches`: pid > 1, uid >= 0 and a digest that is not empty.
abbrev pub plausible : ℤ → ℤ → Text → Bool
plausible pid uid digest = le_ℤ 2 pid && le_ℤ 0 uid && not (is_nil digest)

module _ {W : Type 0} (host : Host W) where
  unfoldable pub process_matches : ℤ → ℤ → Text → W → Bool × W
  process_matches pid uid digest w =
      let (identity, w') = query_process_identity host pid w in
      if plausible pid uid digest then (same_identity uid digest identity, w') else (false, w)
