-- ===== src/Daemon/Discover.antt =====
-- What runs on the host under the daemon's name prefix: jails, guests, datasets, epairs.
use freebsd_laboratory.Base.{
  ℕ, zero, suc, Bool, true, false, List, [], ◌∷◌, ◌++◌, Option, none, some, ◌==◌, not, ◌&&◌, ◌||◌,
  if◌then◌else◌, is_nil, length, drop,
}
use freebsd_laboratory.Base.Text.{Text, text, starts_with, is_digit, is_lower, is_upper}
use freebsd_laboratory.Base.Split.{words, split_lines, is_space, rstrip, strip, split_at}
use freebsd_laboratory.Base.Result.{ok}
use freebsd_laboratory.Host.{Sys, pure, ◌>>=◌, run, succeeded}
use freebsd_laboratory.Daemon.Config.{Manager}
use freebsd_laboratory.Daemon.Names.{matches_runtime_name, runtime_prefix}
use freebsd_laboratory.Daemon.Teardown.{vm_available}

-- The longest front whose characters pass, and the rest.
unfoldable pub span : (ℕ → Bool) → Text → Text × Text
span p [] = ([], [])
span p (c ∷ s) = let (front, rest) = span p s in if p c then (c ∷ front, rest) else ([], c ∷ s)

-- (?:"([^"]+)"|(\S+)) at the front of a text: the name, and what follows it.
quoted : Text × Text → Option (Text × Text)
quoted ([], rest) = none
quoted (c ∷ name, []) = none
quoted (c ∷ name, d ∷ rest) = some (c ∷ name, rest)

bare : Text × Text → Option (Text × Text)
bare ([], rest) = none
bare (c ∷ name, rest) = some (c ∷ name, rest)

jls_value : Text → Option (Text × Text)
unfolding span quoted bare
jls_value [] = none
jls_value (c ∷ s) =
    let plain = bare (span (λ d. not (is_space d)) (c ∷ s)) in
    if c == b'"'
    then elim (quoted (span (λ d. not (d == b'"')) s)) [ none ↦ plain | some q ↦ some q ]
    else plain

-- re.finditer(r'(?:^|\s)name=(?:"([^"]+)"|(\S+))', s): `at_start` only before the first character.
-- Each round passes at least one character, so the length of the text is enough fuel.
jls_names : ℕ → Bool → Text → List Text
jls_names zero at_start s = []
jls_names (suc fuel) at_start [] = []
jls_names (suc fuel) at_start (c ∷ s) =
    let skip = jls_names fuel false s in
    let here : List Text = elim (jls_value (drop 5 (c ∷ s))) [
      | none ↦ skip
      | some (name, rest) ↦ name ∷ jls_names fuel false rest
    ] in
    let behind : List Text = elim (jls_value (drop 5 s)) [
      | none ↦ skip
      | some (name, rest) ↦ name ∷ jls_names fuel false rest
    ] in
    if at_start && starts_with (c ∷ s) (text "name=")
    then here
    else if is_space c && starts_with s (text "name=")
    then behind
    else skip

-- The names of the runtimes among some texts.
only_runtimes : List Text → List Text
only_runtimes [] = []
only_runtimes (s ∷ ss) =
    let rest = only_runtimes ss in if matches_runtime_name s then s ∷ rest else rest

-- The first fields of lines.
first_fields : List Text → List Text
first_fields [] = []
first_fields (l ∷ ls) = elim (words l) [ [] ↦ first_fields ls | w ∷ ws ↦ w ∷ first_fields ls ]

with_prefix : Text → List Text → List Text
with_prefix p [] = []
with_prefix p (s ∷ ss) =
    let rest = with_prefix p ss in if starts_with (strip s) p then strip s ∷ rest else rest

last_piece : List Text → Text
last_piece [] = []
last_piece (p ∷ []) = p
last_piece (p ∷ q ∷ ps) = last_piece (q ∷ ps)

-- dataset.rsplit("/", 1)[-1]
unfoldable pub base_name : Text → Text
unfolding last_piece
base_name s = last_piece (split_at b'/' s)

is_word : ℕ → Bool
is_word c = is_lower c || is_upper c || is_digit c || c == b'_'

ends_word : Text → Bool
ends_word [] = true
ends_word (c ∷ s) = not (is_word c)

-- (epair\d+a)\b at the front of a text
epair_digits : Text × Text → Option Text
epair_digits ([], rest) = none
epair_digits (d ∷ ds, []) = none
epair_digits (d ∷ ds, c ∷ rest) =
    if c == b'a' && ends_word rest then some (text "epair" ++ (d ∷ ds ++ b'a' ∷ [])) else none

epair_at : Text → Option Text
unfolding span epair_digits ends_word is_word
epair_at s = if starts_with s (text "epair") then epair_digits (span is_digit (drop 5 s)) else none

-- member:\s+ and an epair, at the front of a text
member_at : Text → Option Text
unfolding span epair_at
member_at s =
    let (spaces, rest) = span is_space (drop 7 s) in
    if starts_with s (text "member:") && not (is_nil spaces) then epair_at rest else none

-- The matches cannot overlap, so every position is tried.
unfoldable pub bridge_members : Text → List Text
unfolding member_at text
bridge_members [] = []
bridge_members (c ∷ s) = elim (member_at (c ∷ s)) [
  | none ↦ bridge_members s
  | some e ↦ e ∷ bridge_members s
]

unfoldable pub names_of_jls : Text → List Text
unfolding jls_names jls_value only_runtimes text is_space
names_of_jls output = only_runtimes (jls_names (length output) true output)

unfoldable pub names_of_vm_list : Text → List Text
unfolding first_fields only_runtimes
names_of_vm_list output = only_runtimes (first_fields (split_lines output))

module _ {W : Type 0} (m : Manager W) where
  -- What a command printed, or nothing if it failed.
  output_of : List Text → (Text → List Text) → Sys W (List Text)
  output_of argv read = do
    c ← run m.host argv false (some 60)
    pure (if succeeded c then read c.stdout else [])

  unfoldable pub discover_jails : Sys W (List Text)
  unfolding output_of text
  discover_jails = output_of (text "jls" ∷ text "-n" ∷ text "name" ∷ []) names_of_jls

  unfoldable pub discover_vms : Sys W (List Text)
  unfolding output_of text
  discover_vms w =
      let asked = output_of (m.config.vm_command ∷ text "list" ∷ []) names_of_vm_list w in
      if vm_available m w then asked else (ok [], w)

  dataset_prefix : Text
  dataset_prefix = rstrip b'/' m.config.jail_dataset_parent ++ (b'/' ∷ runtime_prefix)

  unfoldable pub discover_datasets : Sys W (List Text)
  unfolding output_of text with_prefix dataset_prefix
  discover_datasets =
      output_of
        (text "zfs"
          ∷ text "list"
          ∷ text "-H"
          ∷ text "-o"
          ∷ text "name"
          ∷ text "-r"
          ∷ m.config.jail_dataset_parent
          ∷ [])
        (λ output. with_prefix dataset_prefix (split_lines output))

  unfoldable pub bridge_epairs : Sys W (List Text)
  unfolding output_of text
  bridge_epairs = output_of (text "ifconfig" ∷ m.config.bridge_name ∷ []) bridge_members
