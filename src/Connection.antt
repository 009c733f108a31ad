-- ===== src/Connection.antt =====
-- freebsd_laboratory/remote_connection.py: the Jupyter connection document and the kernel command.
-- The document is what `json.loads` makes of the file; reading and replacing the file is left out.
pub mod Ports
use freebsd_laboratory.Base.{
  ℕ, Bool, true, false, List, [], ◌∷◌, ◌++◌, Option, none, some, ◌≡◌, refl, not, ◌&&◌, ◌||◌,
  if◌then◌else◌, arith,
}
use freebsd_laboratory.Base.Int.{ℤ, pos, eq_ℤ, le_ℤ}
use freebsd_laboratory.Base.Text.{Text, text, eq_text, eq_text_iff, member}
use freebsd_laboratory.Base.Result.{
  Result, ok, err, Error, value_error, runtime_error, ◌>>=◌, ◌>>◌, raise_if,
}
use freebsd_laboratory.Evidence.Json.{Json, Members, int, str, end, get, put, get-put}

unfoldable pub connection_port_fields : List Text
unfolding text
connection_port_fields =
    text "shell_port"
    ∷ text "iopub_port"
    ∷ text "stdin_port"
    ∷ text "control_port"
    ∷ text "hb_port"
    ∷ []

unfoldable pub ip_key : Text
unfolding text
ip_key = text "ip"

-- The loop of `remote_kernel_command`: the new arguments, and `replaced`.
unfoldable pub replace_arguments : List Text → Text → List Text → List Text × Bool
replace_arguments candidates remote [] = ([], false)
replace_arguments candidates remote (a ∷ command) =
    let (result, replaced) = replace_arguments candidates remote command in
    if member a candidates then (remote ∷ result, true) else (a ∷ result, replaced)

replaced_command : List Text × Bool → Result (List Text)
replaced_command (result, true) = ok result
replaced_command (result, false) =
    err (runtime_error "Kernel command does not contain the Jupyter connection file" [])

-- `candidates` are the three spellings of the host's connection file.
unfoldable pub remote_kernel_command : List Text → List Text → Text → Result (List Text)
unfolding replaced_command
remote_kernel_command command candidates remote =
    replaced_command (replace_arguments candidates remote command)

unfoldable pub valid_port : Text → Option Json → Result ℤ
valid_port field (some (int p)) =
    if le_ℤ 1 p && not (le_ℤ 65536 p)
    then ok p
    else err (runtime_error "Invalid Jupyter connection port" (field ∷ []))
valid_port field _ = err (runtime_error "Invalid Jupyter connection port" (field ∷ []))

abbrev pub member_ℤ : ℤ → List ℤ → Bool
member_ℤ p [] = false
member_ℤ p (q ∷ qs) = eq_ℤ p q || member_ℤ p qs

-- len(set(ports)) == len(ports)
unfoldable pub is_unique : List ℤ → Bool
is_unique [] = true
is_unique (p ∷ ps) = not (member_ℤ p ps) && is_unique ps

unfoldable pub prepend : Result ℤ → Result (List ℤ) → Result (List ℤ)
prepend (err e) rest = err e
prepend (ok p) (err e) = err e
prepend (ok p) (ok ps) = ok (p ∷ ps)

-- The loop over the fields; the first port that is invalid raises.
unfoldable pub read_ports : List Text → Members → Result (List ℤ)
unfolding prepend
read_ports [] document = ok []
read_ports (field ∷ fields) document =
    prepend (valid_port field (get field document)) (read_ports fields document)

unfoldable pub unique_ports : Result (List ℤ) → Result (List ℤ)
unfolding is_unique
unique_ports (err e) = err e
unique_ports (ok ps) =
    if is_unique ps then ok ps else err (value_error "Jupyter connection ports must be unique")

unfoldable pub connection_ports : Members → Result (List ℤ)
unfolding unique_ports read_ports
connection_ports document = unique_ports (read_ports connection_port_fields document)

-- document[field_name] = port, for each field
unfoldable pub put_ports : List Text → List ℤ → Members → Members
put_ports (field ∷ fields) (p ∷ ps) document = put_ports fields ps (put field (int p) document)
put_ports _ _ document = document

-- `_validate_port_sequence` of a sequence of integers
unfoldable pub validate_port_sequence : List ℤ → Result (List ℤ)
unfolding put_ports
validate_port_sequence (a ∷ b ∷ c ∷ d ∷ e ∷ []) =
    connection_ports (put_ports connection_port_fields (a ∷ b ∷ c ∷ d ∷ e ∷ []) end)
validate_port_sequence _ = err (value_error "Expected 5 Jupyter connection ports")

-- The document that `rewrite_connection_file` writes.
unfoldable pub rewrite_document : Text → List ℤ → Members → Members
rewrite_document bind_ip ports document =
    put_ports connection_port_fields ports (put ip_key (str bind_ip) document)

-- The ports that it puts there: the document's own ones where the caller gives none.
unfoldable pub tunnel_ports : Option (List ℤ) → List ℤ → Result (List ℤ)
tunnel_ports none original = ok original
tunnel_ports (some ports) original = validate_port_sequence ports

unfoldable pub restored_ports : Result (List ℤ) → Members → Members
restored_ports (ok ports) document = put_ports connection_port_fields ports document
restored_ports (err e) document = document

unfoldable pub restored_ip : Option Text → Members → Members
restored_ip none document = document
restored_ip (some ip) document = put ip_key (str ip) document

-- The document that `restore_connection_file` writes.
unfoldable pub restore_document : Option Text → List ℤ → Members → Members
unfolding restored_ports restored_ip
restore_document original_ip original_ports document =
    restored_ports (validate_port_sequence original_ports) (restored_ip original_ip document)
