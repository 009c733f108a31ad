-- ===== src/Provisioner/Info.antt =====
-- `get_provisioner_info` and `load_provisioner_info`: the provisioner's state through a restart of
-- the server. `base` is the information of the class that is extended.
pub mod RoundTrip
use freebsd_laboratory.Base.{
  Bool, true, false, List, [], ◌∷◌, Option, none, some, ◌≡◌, ◌⊎◌, inl, inr, refl, ap, ◌∙◌, not,
  ◌&&◌, if◌then◌else◌, arith,
}
use freebsd_laboratory.Base.Int.{ℤ}
use freebsd_laboratory.Base.Text.{Text, text, eq_text, eq_text_iff}
use freebsd_laboratory.Base.Result.{Result, ok, err}
use freebsd_laboratory.Evidence.Json.{
  Json, Items, Members, null, bool, int, real, str, array, object, nil, item, end, member, get, put,
  get-put,
}
use freebsd_laboratory.Connection.{
  validate_port_sequence, put_ports, connection_ports, connection_port_fields,
}
use freebsd_laboratory.Client.Request.{truthy}
use freebsd_laboratory.Provisioner.Session.{
  Session, Setting, Kind, jail, freebsd_bhyve, linux_bhyve,
}
use freebsd_laboratory.Provisioner.Runtime.{under}

unfoldable pub name_key : Kind → Text
unfolding text
name_key jail = text "jail_name"
name_key freebsd_bhyve = text "vm_name"
name_key linux_bhyve = text "vm_name"

unfoldable pub text_or_null : Option Text → Json
text_or_null none = null
text_or_null (some t) = str t

unfoldable pub ports_json : List ℤ → Items
ports_json [] = nil
ports_json (p ∷ ps) = item (int p) (ports_json ps)

-- The document that `zip` makes of the fields and the values, where there are as many values.
zipped : List Text → Items → Members → Option Members
zipped [] nil d = some d
zipped (f ∷ fields) (item v vs) d = zipped fields vs (put f v d)
zipped _ _ d = none

ports_or_none : Result (List ℤ) → List ℤ
ports_or_none (ok ps) = ps
ports_or_none (err e) = []

of_zipped : Option Members → List ℤ
unfolding ports_or_none
of_zipped none = []
of_zipped (some d) = ports_or_none (connection_ports d)

-- `persisted_connection_ports`
unfoldable pub persisted_connection_ports : Option Json → List ℤ
unfolding zipped of_zipped
persisted_connection_ports (some (array vs)) = of_zipped (zipped connection_port_fields vs end)
persisted_connection_ports _ = []

unfoldable pub nonempty_text : Option Json → Option Text
nonempty_text (some (str (c ∷ t))) = some (c ∷ t)
nonempty_text _ = none

unfoldable pub truth : Option Json → Bool
truth none = false
truth (some v) = truthy v

module _ {W : Type 0} (setting : Setting W) where
  unfoldable pub get_provisioner_info : Members → Session W → Members
  unfolding text
  get_provisioner_info base s = put (text "tunnel_ports") (array (ports_json s.tunnel_ports)) (
      put (text "original_connection_ports") (array (ports_json s.original_ports)) (
        put (text "original_connection_ip") (text_or_null s.original_ip) (
          put (text "runtime_created") (bool s.runtime_created) (
            put (text "known_hosts_file") (text_or_null s.known_hosts_file) (
              put (text "guest_ip") (text_or_null s.guest_ip)
                (put (name_key setting.traits.kind) (text_or_null s.runtime_name) base))))))

  -- The key of a runtime, where it is a regular file.
  unfoldable pub private_key_of : Option Text → W → Option Text
  unfolding text
  private_key_of none w = none
  private_key_of (some name) w =
      let candidate = under (under setting.traits.runtime_dir name) (text "id_ed25519") in
      if setting.net.host.is_file candidate w && not (setting.net.host.is_symlink candidate w)
      then some candidate
      else none

  -- of a dictionary
  unfoldable pub load_provisioner_info : Members → Session W → Session W
  unfolding text
  load_provisioner_info info s =
      let name = nonempty_text (get (name_key setting.traits.kind) info) in
      record s {
        runtime_name = name;
        guest_ip = nonempty_text (get (text "guest_ip") info);
        known_hosts_file = nonempty_text (get (text "known_hosts_file") info);
        ssh_private_key = private_key_of name s.world;
        runtime_created = truth (get (text "runtime_created") info);
        original_ip = nonempty_text (get (text "original_connection_ip") info);
        original_ports = persisted_connection_ports (get (text "original_connection_ports") info);
        tunnel_ports = persisted_connection_ports (get (text "tunnel_ports") info);
      }
