-- ===== src/Provisioner/Info/RoundTrip.antt =====
-- Loading what was given.
use freebsd_laboratory.Base.{
  List, [], ◌∷◌, Option, none, some, ◌≡◌, ◌⊎◌, inl, inr, refl, ap, ◌∙◌, if◌then◌else◌,
}
use freebsd_laboratory.Base.Int.{ℤ}
use freebsd_laboratory.Base.Text.{Text, text, eq_text}
use freebsd_laboratory.Base.Result.{ok}
use freebsd_laboratory.Evidence.Json.{Members, bool, array, get, get-put}
use freebsd_laboratory.Connection.{validate_port_sequence, put_ports, connection_port_fields}
use freebsd_laboratory.Client.Request.{truthy}
use freebsd_laboratory.Provisioner.Session.{
  Session, Setting, Kind, jail, freebsd_bhyve, linux_bhyve,
}
use freebsd_laboratory.Provisioner.Info.{
  name_key, text_or_null, ports_json, persisted_connection_ports, nonempty_text, truth,
  get_provisioner_info, private_key_of, load_provisioner_info,
}

-- No text, or one that is not empty.
abbrev pub IsFilled : Option Text → Type 0
IsFilled none = Unit
IsFilled (some []) = ⊥
IsFilled (some (c ∷ t)) = Unit

-- No ports, or five distinct ones in range.
abbrev pub IsPersistent : List ℤ → Type 0
IsPersistent ps = (ps ≡ []) ⊎ (validate_port_sequence ps ≡ ok ps)

nonempty_text_lem : (o : Option Text) → IsFilled o → nonempty_text (some (text_or_null o)) ≡ o
unfolding nonempty_text text_or_null
nonempty_text_lem none h = refl
nonempty_text_lem (some []) h = elim h [ ]
nonempty_text_lem (some (c ∷ t)) h = refl

persisted_five :
    (ps : List ℤ)
    → validate_port_sequence ps ≡ ok ps
    → persisted_connection_ports (some (array (ports_json ps))) ≡ ps
unfolding validate_port_sequence persisted_connection_ports ports_json connection_port_fields
    put_ports
persisted_five (a ∷ b ∷ c ∷ d ∷ e ∷ []) h = rw h refl
persisted_five [] h = absurd cc
persisted_five (a ∷ []) h = absurd cc
persisted_five (a ∷ b ∷ []) h = absurd cc
persisted_five (a ∷ b ∷ c ∷ []) h = absurd cc
persisted_five (a ∷ b ∷ c ∷ d ∷ []) h = absurd cc
persisted_five (a ∷ b ∷ c ∷ d ∷ e ∷ f ∷ ps) h = absurd cc

persisted_lem :
    (ps : List ℤ) → IsPersistent ps → persisted_connection_ports (some (array (ports_json ps))) ≡ ps
unfolding persisted_connection_ports ports_json connection_port_fields
persisted_lem ps (inr h) = persisted_five ps h
persisted_lem ps (inl h) = rw h refl

module _ {W : Type 0} (setting : Setting W) (base : Members) (s : Session W) where
  get_info :
      (k : Text)
      → get k (get_provisioner_info setting base s) ≡ (
          if eq_text k (text "tunnel_ports")
          then some (array (ports_json s.tunnel_ports))
          else if eq_text k (text "original_connection_ports")
          then some (array (ports_json s.original_ports))
          else if eq_text k (text "original_connection_ip")
          then some (text_or_null s.original_ip)
          else if eq_text k (text "runtime_created")
          then some (bool s.runtime_created)
          else if eq_text k (text "known_hosts_file")
          then some (text_or_null s.known_hosts_file)
          else if eq_text k (text "guest_ip")
          then some (text_or_null s.guest_ip)
          else if eq_text k (name_key setting.traits.kind)
          then some (text_or_null s.runtime_name)
          else get k base)
  unfolding get_provisioner_info
  get_info k = simp get-put

  field_of_name :
      (kind : Kind)
      → name_key kind ≡ name_key setting.traits.kind
      → get (name_key kind) (get_provisioner_info setting base s)
        ≡ some (text_or_null s.runtime_name)
  unfolding name_key text
  field_of_name jail h = get_info (name_key jail) ∙ rw (← h) refl
  field_of_name freebsd_bhyve h = get_info (name_key freebsd_bhyve) ∙ rw (← h) refl
  field_of_name linux_bhyve h = get_info (name_key linux_bhyve) ∙ rw (← h) refl

  -- A provisioner that loads the information that another has given has its name, address, files,
  -- ports and flag, and the private key of its runtime where that is a regular file. What is given
  -- are no empty texts, and no ports or five that are distinct and in range; whatever else the
  -- information holds does not matter.
  pub load-get_provisioner_info :
      (t : Session W)
      → IsFilled s.runtime_name
      → IsFilled s.guest_ip
      → IsFilled s.known_hosts_file
      → IsFilled s.original_ip
      → IsPersistent s.original_ports
      → IsPersistent s.tunnel_ports
      → let u = load_provisioner_info setting (get_provisioner_info setting base s) t in
        (u.runtime_name ≡ s.runtime_name)
        × (u.guest_ip ≡ s.guest_ip)
        × (u.known_hosts_file ≡ s.known_hosts_file)
        × (u.ssh_private_key ≡ private_key_of setting s.runtime_name t.world)
        × (u.runtime_created ≡ s.runtime_created)
        × (u.original_ip ≡ s.original_ip)
        × (u.original_ports ≡ s.original_ports)
        × (u.tunnel_ports ≡ s.tunnel_ports)
  unfolding load_provisioner_info text truth truthy
  load-get_provisioner_info t name address hosts ip before ports =
      let named : nonempty_text
            (get (name_key setting.traits.kind) (get_provisioner_info setting base s))
          ≡ s.runtime_name =
        ap nonempty_text (field_of_name setting.traits.kind refl)
        ∙ nonempty_text_lem s.runtime_name name in
      (
        named,
        ap nonempty_text (get_info (text "guest_ip")) ∙ nonempty_text_lem s.guest_ip address,
        ap nonempty_text (get_info (text "known_hosts_file"))
            ∙ nonempty_text_lem s.known_hosts_file hosts,
        ap (λ o. private_key_of setting o t.world) named,
        ap truth (get_info (text "runtime_created")) ∙ refl,
        ap nonempty_text (get_info (text "original_connection_ip"))
            ∙ nonempty_text_lem s.original_ip ip,
        ap persisted_connection_ports (get_info (text "original_connection_ports"))
            ∙ persisted_lem s.original_ports before,
        ap persisted_connection_ports (get_info (text "tunnel_ports"))
            ∙ persisted_lem s.tunnel_ports ports,
      )
