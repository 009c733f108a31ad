-- ===== src/Daemon/Registry/Effect.antt =====
-- What a registry write changes.
use freebsd_laboratory.Base.{Option, none, some, ◌≡◌, refl, ap, inl, inr, ◌⊎◌, Bool-cases}
use freebsd_laboratory.Base.Text.{Text}
use freebsd_laboratory.Base.Value.{str}
use freebsd_laboratory.Base.Dict.{Dict, insert, lookup}
use freebsd_laboratory.Base.Result.{ok, err, os_error, Result-cases}
use freebsd_laboratory.Host.{Host}
use freebsd_laboratory.Daemon.Config.{RuntimeRecord, Manager}
use freebsd_laboratory.Daemon.Names.{validate_name, matches_runtime_name}
use freebsd_laboratory.Daemon.State.{
  State, Entry, document, link, folder, unreadable, malformed, Ended, returned, raised, blocked,
}
use freebsd_laboratory.Daemon.Registry.{
  write_registry, write_temporary, put_entry, replace_entry, name_text,
}

replace_entry-cases :
    (name : Text) (r : RuntimeRecord) (o : Option Entry) (d : Dict Entry)
    → (replace_entry name r o d ≡ ok (insert name (document r) d))
      ⊎ (replace_entry name r o d ≡ err os_error)
unfolding replace_entry
replace_entry-cases name r (some folder) d = inr refl
replace_entry-cases name r (some link) d = inl refl
replace_entry-cases name r (some unreadable) d = inl refl
replace_entry-cases name r (some malformed) d = inl refl
replace_entry-cases name r (some (document q)) d = inl refl
replace_entry-cases name r none d = inl refl

-- A write that returns puts the record under its name; one that raises changes no record. It never
-- blocks, and never touches a lease or a lock.
abbrev pub Written :
    {W : Type 0} → Text → RuntimeRecord → State W → Ended (Unit {0}) → State W → Type 0
Written name r s (returned x) t =
    (t.registry ≡ insert name (document r) s.registry) × (t.held ≡ s.held) × (t.leases ≡ s.leases)
Written name r s (raised e) t = (t.registry ≡ s.registry) × (t.held ≡ s.held)
Written name r s blocked t = ⊥

put_entry-Written :
    {W : Type 0} (host : Host W) (path name : Text) (r : RuntimeRecord) (s : State W)
    → Written name r s (put_entry host path name r s).0 (put_entry host path name r s).1
unfolding put_entry
put_entry-Written host path name r s =
    elim (replace_entry-cases name r (lookup name s.registry) s.registry) [
      | inl e ↦ rw (e, put_entry) (refl, refl, refl)
      | inr e ↦ rw (e, put_entry) (refl, refl)
    ]

pub write_registry-Written :
    {W : Type 0} (m : Manager W) (name : Text) (r : RuntimeRecord) (s : State W)
    → r.name ≡ str name
    → Written name r s (write_registry m r s).0 (write_registry m r s).1
unfolding write_registry validate_name name_text
write_registry-Written m name r s named = elim (Bool-cases (matches_runtime_name name)) [
  | inr bad ↦ rw (ap name_text named, bad) (refl, refl)
  | inl valid ↦ elim (Result-cases (write_temporary m name s.world).0) [
    | inr (e, failed) ↦ rw (ap name_text named, valid, failed) (refl, refl)
    | inl (path, made) ↦
        rw (ap name_text named, valid, made)
          (put_entry-Written m.host path name r
            (record s { world = (write_temporary m name s.world).1 }))
  ]
]
