-- ===== src/Daemon/Destroy/Effect.antt =====
-- What `destroy` does to the registry, the leases and the locks, however it ends.
use freebsd_laboratory.Base.{
  Bool, true, false, List, [], ◌∷◌, Option, none, some, ◌≡◌, ◌≢◌, refl, ◌∙◌, ap, inl, inr, arith,
  Bool-cases, ◌⊎◌,
}
use freebsd_laboratory.Base.Int.{ℤ}
use freebsd_laboratory.Host.{run}
use freebsd_laboratory.Base.Text.{Text, text, eq_text_refl, member}
use freebsd_laboratory.Base.Value.{str?}
use freebsd_laboratory.Base.Dict.{Dict, lookup, erase}
use freebsd_laboratory.Base.Result.{Result, ok, err, Error, os_error, Result-cases}
use freebsd_laboratory.Addresses.{release, LeaseDir}
use freebsd_laboratory.Daemon.Config.{RuntimeRecord, Manager}
use freebsd_laboratory.Daemon.Names.{validate_name, matches_runtime_name}
use freebsd_laboratory.Daemon.Access.{authorize_record}
use freebsd_laboratory.Daemon.State.{
  State, Entry, document, Ended, returned, raised, blocked, pure, continue, ended, link, folder,
  unreadable, malformed, Daemon, ◌>>◌, with_runtime_lock, unlock, release_name,
}
use freebsd_laboratory.Daemon.Registry.{load_registry, delete_registry, read_entry, delete_entry}
use freebsd_laboratory.Daemon.Teardown.{teardown, remaining}
use freebsd_laboratory.Daemon.Teardown.Checked.{teardown-Checked}
use freebsd_laboratory.Daemon.Destroy.{
  Destroyed, destroy, destroy_held, permitted, or_empty, forget_address,
}

module _ {W : Type 0} (m : Manager W) where
  -- A requester who may not destroy a registered runtime gets the error of the check, and no
  -- command is run: the whole state, the outside world included, is as before.
  pub destroy_refused :
      (name : Text) (requester : Option ℤ) (r : RuntimeRecord) (e : Error) (s : State W)
      → member name s.held ≡ false
      → matches_runtime_name name ≡ true
      → lookup name s.registry ≡ some (document r)
      → authorize_record r requester ≡ err e
      → destroy m name requester false s ≡ (raised e, s)
  unfolding destroy with_runtime_lock destroy_held permitted validate_name load_registry
  destroy_refused name requester r e s free valid found refused =
      rw (free, valid, found, refused, eq_text_refl name)

  -- The leases once the guest's address is forgotten.
  unfoldable pub leases_after : Option Text → Text → LeaseDir → LeaseDir
  leases_after none name leases = leases
  leases_after (some []) name leases = leases
  leases_after (some (c ∷ ip)) name leases = (release m.config.pool (c ∷ ip) name leases).1

  -- The outside world once the guest's address is forgotten.
  unfoldable pub world_after : Option Text → W → W
  unfolding text
  world_after none w = w
  world_after (some []) w = w
  world_after (some (c ∷ ip)) w =
      (run m.host (text "arp" ∷ text "-d" ∷ (c ∷ ip) ∷ []) false (some 60) w).1

  abbrev IsQuiet : {A : Type 0} → State W → Ended A × State W → Type 0
  IsQuiet s (blocked, s') = ⊥
  IsQuiet s (_, s') = (s'.registry ≡ s.registry) × (s'.held ≡ s.held)

  forget_address-leases :
      (ip : Option Text) (name : Text) (s : State W)
      → (forget_address m ip name s).1.leases ≡ leases_after ip name s.leases
  unfolding forget_address leases_after
  forget_address-leases none name s = refl
  forget_address-leases (some []) name s = refl
  forget_address-leases (some (c ∷ ip)) name s = ground arith

  forget_address-world :
      (ip : Option Text) (name : Text) (s : State W)
      → (forget_address m ip name s).1.world ≡ world_after ip s.world
  unfolding forget_address world_after
  forget_address-world none name s = refl
  forget_address-world (some []) name s = refl
  forget_address-world (some (c ∷ ip)) name s = ground arith

  forget_address-registry :
      (ip : Option Text) (name : Text) (s : State W)
      → ((forget_address m ip name s).1.registry ≡ s.registry)
        × ((forget_address m ip name s).1.held ≡ s.held)
        × ((forget_address m ip name s).0 ≢ blocked)
  unfolding forget_address
  forget_address-registry none name s = ground arith
  forget_address-registry (some []) name s = ground arith
  forget_address-registry (some (c ∷ ip)) name s = ground arith

  -- The answer is the list that the teardown in the world `w` returns, which ends with a check that
  -- finds none of the things that it looks for; and in the world that it leaves, the address is
  -- forgotten, and nothing else done.
  pub record IsTornDown (name : Text) (r : RuntimeRecord) (w after : W) (d : Destroyed)
      : Type 0 where
    pub named : d.name ≡ name
    pub listed : (teardown m name r w).0 ≡ ok d.removed
    pub behind : W
    pub empty : (remaining m name r behind).0 ≡ ok []
    pub last : (teardown m name r w).1 ≡ (remaining m name r behind).1
    pub forgotten : after ≡ world_after (str? r.guest_ip) (teardown m name r w).1

  -- How the method without its lock may end.
  abbrev pub HeldEffect : Text → Option ℤ → Bool → State W → Ended Destroyed × State W → Type 0
  HeldEffect name requester force s (returned d, s') =
      (matches_runtime_name name ≡ true)
      × ((found : Option RuntimeRecord) × (read_entry (lookup name s.registry) ≡ ok found)
          × (permitted (or_empty found) requester force ≡ ok tt)
          × (s'.leases ≡ leases_after (str? (or_empty found).guest_ip) name s.leases)
          × IsTornDown name (or_empty found) s.world s'.world d)
      × (s'.registry ≡ erase name s.registry)
      × (s'.held ≡ s.held)
  HeldEffect name requester force s (raised e, s') =
      (s'.registry ≡ s.registry)
      × (s'.held ≡ s.held)
      × ((s'.leases ≡ s.leases)
          ⊎ ((d : Destroyed) × (found : Option RuntimeRecord) × (read_entry (lookup name s.registry)
                ≡ ok found)
              × (s'.leases ≡ leases_after (str? (or_empty found).guest_ip) name s.leases)
              × IsTornDown name (or_empty found) s.world s'.world d))
  HeldEffect name requester force s (blocked, s') = ⊥

  delete_entry-cases :
      (name : Text) (o : Option Entry) (d : Dict Entry)
      → (delete_entry name o d ≡ ok (erase name d)) ⊎ (delete_entry name o d ≡ err os_error)
  unfolding delete_entry
  delete_entry-cases name (some folder) d = inr refl
  delete_entry-cases name (some link) d = inl refl
  delete_entry-cases name (some unreadable) d = inl refl
  delete_entry-cases name (some malformed) d = inl refl
  delete_entry-cases name (some (document r)) d = inl refl
  delete_entry-cases name none d = inl refl

  pub delete_registry-cases :
      (name : Text) (u : State W)
      → (delete_registry name u ≡ (returned tt, record u { registry = erase name u.registry }))
        ⊎ (delete_registry name u ≡ (raised os_error, u))
  unfolding delete_registry
  delete_registry-cases name u =
      elim (delete_entry-cases name (lookup name u.registry) u.registry) [
        | inl e ↦ inl (rw (e, delete_registry))
        | inr e ↦ inr (rw (e, delete_registry))
      ]

  module _ (name : Text) (requester : Option ℤ) (force : Bool) (found : Option RuntimeRecord)
      (s : State W) (valid : matches_runtime_name name ≡ true)
      (read : read_entry (lookup name s.registry) ≡ ok found)
      (may : permitted (or_empty found) requester force ≡ ok tt) where
    torn_down :
        (removed : List Text)
        → (teardown m name (or_empty found) s.world).0 ≡ ok removed
        → (after : W)
        → after
          ≡ world_after
              (str? (or_empty found).guest_ip)
              (teardown m name (or_empty found) s.world).1
        → IsTornDown name (or_empty found) s.world after (record { name = name; removed = removed })
    torn_down removed h after then_forgotten =
        let c = teardown-Checked m name (or_empty found) s.world removed h in
        record {
          named = refl;
          listed = h;
          behind = c.0;
          empty = c.1;
          last = c.2;
          forgotten = then_forgotten;
        }

    finish : List Text → Daemon W Destroyed
    finish removed = delete_registry name >> pure (record { name = name; removed = removed })

    -- The end of the method, once the address is forgotten.
    after_forget :
        (removed : List Text) (r : Ended (Unit {0})) (u : State W)
        → u.registry ≡ s.registry
        → u.held ≡ s.held
        → u.leases ≡ leases_after (str? (or_empty found).guest_ip) name s.leases
        → (teardown m name (or_empty found) s.world).0 ≡ ok removed
        → u.world
          ≡ world_after
              (str? (or_empty found).guest_ip)
              (teardown m name (or_empty found) s.world).1
        → r ≢ blocked
        → HeldEffect name requester force s (continue r (λ _. finish removed) u)
    unfolding finish
    after_forget removed (returned x) u er eh el td ew nb = elim (delete_registry-cases name u) [
      | inl e ↦
          rw e
            (valid, (found, read, may, el, torn_down removed td u.world ew), ap (erase name) er, eh)
      | inr e ↦ rw e (er, eh, inr (_, found, read, el, torn_down removed td u.world ew))
    ]
    after_forget removed (raised e) u er eh el td ew nb =
        (er, eh, inr (_, found, read, el, torn_down removed td u.world ew))
    after_forget removed blocked u er eh el td ew nb = absurd (nb refl)

    -- The end of the method, once the teardown has ended.
    after_teardown :
        (r : Result (List Text)) (t : State W)
        → t.registry ≡ s.registry
        → t.held ≡ s.held
        → t.leases ≡ s.leases
        → (teardown m name (or_empty found) s.world).0 ≡ r
        → t.world ≡ (teardown m name (or_empty found) s.world).1
        → HeldEffect name requester force s (
            continue
              (ended r)
              (λ removed. forget_address m (str? (or_empty found).guest_ip) name >> finish removed)
              t)
    after_teardown (err e) t er eh el td ew = (er, eh, inl el)
    after_teardown (ok l) t er eh el td ew =
        let ip = str? (or_empty found).guest_ip in
        let f = forget_address-registry ip name t in
        after_forget l (forget_address m ip name t).0 (forget_address m ip name t).1 (f.0 ∙ er)
          (f.1 ∙ eh) (forget_address-leases ip name t ∙ ap (leases_after ip name) el) td
          (forget_address-world ip name t ∙ ap (world_after ip) ew) f.2

  destroy_held-HeldEffect :
      (name : Text) (requester : Option ℤ) (force : Bool) (s : State W)
      → HeldEffect name requester force s (destroy_held m name requester force s)
  unfolding destroy_held load_registry validate_name
  destroy_held-HeldEffect name requester force s = elim (Bool-cases (matches_runtime_name name)) [
    | inr bad ↦ rw bad (refl, refl, inl refl)
    | inl valid ↦ elim (Result-cases (read_entry (lookup name s.registry))) [
      | inr (e, broken) ↦ rw (valid, broken) (refl, refl, inl refl)
      | inl (found, read) ↦ elim (Result-cases (permitted (or_empty found) requester force)) [
        | inr (e, refused) ↦ rw (valid, read, refused) (refl, refl, inl refl)
        | inl (u, may) ↦
            rw (valid, read, may)
              (unfold finish in
                after_teardown name requester force found s valid read may
                  (teardown m name (or_empty found) s.world).0
                  (record s { world = (teardown m name (or_empty found) s.world).1 }) refl refl refl
                  refl refl)
      ]
    ]
  ]

  -- How `destroy` may end, with its lock.
  abbrev pub Effect : Text → Option ℤ → Bool → State W → Ended Destroyed × State W → Type 0
  Effect name requester force s (blocked, s') = (member name s.held ≡ true) × (s' ≡ s)
  Effect name requester force s (returned d, s') =
      HeldEffect name requester force s (returned d, s')
  Effect name requester force s (raised e, s') = HeldEffect name requester force s (raised e, s')

  unlocked :
      (name : Text) (requester : Option ℤ) (force : Bool) (s : State W) (r : Ended Destroyed)
      (t : State W)
      → HeldEffect name requester force (record s { held = name ∷ s.held }) (r, t)
      → Effect name requester force s (unlock name r t)
  unfolding unlock release_name
  unlocked name requester force s (returned d) t h =
      (h.0, h.1, h.2, ap (release_name name) h.3 ∙ rw (eq_text_refl name))
  unlocked name requester force s (raised e) t h =
      (h.0, ap (release_name name) h.1 ∙ rw (eq_text_refl name), h.2)
  unlocked name requester force s blocked t h = absurd h

  -- `destroy` blocks exactly when it starts under the lock of the same runtime, and has then done
  -- nothing. When it returns, the name is valid, the requester was permitted, the runtime's record
  -- is gone from the registry and no other record has changed, its address is released, and what is
  -- answered is the list of the teardown of the recorded runtime, whose final check found nothing
  -- left, and behind which the ARP entry of the address alone was removed. When it raises, every record is kept, for a later attempt; the leases are as before, or,
  -- behind such a teardown only, the record's address is released. Either way the locks are as before.
  pub destroy-Effect :
      (name : Text) (requester : Option ℤ) (force : Bool) (s : State W)
      → Effect name requester force s (destroy m name requester force s)
  unfolding destroy with_runtime_lock
  destroy-Effect name requester force s = elim (Bool-cases (member name s.held)) [
    | inl busy ↦ rw busy (busy, refl)
    | inr free ↦ rw free (
        unlocked name requester force s _ _
          (destroy_held-HeldEffect name requester force (record s { held = name ∷ s.held })))
  ]
