-- ===== src/PortLeases/Reservation.antt =====
-- What `allocate` reserves.
use mathlib.Core.Path.{subst}
use mathlib.Core.List.{append_assoc}
use freebsd_laboratory.Base.{
  ℕ, ◌+◌, ◌%◌, ◌≤◌, Bool, true, false, List, [], ◌∷◌, ◌++◌, Option, none, some, ◌≡◌, ◌≢◌, ◌∙◌, sym,
  not, is_nil, leb, ltb, ◌||◌, ◌==◌, ==_iff, length, length-append, All, All-append, arith,
  Bool-cases, inl, inr, refl,
}
use freebsd_laboratory.Base.Int.{ℤ, eq_ℤ}
use freebsd_laboratory.Base.Text.{Text, eq_text_refl}
use freebsd_laboratory.Base.Dict.{Dict, lookup, insert, lookup-insert}
use freebsd_laboratory.Base.Result.{ok, Result-cases}
use freebsd_laboratory.Identity.{ProcessIdentity, query_process_identity}
use freebsd_laboratory.PortLeases.{
  PortPool, System, Reserved, Looped, enough, short, failed, capacity, candidates_from, take_ports,
  is_leased, lease_paths, write_lease, unlink_all, lease_path, finish, reserve, allocate,
}
use freebsd_laboratory.PortLeases.Paths.{lookup-cleared}
use freebsd_laboratory.PortLeases.Candidates.{
  InRange, candidates-InRange, Distinct, candidates-Distinct, without_one, front_part, apart_from,
}

module _ {W : Type 0} (sys : System W) (pool : PortPool) (owner : Text) (pid : ℤ) where
  -- A port of the pool that can be bound, with a file of its lease in the name of the owner and of the
  -- process.
  abbrev pub IsHeld : ℤ → Text → Dict Bool → ℕ → Type 0
  IsHeld uid digest files p =
      InRange pool p
      × (sys.bindable p ≡ true)
      × (lookup (lease_path p pid uid digest (sys.host.sha256 owner)) files ≡ some false)

  -- What a reservation of `count` ports is, with the leases as they are then.
  abbrev pub IsReservation : ℕ → Dict Bool → Reserved → Type 0
  IsReservation count files r =
      (length r.ports ≡ count) × Distinct r.ports × All (IsHeld r.uid r.digest files) r.ports

  write_lease-inserts :
      (name : Text) (files written : Dict Bool)
      → write_lease sys name files ≡ ok written
      → written ≡ insert name false files
  unfolding write_lease
  write_lease-inserts name files written e = ground (arith, e)

  module _ (count : ℕ) (identity : ProcessIdentity) where
    abbrev Held : Dict Bool → ℕ → Type 0
    Held files p = IsHeld identity.uid identity.digest files p

    -- What the loop has when it has enough.
    abbrev Reservable : Looped × Dict Bool × W → Type 0
    Reservable (enough ports names, files, w) =
        (length ports ≡ count) × Distinct ports × All (Held files) ports
    Reservable (short ports names, files, w) = Unit
    Reservable (failed e names, files, w) = Unit

    abbrev path : ℕ → Text
    path p = lease_path p pid identity.uid identity.digest (sys.host.sha256 owner)

    -- Taking one more port keeps the leases of the others.
    others_kept :
        (q : ℕ) (files written : Dict Bool) (ports : List ℕ)
        → write_lease sys (path q) (unlink_all (lease_paths q files) files) ≡ ok written
        → All (λ p. p ≢ q) ports
        → All (Held files) ports
        → All (Held written) ports
    others_kept q files written [] done apart held = tt
    others_kept q files written (p ∷ ports) done (other, apart) ((within, bound, there), held) =
        let cleared = unlink_all (lease_paths q files) files in
        let kept : lookup (path p) cleared ≡ some false =
          lookup-cleared p q pid identity.uid identity.digest (sys.host.sha256 owner) files other
          ∙ there in
        let now : lookup (path p) written ≡ some false =
          rw
            (
              write_lease-inserts (path q) cleared written done,
              lookup-insert (path q) (path p) false cleared,
            )
            (ground (arith, kept)) in
        ((within, bound, now), others_kept q files written ports done apart held)

    new_one :
        (q : ℕ) (files written : Dict Bool)
        → write_lease sys (path q) files ≡ ok written
        → InRange pool q
        → sys.bindable q ≡ true
        → Held written q
    new_one q files written done within bound = (
      within,
      bound,
      rw
          (
            write_lease-inserts (path q) files written done,
            lookup-insert (path q) (path q) false files,
            eq_text_refl (path q),
          )
          refl,
    )

    take_ports-Reservable :
        (candidates ports : List ℕ) (names : List Text) (files : Dict Bool) (w : W)
        → All (InRange pool) candidates
        → Distinct (ports ++ candidates)
        → All (Held files) ports
        → Reservable (take_ports sys count owner pid identity candidates ports names files w)
    unfolding take_ports
    take_ports-Reservable [] ports names files w hc hd hp = tt
    take_ports-Reservable (port ∷ candidates) ports names files w (h, hc) hd hp =
        let l = is_leased sys port (lease_paths port files) w in
        let cleared = unlink_all (lease_paths port files) files in
        let skipped =
          take_ports-Reservable candidates ports names files l.1 hc
            (without_one ports port candidates hd) hp in
        elim (Bool-cases (l.0 || not (sys.bindable port))) [
          | inl skip ↦ elim (Result-cases (write_lease sys (path port) cleared)) [
            | inl (written, done) ↦ rw (done, skip, take_ports) skipped
            | inr (e, bad) ↦ rw (bad, skip, take_ports) skipped
          ]
          | inr take ↦ elim (Result-cases (write_lease sys (path port) cleared)) [
            | inr (e, bad) ↦ rw (bad, take, take_ports) tt
            | inl (written, done) ↦
                let held : All (Held written) (ports ++ port ∷ []) =
                  All-append (Held written) ports (port ∷ [])
                    (others_kept port files written ports done (apart_from ports port candidates hd)
                      hp)
                    (new_one port cleared written done h (ground (arith, take)), tt) in
                let apart : Distinct ((ports ++ port ∷ []) ++ candidates) =
                  subst Distinct (sym (append_assoc ports (port ∷ []) candidates)) hd in
                elim (Bool-cases (length ports + 1 == count)) [
                  | inl full ↦
                      rw (done, take, full, take_ports)
                        (
                          length-append ports (port ∷ [])
                              ∙ (==_iff (length ports + 1) count).0 full,
                          front_part (ports ++ port ∷ []) candidates apart,
                          held,
                        )
                  | inr missing ↦
                      rw (done, take, missing, take_ports)
                        (take_ports-Reservable candidates (ports ++ port ∷ [])
                          (names ++ path port ∷ []) written l.1 hc apart held)
                ]
          ]
        ]

    finish-Reservation :
        (l : Looped) (files : Dict Bool) (w : W) (r : Reserved)
        → Reservable (l, files, w)
        → (finish sys identity (l, files, w)).0 ≡ ok r
        → IsReservation count (finish sys identity (l, files, w)).1 r
    unfolding finish
    finish-Reservation (enough ports names) files w r h e =
        let given : Reserved = record {
          ports = ports;
          uid = identity.uid;
          digest = identity.digest;
        } in
        let same : given ≡ r = cc in subst (IsReservation count files) same h
    finish-Reservation (short ports names) files w r h e = absurd cc
    finish-Reservation (failed x names) files w r h e = absurd cc

  reserve-Reservation :
      (count : ℕ) (identity : Option ProcessIdentity) (files : Dict Bool) (w : W) (r : Reserved)
      → pool.start ≤ pool.end
      → (reserve sys pool owner pid count identity files w).0 ≡ ok r
      → IsReservation count (reserve sys pool owner pid count identity files w).1 r
  unfolding reserve
  reserve-Reservation count none files w r h e = absurd cc
  reserve-Reservation count (some identity) files w r h e =
      let offset = sys.offset owner % capacity pool in
      let candidates = candidates_from pool offset 0 (capacity pool) in
      let t = take_ports sys count owner pid identity candidates [] [] files w in
      elim (Bool-cases (eq_ℤ identity.uid sys.own_uid)) [
        | inr other ↦ absurd (ground (arith, other, e))
        | inl same ↦ elim (Bool-cases (sys.lock_opens w)) [
          | inr shut ↦ absurd (ground (arith, same, shut, e))
          | inl ready ↦
              rw (same, ready)
                (finish-Reservation count identity t.0 t.1 t.2 r
                  (take_ports-Reservable count identity candidates [] [] files w
                    (candidates-InRange pool offset 0 (capacity pool) h)
                    (candidates-Distinct pool offset 0 (capacity pool) (omega arith)) tt)
                  (ground (arith, same, ready, e)))
        ]
      ]

  -- A successful allocation from a pool of which the start is not greater than the end reserves
  -- exactly the requested number of ports, no two of them the same. Each lies in the pool's range and
  -- can be bound, and when the call returns there is a lease file for it that names the owner and the
  -- process, its uid and its digest as in the reservation.
  pub allocate-IsReservation :
      (count : ℕ) (files : Dict Bool) (w : W) (r : Reserved)
      → pool.start ≤ pool.end
      → (allocate sys pool owner pid count files w).0 ≡ ok r
      → IsReservation count (allocate sys pool owner pid count files w).1 r
  unfolding allocate
  allocate-IsReservation count files w r h e =
      let q = query_process_identity sys.host pid w in
      elim (Bool-cases (is_nil owner)) [
        | inl nobody ↦ absurd (ground (arith, nobody, e))
        | inr named ↦ elim (Bool-cases (eq_ℤ pid sys.own_pid)) [
          | inr other ↦ absurd (ground (arith, named, other, e))
          | inl own ↦ elim (Bool-cases (leb count 0 || ltb (capacity pool) count)) [
            | inl wrong ↦ absurd (ground (arith, named, own, wrong, e))
            | inr possible ↦
                rw (named, own, possible)
                  (reserve-Reservation count q.0 files q.1 r h
                    (ground (arith, named, own, possible, e)))
          ]
        ]
      ]
