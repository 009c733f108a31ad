-- ===== src/Daemon/Isolation/Collect.antt =====
-- `gc` asked for by a Unix user other than root.
use freebsd_laboratory.Base.{
  Bool, true, false, List, [], ◌∷◌, some, ◌≡◌, ◌≢◌, inl, inr, arith, Bool-cases,
}
use freebsd_laboratory.Base.Int.{ℤ, pos, eq_ℤ, eq_ℤ_iff, le_ℤ}
use freebsd_laboratory.Base.Text.{Text}
use freebsd_laboratory.Base.Dict.{Dict, keys}
use freebsd_laboratory.Base.Result.{ok}
use freebsd_laboratory.Daemon.Config.{Manager, RuntimeRecord}
use freebsd_laboratory.Daemon.Access.{authorize_record, authorize_record_iff, owner_alive}
use freebsd_laboratory.Daemon.State.{
  State, Ended, returned, raised, blocked, continue, Daemon, lift,
}
use freebsd_laboratory.Daemon.Registry.{registered}
use freebsd_laboratory.Daemon.Gc.{
  gc, collect, collect_all, collect_one, try_destroy, sweep_if, release_orphans, forget_arp, Tally,
}
use freebsd_laboratory.Daemon.Isolation.{Keeps, destroy-Keeps}

-- A record stays through both of two steps.
pub continue-Keeps :
    {W A B : Type 0} (stem : Text) (r : RuntimeRecord) (p : Ended A × State W) (f : A → Daemon W B)
    → Keeps stem r p.1
    → ((a : A) (t : State W) → Keeps stem r t → Keeps stem r (f a t).1)
    → Keeps stem r (continue p.0 f p.1).1
continue-Keeps stem r (returned a, t) f kept rest = rest a t kept
continue-Keeps stem r (raised e, t) f kept rest = kept
continue-Keeps stem r (blocked, t) f kept rest = kept

module _ {W : Type 0} (m : Manager W) (stem : Text) (r : RuntimeRecord) (requester : ℤ)
    (foreign : authorize_record r (some requester) ≢ ok tt)
    (plain : eq_ℤ requester (pos 0) ≡ false) where
  collect_one-Keeps :
      (stale_only : Bool) (name : Text) (q : RuntimeRecord) (t : Tally) (s : State W)
      → Keeps stem r s
      → Keeps stem r (collect_one m stale_only requester name q t s).1
  unfolding collect_one try_destroy
  collect_one-Keeps stale_only name q t s kept =
      let u : State W = record s { world = (owner_alive m.host q s.world).1 } in
      let after = destroy-Keeps m name stem (some requester) r u foreign kept in
      ground (arith, plain, kept, after)

  collect_all-Keeps :
      (stale_only : Bool) (rs : Dict RuntimeRecord) (t : Tally) (s : State W)
      → Keeps stem r s
      → Keeps stem r (collect_all m stale_only requester rs t s).1
  unfolding collect_all
  collect_all-Keeps stale_only [] t s kept = kept
  collect_all-Keeps stale_only ((name, q) ∷ rs) t s kept =
      continue-Keeps stem r (collect_one m stale_only requester name q t s) _
        (collect_one-Keeps stale_only name q t s kept)
        λ t' u k. collect_all-Keeps stale_only rs t' u k

  sweep_if-Keeps :
      (t : Tally) (s : State W)
      → Keeps stem r s
      → Keeps stem r (sweep_if m (eq_ℤ requester (pos 0)) t s).1
  unfolding sweep_if
  sweep_if-Keeps t s kept = rw plain kept

  release_orphans-Keeps :
      (root : Bool) (active : List Text) (s : State W)
      → Keeps stem r s
      → Keeps stem r (release_orphans m root active s).1
  unfolding release_orphans
  release_orphans-Keeps true active s kept = kept
  release_orphans-Keeps false active s kept = kept

  collect-Keeps :
      (stale_only : Bool) (s : State W)
      → Keeps stem r s
      → Keeps stem r (collect m stale_only requester s).1
  unfolding collect registered
  collect-Keeps stale_only s kept = continue-Keeps stem r (registered s) _ kept λ records s1 k1.
      continue-Keeps stem r (collect_all m stale_only requester records _ s1) _
        (collect_all-Keeps stale_only records _ s1 k1)
        λ first s2 k2. continue-Keeps stem r (registered s2) _ k2 λ after s3 k3.
          continue-Keeps stem r (sweep_if m (eq_ℤ requester (pos 0)) _ s3) _
            (sweep_if-Keeps _ s3 k3)
            λ swept s4 k4. continue-Keeps stem r (registered s4) _ k4 λ active s5 k5.
              continue-Keeps stem r (release_orphans m (eq_ℤ requester (pos 0)) (keys active) s5) _
                (release_orphans-Keeps _ (keys active) s5 k5)
                λ released s6 k6.
                  continue-Keeps stem r (lift (forget_arp m released) s6) _ k6 λ x s7 k7. k7

-- A collection keeps every record that the user who asks for it may not destroy, whether or not it
-- is for stale runtimes only and however it ends.
pub gc-Keeps :
    {W : Type 0} (m : Manager W) (stem : Text) (r : RuntimeRecord) (requester : ℤ)
    (stale_only : Bool) (s : State W)
    → authorize_record r (some requester) ≢ ok tt
    → Keeps stem r s
    → Keeps stem r (gc m stale_only requester s).1
unfolding gc
gc-Keeps m stem r requester stale_only s foreign kept =
    let other : requester ≢ pos 0 = λ e. foreign ((authorize_record_iff r requester).1 (inl e)) in
    let all =
      collect-Keeps m stem r requester foreign (ground (arith, other, eq_ℤ_iff requester (pos 0)))
        stale_only s kept in
    elim (Bool-cases (le_ℤ 0 requester)) [ inl p ↦ rw p all | inr p ↦ rw p kept ]
