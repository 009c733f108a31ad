-- ===== src/Addresses/Release.antt =====
-- `release` undoes an allocation, for its owner only, and `clear_orphans` keeps what is owned.
use freebsd_laboratory.Base.{
  ℕ, ◌-◌, ◌/◌, ◌^◌, ◌≤◌, ◌<◌, Bool, true, false, List, [], ◌∷◌, ◌++◌, Option, some, ◌≡◌, ◌≢◌, inl,
  inr, refl, arith, Bool-cases, All,
}
use native.Mathlib.Nat.{le-div_iff_mul-le, div-mul-le_self, le_trans, one-le-pow}
use freebsd_laboratory.Base.Text.{Text, eq_text_iff, member, eq_text_refl}
use freebsd_laboratory.Base.Split.{strip, IsSolid, strip_line}
use freebsd_laboratory.Base.Ipv4.{address_text, address?, address?-address_text, address?-lt}
use freebsd_laboratory.Base.Dict.{Dict, lookup, erase, lookup-erase}
use freebsd_laboratory.Base.Result.{ok}
use freebsd_laboratory.Addresses.{
  LeaseFile, lease, symlink, unreadable, LeaseDir, Pool, Network, lease_pool, make_pool, in_network,
  release, in_range, allocate, sweep, clear_orphans,
}
use freebsd_laboratory.Addresses.Allocation.{IsGrant, allocate-IsGrant}

-- The bounds that `lease_pool` enforces.
pub record IsPool (pool : Pool) : Type 0 where
  pub small : pool.end < 2 ^ 32
  pub start_inside : in_network pool.start pool.network ≡ true
  pub end_inside : in_network pool.end pool.network ≡ true

make_pool-IsPool :
    (net : Network) (a b : Option ℕ) (pool : Pool)
    → ((n : ℕ) → b ≡ some n → n < 2 ^ 32)
    → make_pool net a b ≡ ok pool
    → IsPool pool × (pool.start ≤ pool.end)
unfolding make_pool
make_pool-IsPool net (some a) (some b) pool small h = ground (arith, small b refl)
make_pool-IsPool net _ _ pool small h = ground arith

div_mono : (a b d : ℕ) → 0 < d → a ≤ b → a / d ≤ b / d
div_mono a b d pos h = (le-div_iff_mul-le pos).1 (le_trans (div-mul-le_self a d) h)

between_inside :
    (pool : Pool) (n : ℕ) → IsPool pool → pool.start ≤ n → n ≤ pool.end → in_range pool n ≡ true
unfolding in_range in_network
between_inside pool n h lo hi = ground (
  arith,
  div_mono pool.start n (2 ^ (32 - pool.network.prefix_length))
      (one-le-pow (32 - pool.network.prefix_length) 2 (omega arith)) lo,
  div_mono n pool.end (2 ^ (32 - pool.network.prefix_length))
      (one-le-pow (32 - pool.network.prefix_length) 2 (omega arith)) hi,
  h.start_inside,
  h.end_inside,
)

in_range_inside : (pool : Pool) (n : ℕ) → in_range pool n ≡ true → in_network n pool.network ≡ true
unfolding in_range
in_range_inside pool n h = ground (arith, h)

address?-make_pool :
    (net : Network) (a b : Option ℕ) (pool : Pool)
    → make_pool net a b ≡ ok pool
    → (a ≡ some pool.start) × (b ≡ some pool.end) × (pool.network ≡ net)
unfolding make_pool
address?-make_pool net (some a) (some b) pool h = ground (arith, h)
address?-make_pool net _ _ pool h = ground (arith, h)

-- A pool that is accepted has the two addresses that were given as its ends, the first not above the
-- second, and every address from the one to the other, and not its ends alone, is an IPv4 address
-- inside the network.
pub lease_pool-IsPool :
    (net : Network) (start end : Text) (pool : Pool)
    → lease_pool net start end ≡ ok pool
    → (address? start ≡ some pool.start)
      × (address? end ≡ some pool.end)
      × (pool.start ≤ pool.end)
      × ((n : ℕ) → pool.start ≤ n → n ≤ pool.end → (in_network n net ≡ true) × (n < 2 ^ 32))
unfolding lease_pool
lease_pool-IsPool net start end pool h =
    let p = make_pool-IsPool net (address? start) (address? end) pool (address?-lt end) h in
    let q = address?-make_pool net (address? start) (address? end) pool h in
    (
      q.0,
      q.1,
      p.1,
      λ n lo hi. (
        rw (← q.2) (in_range_inside pool n (between_inside pool n p.0 lo hi)),
        omega (arith, p.0.small, hi),
      ),
    )

release_granted :
    (pool : Pool) (owner : Text) (dir : LeaseDir) (n : ℕ)
    → IsPool pool
    → owner ≢ []
    → IsSolid owner
    → pool.start ≤ n
    → n ≤ pool.end
    → lookup (address_text n) dir.files ≡ some (lease (owner ++ 10 ∷ []))
    → let (released, dir') = release pool (address_text n) owner dir in
      (released ≡ true) × (dir'.files ≡ erase (address_text n) dir.files)
unfolding release
release_granted pool owner dir n ok_pool ne solid lo hi held = ground (
  arith,
  address?-address_text n (omega (arith, ok_pool.small)),
  between_inside pool n ok_pool lo hi,
  strip_line owner ne solid,
  eq_text_refl owner,
)

module _ (denied unwritable : ℕ → Bool) where
  release_grant :
      (pool : Pool) (owner : Text) (dir dir' : LeaseDir) (n : ℕ)
      → IsPool pool
      → owner ≢ []
      → IsSolid owner
      → IsGrant denied pool owner dir dir' n
      → let (released, dir'') = release pool (address_text n) owner dir' in
        (released ≡ true) × ((stem : Text) → lookup stem dir''.files ≡ lookup stem dir.files)
  release_grant pool owner dir dir' n valid ne solid g =
      let r =
        release_granted pool owner dir' n valid ne solid g.above g.below
          (ground (arith, g.files (address_text n), eq_text_refl (address_text n))) in
      (
        r.0,
        λ stem.
            rw (r.1, lookup-erase)
              (ground (arith, g.files stem, g.free, eq_text_iff stem (address_text n))),
      )

  -- In a pool as `lease_pool` builds it, releasing the address that an owner was just granted
  -- succeeds and leaves every lease as it was before the grant. The owner's name is not empty and
  -- holds no white space.
  pub release-allocate :
      (pool : Pool) (owner a : Text) (dir : LeaseDir)
      → IsPool pool
      → owner ≢ []
      → IsSolid owner
      → (allocate denied unwritable pool owner dir).0 ≡ ok a
      → let (released, dir') = release pool a owner (allocate denied unwritable pool owner dir).1 in
        (released ≡ true) × ((stem : Text) → lookup stem dir'.files ≡ lookup stem dir.files)
  release-allocate pool owner a dir valid ne solid h =
      let g = allocate-IsGrant denied unwritable pool owner a dir h in
      rw g.1 (release_grant pool owner dir _ g.0 valid ne solid g.2)

-- Nobody but the recorded owner can release a lease: for another name `release` answers false, and
-- every lease stays.
pub release_foreign :
    (pool : Pool) (address owner : Text) (n : ℕ) (content : Text) (dir : LeaseDir)
    → address? address ≡ some n
    → lookup (address_text n) dir.files ≡ some (lease content)
    → strip content ≢ owner
    → ((release pool address owner dir).0 ≡ false)
      × ((release pool address owner dir).1.files ≡ dir.files)
unfolding release
release_foreign pool address owner n content dir e held foreign =
    ground (arith, eq_text_iff (strip content) owner)

lookup-sweep :
    (active : List Text) (files : Dict LeaseFile) (stem : Text) (content : Text)
    → lookup stem files ≡ some (lease content)
    → member (strip content) active ≡ true
    → lookup stem (sweep active files).1 ≡ some (lease content)
unfolding sweep lookup
lookup-sweep active [] stem content h m = ground arith
lookup-sweep active ((j, symlink) ∷ files) stem content h m =
    ground (arith, lookup-sweep active files stem content)
lookup-sweep active ((j, unreadable) ∷ files) stem content h m =
    ground (arith, lookup-sweep active files stem content)
lookup-sweep active ((j, lease c) ∷ files) stem content h m =
    ground (arith, lookup-sweep active files stem content)

-- No entry that stays is a link or the lease of an owner that is not active.
abbrev pub IsKept : List Text → LeaseFile → Type 0
IsKept active symlink = ⊥
IsKept active unreadable = Unit
IsKept active (lease content) = member (strip content) active ≡ true

sweep-IsKept :
    (active : List Text) (files : Dict LeaseFile)
    → All (λ (e : Text × LeaseFile). IsKept active e.1) (sweep active files).1
unfolding sweep
sweep-IsKept active [] = tt
sweep-IsKept active ((j, symlink) ∷ files) = sweep-IsKept active files
sweep-IsKept active ((j, unreadable) ∷ files) = (tt, sweep-IsKept active files)
sweep-IsKept active ((j, lease c) ∷ files) = elim (Bool-cases (member (strip c) active)) [
  | inl m ↦ rw m (m, sweep-IsKept active files)
  | inr m ↦ rw m (sweep-IsKept active files)
]

-- `clear_orphans` in a directory that exists leaves only leases of active owners, and files that
-- it cannot read; and the first lease found for each address survives if its owner is active.
pub clear_orphans_exact :
    (active : List Text) (dir : LeaseDir)
    → dir.present ≡ true
    → let dir' = (clear_orphans active dir).1 in
      All (λ (e : Text × LeaseFile). IsKept active e.1) dir'.files
      × ((stem content : Text)
          → lookup stem dir.files ≡ some (lease content)
          → member (strip content) active ≡ true
          → lookup stem dir'.files ≡ some (lease content))
unfolding clear_orphans
clear_orphans_exact active dir p =
    rw p (sweep-IsKept active dir.files, λ stem content. lookup-sweep active dir.files stem content)
