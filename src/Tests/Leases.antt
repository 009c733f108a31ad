-- ===== src/Tests/Leases.antt =====
-- The properties of the address pool and of process fingerprints at concrete values.
use freebsd_laboratory.Base.{
  ◌<◌, ◌^◌, ℕ, ◌≤◌, Bool, true, false, [], ◌∷◌, some, ◌≡◌, refl, All, arith,
}
use freebsd_laboratory.Base.Int.{pos, le_ℤ}
use freebsd_laboratory.Base.Text.{Text, text, member}
use freebsd_laboratory.Base.Split.{strip, words_from, is_space}
use freebsd_laboratory.Base.PythonInt.{int_of}
use freebsd_laboratory.Base.Ipv4.{address?, address_text}
use freebsd_laboratory.Base.Dict.{lookup, insert}
use freebsd_laboratory.Base.Result.{runtime_error}
use freebsd_laboratory.Addresses.{
  Network, Pool, LeaseDir, LeaseFile, lease, lease_pool, allocate, release, clear_orphans,
  in_network,
}
use freebsd_laboratory.Addresses.Allocation.{
  IsGrant, IsRefused, allocate-IsGrant, allocate_exhausted,
}
use freebsd_laboratory.Addresses.Release.{
  IsPool, IsKept, lease_pool-IsPool, release-allocate, release_foreign, clear_orphans_exact,
}
use freebsd_laboratory.Identity.{
  int_text, ProcessIdentity, process_matches, query_process_identity, pid_exists,
}
use freebsd_laboratory.Identity.Laws.{process_matches_sound}
use freebsd_laboratory.Base.Decimal.{decimal}
use freebsd_laboratory.PortLeases
use freebsd_laboratory.PortLeases.{
  System, PortPool, Reserved, take_ports, candidates_from, capacity, write_lease, is_leased,
  lease_paths, unlink_all, lease_path,
}
use freebsd_laboratory.PortLeases.Reservation.{allocate-IsReservation, IsReservation}
use freebsd_laboratory.Tests.Demo.{World, demo_pool, demo_host}

nothing_denied : ℕ → Bool
nothing_denied n = false

abbrev no_leases : LeaseDir
no_leases = record { present = true; files = [] }

abbrev owner : Text
owner = text "freebsd-lab-a"

abbrev first_address : Text
first_address = text "172.31.254.10"

abbrev one_lease : LeaseDir
one_lease = record { present = true; files = (first_address, lease (text "freebsd-lab-a\n")) ∷ [] }

demo_pool-IsPool : IsPool demo_pool
unfolding in_network
demo_pool-IsPool = record { small = omega arith; start_inside = refl; end_inside = refl }

allocate-IsGrant_example :
    (n : ℕ) × (first_address ≡ address_text n)
    × IsGrant nothing_denied demo_pool owner no_leases
        (allocate nothing_denied nothing_denied demo_pool owner no_leases).1
        n
unfolding allocate nothing_denied text lookup address_text
allocate-IsGrant_example =
    allocate-IsGrant nothing_denied nothing_denied demo_pool owner first_address no_leases refl

release-allocate_example :
    let (released, dir) =
      release demo_pool first_address owner
        (allocate nothing_denied nothing_denied demo_pool owner no_leases).1 in
    (released ≡ true) × ((stem : Text) → lookup stem dir.files ≡ lookup stem [])
unfolding allocate nothing_denied text lookup address_text is_space
release-allocate_example =
    release-allocate nothing_denied nothing_denied demo_pool owner first_address no_leases
      demo_pool-IsPool (λ e. absurd (ground (arith, e))) refl refl

abbrev demo_network : Network
demo_network = record { address = 2887777792; prefix_length = 24 }

lease_pool-IsPool_example :
    (address? (text "172.31.254.10") ≡ some demo_pool.start)
    × (address? (text "172.31.254.12") ≡ some demo_pool.end)
    × (demo_pool.start ≤ demo_pool.end)
    × ((n : ℕ)
        → demo_pool.start ≤ n
        → n ≤ demo_pool.end
        → (in_network n demo_network ≡ true) × (n < 2 ^ 32))
unfolding lease_pool address? text in_network
lease_pool-IsPool_example =
    lease_pool-IsPool demo_network (text "172.31.254.10") (text "172.31.254.12") demo_pool refl

release_foreign_example :
    ((release demo_pool first_address (text "freebsd-lab-b") one_lease).0 ≡ false)
    × ((release demo_pool first_address (text "freebsd-lab-b") one_lease).1.files ≡ one_lease.files)
unfolding address? address_text lookup strip text
release_foreign_example =
    release_foreign demo_pool first_address (text "freebsd-lab-b") 2887777802
      (text "freebsd-lab-a\n") one_lease refl refl (λ e. absurd (ground (arith, e)))

clear_orphans_exact_example :
    let dir = (clear_orphans (owner ∷ []) one_lease).1 in
    All (λ (e : Text × LeaseFile). IsKept (owner ∷ []) e.1) dir.files
    × ((stem content : Text)
        → lookup stem one_lease.files ≡ some (lease content)
        → member (strip content) (owner ∷ []) ≡ true
        → lookup stem dir.files ≡ some (lease content))
clear_orphans_exact_example = clear_orphans_exact (owner ∷ []) one_lease refl

abbrev one_address : Pool
one_address = record demo_pool { end = 2887777802 }

allocate_exhausted_example :
    IsRefused nothing_denied nothing_denied one_address one_lease
      (runtime_error "No free IPv4 addresses remain in the laboratory pool" [])
      (allocate nothing_denied nothing_denied one_address owner one_lease).1
unfolding allocate nothing_denied text lookup address_text
allocate_exhausted_example =
    allocate_exhausted nothing_denied nothing_denied one_address owner
      (runtime_error "No free IPv4 addresses remain in the laboratory pool" []) one_lease
      (λ e. absurd (ground (arith, e))) refl

process_matches_sound_example :
    (identity : ProcessIdentity) × ((query_process_identity demo_host (pos 4242) []).0
      ≡ some identity)
    × (identity.uid ≡ pos 1001)
    × (identity.digest ≡ text "1001:Mon Jan 5 10:00:00 2026")
    × (le_ℤ 2 (pos 4242) ≡ true)
unfolding process_matches query_process_identity pid_exists demo_host words_from int_of
process_matches_sound_example =
    process_matches_sound demo_host (pos 4242) (pos 1001) (text "1001:Mon Jan 5 10:00:00 2026") []
      refl

-- A process of alice's that reserves two of three tunnel ports.
abbrev tunnel_system : System World
tunnel_system = record {
  host = demo_host;
  own_pid = pos 4242;
  own_uid = pos 1001;
  bindable = λ p. true;
  creatable = λ name. true;
  offset = λ owner. 0;
  is_hex = λ t. true;
  lock_opens = λ w. true;
}

abbrev tunnel_pool : PortPool
tunnel_pool = record { start = 9000; end = 9002 }

abbrev two_ports : Reserved
two_ports = record {
  ports = 9000 ∷ 9001 ∷ [];
  uid = pos 1001;
  digest = text "1001:Mon Jan 5 10:00:00 2026";
}

allocate-IsReservation_example :
    IsReservation tunnel_system tunnel_pool
      (text "kernel")
      (pos 4242)
      2
      (PortLeases.allocate tunnel_system tunnel_pool (text "kernel") (pos 4242) 2 [] []).1
      two_ports
unfolding PortLeases.allocate take_ports candidates_from capacity write_lease is_leased lease_paths
    unlink_all lease_path lookup insert query_process_identity pid_exists demo_host words_from
    int_of int_text decimal text
allocate-IsReservation_example =
    allocate-IsReservation tunnel_system tunnel_pool (text "kernel") (pos 4242) 2 [] [] two_ports
      (omega arith) refl
