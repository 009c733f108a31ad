-- ===== src/Addresses.antt =====
-- freebsd_laboratory/network.py: the file-backed pool of IPv4 leases shared by jails and guests.
-- A lease is the file `<address>.lease` that holds its owner's name. The thread lock and the file
-- lock make each method one step, so a method is a function of the lease directory.
pub mod Allocation
pub mod Release
use freebsd_laboratory.Base.{
  ℕ, zero, suc, ◌+◌, ◌-◌, ◌/◌, ◌^◌, Bool, true, false, List, [], ◌∷◌, ◌++◌, Option, none, some, not,
  ◌&&◌, ◌||◌, ◌==◌, leb, ltb, if◌then◌else◌, is_nil,
}
use freebsd_laboratory.Base.Text.{Text, eq_text, member}
use freebsd_laboratory.Base.Split.{strip}
use freebsd_laboratory.Base.Ipv4.{address?, address_text}
use freebsd_laboratory.Base.Dict.{Dict, lookup, insert, erase}
use freebsd_laboratory.Base.Result.{Result, ok, err, Error, value_error, runtime_error, os_error}

-- An entry `<stem>.lease` of the directory; `unreadable` is one whose text cannot be read.
pub data LeaseFile : Type 0 where
  symlink : LeaseFile
  unreadable : LeaseFile
  lease : Text → LeaseFile

pub record LeaseDir : Type 0 where
  pub present : Bool
  pub files : Dict LeaseFile

-- ipaddress.ip_network(cidr, strict=False)
pub record Network : Type 0 where
  pub address : ℕ
  pub prefix_length : ℕ

unfoldable pub in_network : ℕ → Network → Bool
in_network n net = n / 2 ^ (32 - net.prefix_length) == net.address / 2 ^ (32 - net.prefix_length)

pub record Pool : Type 0 where
  pub network : Network
  pub start : ℕ
  pub end : ℕ

make_pool : Network → Option ℕ → Option ℕ → Result Pool
make_pool net (some start) (some end) =
    if not (in_network start net && in_network end net)
    then err (value_error "Address pool must be contained in network_cidr")
    else if ltb end start
    then err (value_error "address_start must not be greater than address_end")
    else ok (record { network = net; start = start; end = end })
make_pool net _ _ = err (value_error "does not appear to be an IPv4 address")

-- IPv4LeasePool.__init__
unfoldable pub lease_pool : Network → Text → Text → Result Pool
unfolding make_pool
lease_pool net start end = make_pool net (address? start) (address? end)

abbrev is_free : Option LeaseFile → Bool
is_free none = true
is_free (some _) = false

module _ (denied : ℕ → Bool) where
  -- The loop of `allocate` over `count` addresses from `value`. A lease file is created only where
  -- no entry of its name exists; `denied` are the addresses where os.open fails otherwise.
  first_free : ℕ → ℕ → Dict LeaseFile → Option ℕ
  first_free zero value files = none
  first_free (suc count) value files =
      let rest = first_free count (value + 1) files in
      if is_free (lookup (address_text value) files) && not (denied value) then some value else rest

module _ (denied unwritable : ℕ → Bool) where
  -- What is left behind the loop: `unwritable` are the addresses whose new file cannot be written,
  -- which stays behind empty.
  leased : Text → Option ℕ → LeaseDir → Result Text × LeaseDir
  leased owner none dir =
      (err (runtime_error "No free IPv4 addresses remain in the laboratory pool" []), dir)
  leased owner (some value) dir =
      if unwritable value
      then (err os_error, record dir { files = insert (address_text value) (lease []) dir.files })
      else (
        ok (address_text value),
        record dir { files = insert (address_text value) (lease (owner ++ 10 ∷ [])) dir.files },
      )

  unfoldable pub allocate : Pool → Text → LeaseDir → Result Text × LeaseDir
  unfolding first_free leased
  allocate pool owner dir =
      if is_nil owner
      then (err (value_error "Lease owner must be a non-empty string"), dir)
      else leased owner (first_free denied (pool.end + 1 - pool.start) pool.start dir.files)
          (record dir { present = true })

-- The part of `release` under the lock.
release_file : Text → Text → Option LeaseFile → LeaseDir → Bool × LeaseDir
release_file stem owner none dir = (false, dir)
release_file stem owner (some symlink) dir = (false, record dir { files = erase stem dir.files })
release_file stem owner (some unreadable) dir = (false, dir)
release_file stem owner (some (lease content)) dir =
    if eq_text (strip content) owner
    then (true, record dir { files = erase stem dir.files })
    else (false, dir)

in_range : Pool → ℕ → Bool
in_range pool n = in_network n pool.network && leb pool.start n && leb n pool.end

release_at : Pool → Option ℕ → Text → LeaseDir → Bool × LeaseDir
release_at pool none owner dir = (false, dir)
release_at pool (some n) owner dir =
    if in_range pool n
    then release_file (address_text n) owner (lookup (address_text n) dir.files)
        (record dir { present = true })
    else (false, dir)

unfoldable pub release : Pool → Text → Text → LeaseDir → Bool × LeaseDir
unfolding release_at release_file in_range
release pool address owner dir =
    if is_nil owner then (false, dir) else release_at pool (address? address) owner dir

-- What `clear_orphans` does with one entry: whether it stays, and whether it is reported.
abbrev pub stays : List Text → LeaseFile → Bool
stays active symlink = false
stays active unreadable = true
stays active (lease content) = member (strip content) active

abbrev pub reported : List Text → LeaseFile → Bool
reported active symlink = false
reported active unreadable = false
reported active (lease content) = not (member (strip content) active)

sweep : List Text → Dict LeaseFile → List Text × Dict LeaseFile
sweep active [] = ([], [])
sweep active ((stem, file) ∷ files) =
    let (removed, kept) = sweep active files in
    (
      (if reported active file then stem ∷ removed else removed),
      (if stays active file then (stem, file) ∷ kept else kept),
    )

-- s <= t in the order of code points
le_text : Text → Text → Bool
le_text [] t = true
le_text (c ∷ s) [] = false
le_text (c ∷ s) (d ∷ t) = ltb c d || (c == d && le_text s t)

insert_sorted : Text → List Text → List Text
insert_sorted s [] = s ∷ []
insert_sorted s (t ∷ ts) = if le_text s t then s ∷ t ∷ ts else t ∷ insert_sorted s ts

-- sorted(texts)
unfoldable pub sorted : List Text → List Text
unfolding insert_sorted le_text
sorted [] = []
sorted (s ∷ ts) = insert_sorted s (sorted ts)

unfoldable pub clear_orphans : List Text → LeaseDir → List Text × LeaseDir
unfolding sweep
clear_orphans active dir =
    let (removed, kept) = sweep active dir.files in
    if dir.present then (sorted removed, record dir { files = kept }) else ([], dir)
