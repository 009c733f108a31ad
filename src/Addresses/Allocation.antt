-- ===== src/Addresses/Allocation.antt =====
-- Which address `allocate` hands out, and when it hands out none.
use freebsd_laboratory.Base.{
  ℕ, zero, suc, ◌+◌, ◌-◌, ◌≤◌, ◌<◌, Bool, true, false, [], ◌∷◌, ◌++◌, none, some, ◌≡◌, ◌≢◌, ◌⊎◌,
  inl, inr, arith, Bool-cases, Option-cases, if◌then◌else◌, not, ◌&&◌,
}
use mathlib.Core.Path.{subst}
use native.Mathlib.Decide.{ℕ_discrete}
use freebsd_laboratory.Base.Text.{Text, eq_text}
use freebsd_laboratory.Base.Ipv4.{address_text}
use freebsd_laboratory.Base.Dict.{Dict, lookup, insert, lookup-insert}
use freebsd_laboratory.Base.Result.{ok, err, Error, os_error}
use freebsd_laboratory.Addresses.{
  LeaseFile, lease, LeaseDir, Pool, first_free, leased, allocate, is_free,
}

-- A place where no lease file can be created: an entry has the name, or the system refuses.
abbrev pub IsTaken : (ℕ → Bool) → Dict LeaseFile → ℕ → Type 0
IsTaken denied files m = (lookup (address_text m) files ≢ none) ⊎ (denied m ≡ true)

module _ (denied : ℕ → Bool) where
  -- The address that the loop stops at: in its range, free, and with none free below it.
  record IsFirst (count value : ℕ) (files : Dict LeaseFile) (n : ℕ) : Type 0 where
    pub above : value ≤ n
    pub below : n < value + count
    pub free : lookup (address_text n) files ≡ none
    pub allowed : denied n ≡ false
    pub lowest : (m : ℕ) → value ≤ m → m < n → IsTaken denied files m

  taken :
      (files : Dict LeaseFile) (m : ℕ)
      → (is_free (lookup (address_text m) files) && not (denied m)) ≡ false
      → IsTaken denied files m
  taken files m h = elim (Option-cases (lookup (address_text m) files)) [
    | inl e ↦ inr (ground arith)
    | inr (v, e) ↦ inl (λ p. ground arith)
  ]

  IsFirst-here :
      (count value : ℕ) (files : Dict LeaseFile)
      → (is_free (lookup (address_text value) files) && not (denied value)) ≡ true
      → IsFirst (suc count) value files value
  IsFirst-here count value files h = record {
    above = omega arith;
    below = omega arith;
    free = ground arith;
    allowed = ground arith;
    lowest = λ m lo hi. absurd (omega arith);
  }

  IsFirst-later :
      (count value : ℕ) (files : Dict LeaseFile) (n : ℕ)
      → IsTaken denied files value
      → IsFirst count (value + 1) files n
      → IsFirst (suc count) value files n
  IsFirst-later count value files n t f = record {
    above = omega arith;
    below = omega arith;
    free = f.free;
    allowed = f.allowed;
    lowest = λ m lo hi. elim (ℕ_discrete value m) [
      | yes e ↦ subst (IsTaken denied files) e t
      | no ne ↦ f.lowest m (omega arith) hi
    ];
  }

  first_free-IsFirst :
      (count value : ℕ) (files : Dict LeaseFile) (n : ℕ)
      → first_free denied count value files ≡ some n
      → IsFirst count value files n
  unfolding first_free
  first_free-IsFirst zero value files n h = ground arith
  first_free-IsFirst (suc count) value files n h =
      elim (Bool-cases (is_free (lookup (address_text value) files) && not (denied value))) [
        | inl t ↦
            let e : value ≡ n = ground arith in
            subst (IsFirst (suc count) value files) e (IsFirst-here count value files t)
        | inr f ↦
            IsFirst-later count value files n (taken files value f)
              (first_free-IsFirst count (value + 1) files n (ground arith))
      ]

  first_free-none :
      (count value : ℕ) (files : Dict LeaseFile)
      → first_free denied count value files ≡ none
      → (m : ℕ) → value ≤ m
      → m < value + count
      → IsTaken denied files m
  unfolding first_free
  first_free-none zero value files h m lo hi = absurd (omega arith)
  first_free-none (suc count) value files h m lo hi =
      elim (Bool-cases (is_free (lookup (address_text value) files) && not (denied value))) [
        | inl t ↦ cc (busy t)
        | inr f ↦ elim (ℕ_discrete value m) [
          | yes e ↦ subst (IsTaken denied files) e (taken files value f)
          | no ne ↦
              first_free-none count (value + 1) files (ground arith) m (omega arith) (omega arith)
        ]
      ]
    where
      busy :
          (is_free (lookup (address_text value) files) && not (denied value)) ≡ true
          → first_free denied (suc count) value files ≡ some value
      busy t = ground arith

  -- What a new lease of the address number `n` with some content has done.
  pub record IsPlaced (pool : Pool) (content : Text) (dir dir' : LeaseDir) (n : ℕ) : Type 0 where
    pub above : pool.start ≤ n
    pub below : n ≤ pool.end
    pub free : lookup (address_text n) dir.files ≡ none
    pub lowest : (m : ℕ) → pool.start ≤ m → m < n → IsTaken denied dir.files m
    pub files :
        (stem : Text)
        → lookup stem dir'.files
          ≡ (if eq_text stem (address_text n) then some (lease content) else lookup stem dir.files)

  -- An allocation to an owner.
  abbrev pub IsGrant : Pool → Text → LeaseDir → LeaseDir → ℕ → Type 0
  IsGrant pool owner dir dir' n = IsPlaced pool (owner ++ 10 ∷ []) dir dir' n

  placed :
      (pool : Pool) (content : Text) (dir dir' : LeaseDir) (n : ℕ)
      → first_free denied (pool.end + 1 - pool.start) pool.start dir.files ≡ some n
      → dir'.files ≡ insert (address_text n) (lease content) dir.files
      → IsPlaced pool content dir dir' n
  placed pool content dir dir' n found e =
      let f = first_free-IsFirst _ _ _ n found in
      record {
        above = f.above;
        below = omega (arith, f.above, f.below);
        free = f.free;
        lowest = f.lowest;
        files = λ stem. rw e (lookup-insert (address_text n) stem _ dir.files);
      }

module _ (denied unwritable : ℕ → Bool) where
  -- A successful `allocate` returns the text of the lowest address of the pool that is neither
  -- leased nor refused by the system, and adds its lease, in the owner's name, and no other.
  pub allocate-IsGrant :
      (pool : Pool) (owner a : Text) (dir : LeaseDir)
      → (allocate denied unwritable pool owner dir).0 ≡ ok a
      → (n : ℕ) × (a ≡ address_text n)
        × IsGrant denied pool owner dir (allocate denied unwritable pool owner dir).1 n
  unfolding allocate leased
  allocate-IsGrant pool owner a dir h =
      elim (Option-cases (first_free denied (pool.end + 1 - pool.start) pool.start dir.files)) [
        | inl e ↦ absurd (ground (arith, e, h))
        | inr (n, e) ↦ elim (Bool-cases (unwritable n)) [
          | inl bad ↦ absurd (ground (arith, e, bad, h))
          | inr good ↦ (
            n,
            ground (arith, e, good, h),
            placed denied pool (owner ++ 10 ∷ []) dir _ n e (ground (arith, e, good, h)),
          )
        ]
      ]

  -- How an allocation may fail: every address is taken, and no lease changes; or the file of the
  -- lowest free address cannot be written, and stays behind empty, and no other lease changes.
  abbrev pub IsRefused : Pool → LeaseDir → Error → LeaseDir → Type 0
  IsRefused pool dir e dir' =
      ((m : ℕ) → pool.start ≤ m → m ≤ pool.end → IsTaken denied dir.files m)
        × (dir'.files ≡ dir.files)
      ⊎ ((e ≡ os_error) × ((n : ℕ) × (unwritable n ≡ true) × IsPlaced denied pool [] dir dir' n))

  -- `allocate` for a named owner fails only when every address of the pool is leased or refused by
  -- the system, and then no lease changes; or with an OSError because the file that it created for
  -- the lowest free address cannot be written, and then that file stays, empty, and no other lease
  -- changes.
  pub allocate_exhausted :
      (pool : Pool) (owner : Text) (e : Error) (dir : LeaseDir)
      → owner ≢ []
      → (allocate denied unwritable pool owner dir).0 ≡ err e
      → IsRefused pool dir e (allocate denied unwritable pool owner dir).1
  unfolding allocate leased
  allocate_exhausted pool owner e dir named h =
      elim (Option-cases (first_free denied (pool.end + 1 - pool.start) pool.start dir.files)) [
        | inl none_free ↦ inl (
          λ m lo hi. first_free-none denied _ pool.start dir.files none_free m lo (omega arith),
          ground (arith, none_free),
        )
        | inr (n, found) ↦ elim (Bool-cases (unwritable n)) [
          | inl bad ↦ inr (
            ground (arith, found, bad, h),
            (n, bad, placed denied pool [] dir _ n found (ground (arith, found, bad))),
          )
          | inr good ↦ absurd (ground (arith, found, good, h))
        ]
      ]
