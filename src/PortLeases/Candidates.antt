-- ===== src/PortLeases/Candidates.antt =====
-- The candidates of an allocation: ports of the pool, no two of them the same.
use native.Mathlib.Nat.{mod-lt, div-add-mod, mul-le-mul_left}
use freebsd_laboratory.Base.{
  ℕ, zero, suc, ◌+◌, ◌-◌, ◌*◌, ◌/◌, ◌%◌, ◌<◌, ◌≤◌, List, [], ◌∷◌, ◌++◌, ◌≡◌, refl, ◌≢◌, All, leb,
  Bool-cases, inl, inr, arith,
}
use freebsd_laboratory.PortLeases.{PortPool, capacity, candidates_from}

abbrev pub InRange : PortPool → ℕ → Type 0
InRange pool p = (pool.start ≤ p) × (p ≤ pool.end)

pub candidates-InRange :
    (pool : PortPool) (offset index n : ℕ)
    → pool.start ≤ pool.end
    → All (InRange pool) (candidates_from pool offset index n)
unfolding candidates_from capacity
candidates-InRange pool offset index zero h = tt
candidates-InRange pool offset index (suc n) h =
    let below : (offset + index) % (pool.end + 1 - pool.start) < pool.end + 1 - pool.start =
      mod-lt (offset + index) (omega (arith, h)) in
    ((omega arith, omega (arith, below)), candidates-InRange pool offset (index + 1) n h)

-- No two elements of a list are the same.
abbrev pub Distinct : List ℕ → Type 0
Distinct [] = Unit
Distinct (p ∷ ps) = All (λ q. p ≢ q) ps × Distinct ps

-- A step of less than the modulus changes the remainder.
mod_apart : (a d c : ℕ) → 0 < d → d < c → a % c ≢ (a + d) % c
mod_apart a d c hd hc e =
    let x : c * (a / c) + a % c ≡ a = div-add-mod a c in
    let y : c * ((a + d) / c) + (a + d) % c ≡ a + d = div-add-mod (a + d) c in
    elim (Bool-cases (leb ((a + d) / c) (a / c))) [
      | inl below ↦
          let z : c * ((a + d) / c) ≤ c * (a / c) = mul-le-mul_left c (ground (arith, below)) in
          omega (arith, e, x, y, z, hd)
      | inr above ↦
          let z : c * (a / c + 1) ≤ c * ((a + d) / c) = mul-le-mul_left c (ground (arith, above)) in
          omega (arith, e, x, y, z, hc)
    ]

candidates_apart :
    (pool : PortPool) (offset index d at n : ℕ)
    → 0 < d
    → d + n ≤ capacity pool
    → at ≡ index + d
    → All
        (λ q. pool.start + (offset + index) % capacity pool ≢ q)
        (candidates_from pool offset at n)
unfolding candidates_from
candidates_apart pool offset index d at zero hd h place = tt
candidates_apart pool offset index d at (suc n) hd h place =
    let same : offset + at ≡ offset + index + d = omega (arith, place) in
    (
      (λ e.
          mod_apart (offset + index) d (capacity pool) hd (omega (arith, h))
            (rw (← same) (omega (arith, e)))),
      candidates_apart pool offset index (d + 1) (at + 1) n (omega arith) (omega (arith, h))
          (omega (arith, place)),
    )

pub candidates-Distinct :
    (pool : PortPool) (offset index n : ℕ)
    → n ≤ capacity pool
    → Distinct (candidates_from pool offset index n)
unfolding candidates_from
candidates-Distinct pool offset index zero h = tt
candidates-Distinct pool offset index (suc n) h = (
  candidates_apart pool offset index 1 (index + 1) n (omega arith) (omega (arith, h)) refl,
  candidates-Distinct pool offset (index + 1) n (omega (arith, h)),
)

-- The three parts of a list of distinct ports.
pub without_one :
    (ps : List ℕ) (q : ℕ) (qs : List ℕ) → Distinct (ps ++ q ∷ qs) → Distinct (ps ++ qs)
without_one [] q qs h = h.1
without_one (p ∷ ps) q qs h = (all_skip ps q qs h.0, without_one ps q qs h.1)
  where
    all_skip :
        (xs : List ℕ) (y : ℕ) (ys : List ℕ)
        → All (λ x. p ≢ x) (xs ++ y ∷ ys)
        → All (λ x. p ≢ x) (xs ++ ys)
    all_skip [] y ys a = a.1
    all_skip (x ∷ xs) y ys a = (a.0, all_skip xs y ys a.1)

pub front_part : (ps qs : List ℕ) → Distinct (ps ++ qs) → Distinct ps
front_part [] qs h = tt
front_part (p ∷ ps) qs h = (all_front ps qs h.0, front_part ps qs h.1)
  where
    all_front : (xs ys : List ℕ) → All (λ x. p ≢ x) (xs ++ ys) → All (λ x. p ≢ x) xs
    all_front [] ys a = tt
    all_front (x ∷ xs) ys a = (a.0, all_front xs ys a.1)

pub apart_from : (ps : List ℕ) (q : ℕ) (qs : List ℕ) → Distinct (ps ++ q ∷ qs) → All (λ p. p ≢ q) ps
apart_from [] q qs h = tt
apart_from (p ∷ ps) q qs h = (met ps h.0, apart_from ps q qs h.1)
  where
    met : (xs : List ℕ) → All (λ x. p ≢ x) (xs ++ q ∷ qs) → p ≢ q
    met [] a = a.0
    met (x ∷ xs) a = met xs a.1
