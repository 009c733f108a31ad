-- ===== src/Base/Ipv4.antt =====
-- IPv4 addresses as `ipaddress` prints and reads them: a number below 2 ^ 32 as four decimal octets.
use freebsd_laboratory.Base.Tests.{leb, ◌==◌, if◌then◌else◌}
use freebsd_laboratory.Base.Lists.{all, length}
use freebsd_laboratory.Base.Text.{Text, is_digit}
use freebsd_laboratory.Base.Decimal.{decimal, value_from}
use freebsd_laboratory.Base.Split.{split_at, split_at_plain, split_at_append}
use Prim.Native.Nat.{ℕ, zero, suc, ◌+◌, ◌*◌, ◌/◌, ◌%◌, ◌^◌, ◌<◌}
use mathlib.Core.Path.{◌≡◌, refl, ap}
use mathlib.Core.Bool.{Bool, true, false, ◌&&◌, ◌||◌, not}
use mathlib.Core.Option.{Option, none, some}
use mathlib.Core.List.{List, [], ◌∷◌, ◌++◌}
use native.Mathlib.Omega.{arith}

-- One to three digits, without a leading zero, at most 255.
octet? : Text → Option ℕ
octet? [] = none
octet? (c ∷ s) =
    if all is_digit (c ∷ s) && leb (length (c ∷ s)) 3 && (not (c == b'0') || length s == 0)
    then (if leb (value_from 0 (c ∷ s)) 255 then some (value_from 0 (c ∷ s)) else none)
    else none

-- str(address)
unfoldable pub address_text : ℕ → Text
unfolding decimal
address_text n =
    decimal (n / 2 ^ 24)
    ++ (b'.'
        ∷ (decimal (n / 2 ^ 16 % 256)
            ++ (b'.' ∷ (decimal (n / 2 ^ 8 % 256) ++ (b'.' ∷ decimal (n % 256))))))

join : Option ℕ → Option ℕ → Option ℕ → Option ℕ → Option ℕ
join (some a) (some b) (some c) (some d) = some (((a * 256 + b) * 256 + c) * 256 + d)
join _ _ _ _ = none

of_octets : List Text → Option ℕ
of_octets (a ∷ b ∷ c ∷ d ∷ []) = join (octet? a) (octet? b) (octet? c) (octet? d)
of_octets _ = none

-- int(ip_address(s)), or `none` where it raises ValueError
unfoldable pub address? : Text → Option ℕ
unfolding of_octets join octet? is_digit value_from split_at
address? s = of_octets (split_at b'.' s)

passes_below : (ℕ → Bool) → ℕ → Bool
passes_below test zero = true
passes_below test (suc top) = passes_below test top && test top

passes_below_sound :
    (test : ℕ → Bool) (top : ℕ) → passes_below test top ≡ true → (n : ℕ) → n < top → test n ≡ true
unfolding passes_below
passes_below_sound test zero passed n below = absurd (omega arith)
passes_below_sound test (suc top) passed n below =
    ground (arith, passes_below_sound test top (ground arith) n)

is_some_eq : Option ℕ → ℕ → Bool
is_some_eq none n = false
is_some_eq (some m) n = m == n

is_some_eq_sound : (o : Option ℕ) (n : ℕ) → is_some_eq o n ≡ true → o ≡ some n
unfolding is_some_eq
is_some_eq_sound none n h = ground arith
is_some_eq_sound (some m) n h = ground arith

octet_table : passes_below (λ n. is_some_eq (octet? (decimal n)) n) 256 ≡ true
unfolding passes_below is_some_eq octet? decimal is_digit value_from
octet_table = refl

octet?-decimal : (n : ℕ) → n < 256 → octet? (decimal n) ≡ some n
octet?-decimal n h =
    is_some_eq_sound _ n
      (passes_below_sound (λ n. is_some_eq (octet? (decimal n)) n) 256 octet_table n h)

plain_table : passes_below (λ n. all (λ c. not (c == b'.')) (decimal n)) 256 ≡ true
unfolding passes_below decimal
plain_table = refl

decimal_plain : (n : ℕ) → n < 256 → all (λ c. not (c == b'.')) (decimal n) ≡ true
decimal_plain n h =
    passes_below_sound (λ n. all (λ c. not (c == b'.')) (decimal n)) 256 plain_table n h

octets_of_address :
    (a b c d : ℕ)
    → a < 256
    → b < 256
    → c < 256
    → d < 256
    → split_at b'.'
        (decimal a ++ (b'.' ∷ (decimal b ++ (b'.' ∷ (decimal c ++ (b'.' ∷ decimal d))))))
      ≡ decimal a ∷ decimal b ∷ decimal c ∷ decimal d ∷ []
octets_of_address a b c d ha hb hc hd = rw (
  split_at_append b'.' (decimal a) _ (decimal_plain a ha),
  split_at_append b'.' (decimal b) _ (decimal_plain b hb),
  split_at_append b'.' (decimal c) _ (decimal_plain c hc),
  split_at_plain b'.' (decimal d) (decimal_plain d hd),
)

join_octets :
    (n : ℕ)
    → n < 2 ^ 32
    → join (some (n / 2 ^ 24)) (some (n / 2 ^ 16 % 256)) (some (n / 2 ^ 8 % 256)) (some (n % 256))
      ≡ some n
unfolding join
join_octets n h = ground arith

-- Every address is read back from its text.
pub address?-address_text : (n : ℕ) → n < 2 ^ 32 → address? (address_text n) ≡ some n
unfolding address? address_text of_octets
address?-address_text n h =
    rw
      (
        octets_of_address (n / 2 ^ 24) (n / 2 ^ 16 % 256) (n / 2 ^ 8 % 256) (n % 256) (omega arith)
            (omega arith) (omega arith) (omega arith),
        of_octets,
        octet?-decimal (n / 2 ^ 24) (omega arith),
        octet?-decimal (n / 2 ^ 16 % 256) (omega arith),
        octet?-decimal (n / 2 ^ 8 % 256) (omega arith),
        octet?-decimal (n % 256) (omega arith),
      )
      (join_octets n h)

pub address_text_inj : (m n : ℕ) → m < 2 ^ 32 → n < 2 ^ 32 → address_text m ≡ address_text n → m ≡ n
address_text_inj m n hm hn e =
    ground (arith, address?-address_text m hm, address?-address_text n hn, ap address? e)

octet?-lt : (s : Text) (n : ℕ) → octet? s ≡ some n → n < 256
unfolding octet?
octet?-lt [] n h = ground arith
octet?-lt (c ∷ s) n h = ground arith

join-lt :
    (a b c d : Option ℕ) (n : ℕ)
    → ((i : ℕ) → a ≡ some i → i < 256)
    → ((i : ℕ) → b ≡ some i → i < 256)
    → ((i : ℕ) → c ≡ some i → i < 256)
    → ((i : ℕ) → d ≡ some i → i < 256)
    → join a b c d ≡ some n
    → n < 2 ^ 32
unfolding join
join-lt (some a) (some b) (some c) (some d) n ha hb hc hd h =
    ground (arith, ha a refl, hb b refl, hc c refl, hd d refl)
join-lt _ _ _ _ n ha hb hc hd h = ground arith

of_octets-lt : (ws : List Text) (n : ℕ) → of_octets ws ≡ some n → n < 2 ^ 32
unfolding of_octets
of_octets-lt (a ∷ b ∷ c ∷ d ∷ []) n h =
    join-lt (octet? a) (octet? b) (octet? c) (octet? d) n (octet?-lt a) (octet?-lt b) (octet?-lt c)
      (octet?-lt d) h
of_octets-lt _ n h = ground arith

pub address?-lt : (s : Text) (n : ℕ) → address? s ≡ some n → n < 2 ^ 32
unfolding address?
address?-lt s n h = of_octets-lt (split_at b'.' s) n h
