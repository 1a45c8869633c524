-- ===== src/Base/Bits.antt =====
-- Bit operations as arithmetic: `|` of disjoint fields, `&` with a low mask, and `^` of words.
mod Order
use Prim.Native.Nat.{
  ℕ, zero, suc, ◌+◌, ◌-◌, ◌*◌, ◌/◌, ◌%◌, ◌^◌, ◌≤◌, ◌<◌, min, max, digits, bitwise, bit_and, bit_or,
  differ, bit_xor, bit_and-bitwise, bit_or-bitwise, bit_xor-bitwise,
}
use mathlib.Core.Path.{◌≡◌, refl, sym, ap, ◌∙◌}
use mathlib.Core.WellFounded
use native.Mathlib.Nat.{
  pow-zero, pow-suc, one-le-pow, add-zero, add-suc, mul_assoc, div-add-mod', mod-lt,
}
use native.Mathlib.Decide.{dec_le}
use Order.{lt_wf}
use native.Mathlib.Omega.{arith}

-- What holds at 0 and at `n` when it holds at `n / 2` holds everywhere.
by_halves {ℓ} : (P : ℕ → Type ℓ) → P 0 → ((n : ℕ) → P (suc n / 2) → P (suc n)) → (n : ℕ) → P n
by_halves P start grow n = WellFounded.induction lt_wf {C = P} n (λ m below. next m below)
  where
    next : (m : ℕ) → ((l : ℕ) → l < m → P l) → P m
    next zero below = start
    next (suc m) below = grow m (below (suc m / 2) (omega arith))

-- An operation on the binary digits: `last` when the first number has run out, `on` for two digits.
module _ (last : ℕ → ℕ) (on : ℕ → ℕ → ℕ) where
  one_more : (fuel x y : ℕ) → x ≤ fuel → digits last on (suc fuel) x y ≡ digits last on fuel x y
  one_more zero zero y h = refl
  one_more zero (suc x) y h = absurd (omega arith)
  one_more (suc fuel) zero y h = refl
  one_more (suc fuel) (suc x) y h =
      ap (λ t. t * 2 + on (suc x % 2) (y % 2)) (one_more fuel (suc x / 2) (y / 2) (omega arith))

  spare_fuel : (fuel x y : ℕ) → x ≤ fuel → digits last on fuel x y ≡ bitwise last on x y
  spare_fuel zero x y h = let e : 0 ≡ x = omega arith in ap (λ n. digits last on n x y) e
  spare_fuel (suc fuel) x y h = elim (dec_le x fuel) [
    | yes le ↦ one_more fuel x y le ∙ spare_fuel fuel x y le
    | no gt ↦ let e : suc fuel ≡ x = omega arith in ap (λ n. digits last on n x y) e
  ]

  halves :
      (op : ℕ → ℕ → ℕ)
      → ((x y : ℕ) → op x y ≡ bitwise last on x y)
      → ((y : ℕ) → last y ≡ last (y / 2) * 2 + on 0 (y % 2))
      → (x y : ℕ) → op x y ≡ op (x / 2) (y / 2) * 2 + on (x % 2) (y % 2)
  halves op is start zero y =
      is zero y ∙ start y ∙ ap (λ t. t * 2 + on 0 (y % 2)) (sym (is zero (y / 2)))
  halves op is start (suc x) y =
      is (suc x) y
      ∙ ap (λ t. t * 2 + on (suc x % 2) (y % 2))
          (spare_fuel x (suc x / 2) (y / 2) (omega arith) ∙ sym (is (suc x / 2) (y / 2)))

or_halves : (x y : ℕ) → bit_or x y ≡ bit_or (x / 2) (y / 2) * 2 + max (x % 2) (y % 2)
or_halves = halves (λ y. y) max bit_or (λ x y. bit_or-bitwise x y) (λ y. omega arith)

and_halves : (x y : ℕ) → bit_and x y ≡ bit_and (x / 2) (y / 2) * 2 + min (x % 2) (y % 2)
and_halves = halves (λ _. 0) min bit_and (λ x y. bit_and-bitwise x y) (λ y. omega arith)

pub xor_halves : (x y : ℕ) → bit_xor x y ≡ bit_xor (x / 2) (y / 2) * 2 + differ (x % 2) (y % 2)
xor_halves = halves (λ y. y) differ bit_xor (λ x y. bit_xor-bitwise x y) (λ y. omega arith)

or_nothing : (x : ℕ) → bit_or x 0 ≡ x
or_nothing = by_halves (λ n. bit_or n 0 ≡ n) refl (λ n ih. omega (arith, or_halves (suc n) 0, ih))

pub bit_or_comm : (a b : ℕ) → bit_or a b ≡ bit_or b a
bit_or_comm =
    by_halves (λ n. (b : ℕ) → bit_or n b ≡ bit_or b n)
      (λ b. bit_or-bitwise 0 b ∙ sym (or_nothing b))
      (λ n ih b. omega (arith, or_halves (suc n) b, or_halves b (suc n), ih (b / 2)))

and_nothing : (x : ℕ) → bit_and x 0 ≡ 0
and_nothing =
    by_halves (λ n. bit_and n 0 ≡ 0) refl (λ n ih. omega (arith, and_halves (suc n) 0, ih))

differ_self : (x : ℕ) → differ x x ≡ 0
differ_self zero = refl
differ_self (suc x) = differ_self x

-- `x ^ x` is 0.
pub bit_xor_self : (x : ℕ) → bit_xor x x ≡ 0
bit_xor_self =
    by_halves (λ n. bit_xor n n ≡ 0) refl
      (λ n ih. omega (arith, xor_halves (suc n) (suc n), ih, differ_self (suc n % 2)))

differ_bits : (x y : ℕ) → x < 2 → y < 2 → differ x y < 2
differ_bits zero y p q = q
differ_bits (suc x) zero p q = p
differ_bits (suc zero) (suc zero) p q = omega arith
differ_bits (suc zero) (suc (suc y)) p q = absurd (omega arith)
differ_bits (suc (suc x)) (suc y) p q = absurd (omega arith)

differ_assoc : (x y z : ℕ) → x < 2 → y < 2 → z < 2 → differ (differ x y) z ≡ differ x (differ y z)
differ_assoc zero y z p q r = refl
differ_assoc (suc zero) zero z p q r = refl
differ_assoc (suc zero) (suc zero) zero p q r = refl
differ_assoc (suc zero) (suc zero) (suc zero) p q r = refl
differ_assoc (suc zero) (suc zero) (suc (suc z)) p q r = absurd (omega arith)
differ_assoc (suc zero) (suc (suc y)) z p q r = absurd (omega arith)
differ_assoc (suc (suc x)) y z p q r = absurd (omega arith)

pub bit_xor_parts :
    (x y : ℕ)
    → (bit_xor x y / 2 ≡ bit_xor (x / 2) (y / 2)) × (bit_xor x y % 2 ≡ differ (x % 2) (y % 2))
bit_xor_parts x y =
    let small = differ_bits (x % 2) (y % 2) (omega arith) (omega arith) in
    (omega (arith, xor_halves x y), omega (arith, xor_halves x y))

pub zero-bit_xor : (b : ℕ) → bit_xor 0 b ≡ b
zero-bit_xor b = bit_xor-bitwise 0 b

differ-zero : (x : ℕ) → differ x 0 ≡ x
differ-zero zero = refl
differ-zero (suc x) = refl

pub bit_xor-zero : (x : ℕ) → bit_xor x 0 ≡ x
bit_xor-zero =
    by_halves (λ n. bit_xor n 0 ≡ n) refl
      (λ n ih. omega (arith, xor_halves (suc n) 0, ih, differ-zero (suc n % 2)))

pub bit_xor_assoc : (a b c : ℕ) → bit_xor (bit_xor a b) c ≡ bit_xor a (bit_xor b c)
bit_xor_assoc =
    by_halves (λ n. (b c : ℕ) → bit_xor (bit_xor n b) c ≡ bit_xor n (bit_xor b c))
      (λ b c. rw (zero-bit_xor b, zero-bit_xor (bit_xor b c))) grow
  where
    grow :
        (n : ℕ)
        → ((b c : ℕ) → bit_xor (bit_xor (suc n / 2) b) c ≡ bit_xor (suc n / 2) (bit_xor b c))
        → (b c : ℕ) → bit_xor (bit_xor (suc n) b) c ≡ bit_xor (suc n) (bit_xor b c)
    grow n ih b c =
        let (hab, lab) = bit_xor_parts (suc n) b in
        let (hbc, lbc) = bit_xor_parts b c in
        xor_halves (bit_xor (suc n) b) c
        ∙ rw (
          hab,
          lab,
          ih (b / 2) (c / 2),
          differ_assoc (suc n % 2) (b % 2) (c % 2) (omega arith) (omega arith) (omega arith),
          xor_halves (suc n) (bit_xor b c),
          hbc,
          lbc,
        )

differ_comm : (x y : ℕ) → differ x y ≡ differ y x
differ_comm zero zero = refl
differ_comm zero (suc y) = refl
differ_comm (suc x) zero = refl
differ_comm (suc x) (suc y) = differ_comm x y

pub bit_xor_comm : (a b : ℕ) → bit_xor a b ≡ bit_xor b a
bit_xor_comm =
    by_halves (λ n. (b : ℕ) → bit_xor n b ≡ bit_xor b n) (λ b. rw (zero-bit_xor b, bit_xor-zero b))
      (λ n ih b. omega (
        arith,
        xor_halves (suc n) b,
        xor_halves b (suc n),
        ih (b / 2),
        differ_comm (suc n % 2) (b % 2),
      ))

pub pow-add : (m n : ℕ) → 2 ^ (m + n) ≡ 2 ^ m * 2 ^ n
pow-add m zero = rw add-zero (omega (arith, pow-zero 2))
pow-add m (suc n) = simp (add-suc, pow-suc, pow-add m n, mul_assoc)

pub pow_pos : (k : ℕ) → 1 ≤ 2 ^ k
pow_pos k = one-le-pow k 2 (omega arith)

doubled : (q k : ℕ) → q * 2 ^ suc k ≡ q * 2 ^ k * 2
doubled q k = ap (λ (t : ℕ). q * t) (pow-suc 2 k) ∙ sym (mul_assoc q (2 ^ k) 2)

-- The low bit and the rest of `q << (k + 1)` with `r` below it.
module _ (q k r : ℕ) (fits : r < 2 ^ suc k) where
  half_fits : r / 2 < 2 ^ k
  half_fits = omega (arith, fits, pow-suc 2 k)

  high-halves : (q * 2 ^ suc k / 2 ≡ q * 2 ^ k) × (q * 2 ^ suc k % 2 ≡ 0)
  high-halves = (omega (arith, doubled q k), omega (arith, doubled q k))

  sum-halves : ((q * 2 ^ suc k + r) / 2 ≡ q * 2 ^ k + r / 2) × ((q * 2 ^ suc k + r) % 2 ≡ r % 2)
  sum-halves = (omega (arith, doubled q k), omega (arith, doubled q k))

  mask-halves : ((2 ^ suc k - 1) / 2 ≡ 2 ^ k - 1) × ((2 ^ suc k - 1) % 2 ≡ 1)
  mask-halves = (omega (arith, pow-suc 2 k, pow_pos k), omega (arith, pow-suc 2 k, pow_pos k))

-- `|` of fields that do not overlap is their sum.
pub bit_or_fields : (k q r : ℕ) → r < 2 ^ k → bit_or (q * 2 ^ k) r ≡ q * 2 ^ k + r
bit_or_fields zero q r fits =
    let none : r ≡ 0 = omega arith in rw none (or_nothing (q * 1) ∙ omega arith)
bit_or_fields (suc k) q r fits =
    let (high, low) = high-halves q k r fits in
    or_halves (q * 2 ^ suc k) r
    ∙ rw (high, low, bit_or_fields k q (r / 2) (half_fits q k r fits)) (omega (arith, doubled q k))

low_field : (k q r : ℕ) → r < 2 ^ k → bit_and (q * 2 ^ k + r) (2 ^ k - 1) ≡ r
low_field zero q r fits = and_nothing (q * 1 + r) ∙ omega arith
low_field (suc k) q r fits =
    let (high, low) = sum-halves q k r fits in
    let (ones, one) = mask-halves q k r fits in
    and_halves (q * 2 ^ suc k + r) (2 ^ suc k - 1)
    ∙ rw (high, low, ones, one, low_field k q (r / 2) (half_fits q k r fits)) (omega arith)

-- `&` with `k` low ones is the remainder by 2 ^ k.
pub bit_and_mask : (k x : ℕ) → bit_and x (2 ^ k - 1) ≡ x % 2 ^ k
bit_and_mask k x =
    ap (λ t. bit_and t (2 ^ k - 1)) (sym (div-add-mod' x (2 ^ k)))
    ∙ low_field k (x / 2 ^ k) (x % 2 ^ k) (mod-lt x (pow_pos k))
