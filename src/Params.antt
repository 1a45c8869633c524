-- ===== src/Params.antt =====
-- `Params` and `Error` of Req/rust/src/lib.rs: the constructor, the range of `n`, the sizes.
pub mod New
pub mod Gcd
pub mod Bounds
pub mod Listing
use requihash.Base.{
  ℕ, zero, suc, ◌+◌, ◌-◌, ◌*◌, ◌/◌, ◌%◌, ◌^◌, min, bit_and, Bool, not, ltb, leb, ◌==◌,
  if◌then◌else◌, Option, none, some, List, [], ◌∷◌, ◌++◌, replicate,
}
use requihash.Outcome.{Outcome, ok, err, panic}

pub data Reason : Type 0 where
  k_lt_n n_multiple_of_8 n_divisible k_zero n_over_512 cbl_under_8 cbl_over_25 : Reason

-- The messages of `BadParams` are `Reason`s.
pub data Error : Type 0 where
  bad_params : Reason → Error
  wrong_length : Error
  not_distinct : Error
  index_out_of_range : Error
  collision_failed : ℕ → Error
  ordering_failed : ℕ → Error
  non_zero_root : Error

pub record Params : Type 0 where
  pub n : ℕ
  pub k : ℕ

-- `Params::new`. The tests stand in the source's order; `k + 1` cannot wrap, since `k < n`.
pub new : ℕ → ℕ → Outcome Error Params
new n k =
    if leb n k
    then err (bad_params k_lt_n)
    else if not (n % 8 == 0)
    then err (bad_params n_multiple_of_8)
    else if not (n % (k + 1) == 0)
    then err (bad_params n_divisible)
    else if k == 0
    then err (bad_params k_zero)
    else if ltb 512 n
    then err (bad_params n_over_512)
    else if ltb (n / (k + 1)) 8
    then err (bad_params cbl_under_8)
    else if ltb 25 (n / (k + 1))
    then err (bad_params cbl_over_25)
    else ok (record { n = n; k = k })

-- A `u32` product or sum keeps its low 32 bits.
abbrev pub u32 : ℕ → ℕ
u32 x = x % 2 ^ 32

-- The `while` of `gcd`, on fuel: `b` falls in each round, so `b + 1` rounds are enough.
unfoldable pub gcd_loop : ℕ → ℕ → ℕ → ℕ
gcd_loop zero a b = a
gcd_loop (suc fuel) a b = let rest = gcd_loop fuel b (a % b) in if b == 0 then a else rest

unfoldable pub gcd : ℕ → ℕ → ℕ
unfolding gcd_loop
gcd a b = gcd_loop (suc b) a b

-- `8 / gcd(8, m) * m`
unfoldable pub lcm_8 : ℕ → ℕ
lcm_8 m = u32 (8 / gcd 8 m * m)

-- `a.div_ceil(b)`
abbrev pub div_ceil : ℕ → ℕ → ℕ
div_ceil a b = if a % b == 0 then a / b else a / b + 1

-- `Params::n_bounds`, with release-mode arithmetic. A step of 0 makes `div_ceil` divide by zero.
unfoldable pub n_bounds : ℕ → Outcome Error (Option (ℕ × ℕ))
n_bounds k =
    let m = u32 (k + 1) in
    let step = lcm_8 m in
    let lo = u32 (div_ceil (u32 (8 * m)) step * step) in
    let hi = min (u32 (25 * m)) 512 / step * step in
    if k == 0
    then ok none
    else if step == 0
    then panic
    else ok (if leb lo hi then some (lo, hi) else none)

-- `(lo..=hi).step_by(step)`, of which `count` values are left.
unfoldable pub step_by : ℕ → ℕ → ℕ → List ℕ
step_by lo step zero = []
step_by lo step (suc count) = lo ∷ step_by (lo + step) step count

-- The `match` of `Params::valid_n` on the range.
unfoldable pub list_range : ℕ → Outcome Error (Option (ℕ × ℕ)) → Outcome Error (List ℕ)
unfolding step_by
list_range step (ok none) = ok []
list_range step (ok (some (lo, hi))) = ok (step_by lo step ((hi - lo) / step + 1))
list_range step (err e) = err e
list_range step panic = panic

-- `Params::valid_n`
unfoldable pub valid_n : ℕ → Outcome Error (List ℕ)
unfolding list_range
valid_n k = list_range (lcm_8 (u32 (k + 1))) (n_bounds k)

pub collision_bit_length : Params → ℕ
collision_bit_length p = p.n / (p.k + 1)

pub collision_byte_length : Params → ℕ
unfolding collision_bit_length
collision_byte_length p = (collision_bit_length p + 7) / 8

unfoldable pub hash_output : Params → ℕ
hash_output p = 512 / p.n * (p.n / 8)

pub solution_width : Params → ℕ
unfolding collision_bit_length
solution_width p = 2 ^ p.k * (collision_bit_length p + 1) / 8

pub compact_width : Params → ℕ
unfolding collision_bit_length
compact_width p = 2 ^ p.k * collision_bit_length p / 8

-- `b"ReqPoW"`, four reserved zeros, `le32(n)`, `le16(k)`.
pub person : Params → List ℕ
person p =
    b'R'
    ∷ b'e'
    ∷ b'q'
    ∷ b'P'
    ∷ b'o'
    ∷ b'W'
    ∷ 0
    ∷ 0
    ∷ 0
    ∷ 0
    ∷ (p.n % 256)
    ∷ (p.n / 2 ^ 8 % 256)
    ∷ (p.n / 2 ^ 16 % 256)
    ∷ (p.n / 2 ^ 24 % 256)
    ∷ bit_and p.k 0xFF
    ∷ bit_and (p.k / 2 ^ 8) 0xFF
    ∷ []
