-- ===== src/Params/New.antt =====
-- What `Params::new` accepts.
use requihash.Base.{ℕ, ◌+◌, ◌/◌, ◌%◌, ◌≤◌, ◌<◌, ◌≡◌, ◌↔◌, arith}
use requihash.Outcome.{ok}
use requihash.Params.{new}

pub record IsValid (n k : ℕ) : Type 0 where
  pub k_pos : 0 < k
  pub k_lt : k < n
  pub whole_bytes : n % 8 ≡ 0
  pub whole_rounds : n % (k + 1) ≡ 0
  pub n_le : n ≤ 512
  pub cbl_lo : 8 ≤ n / (k + 1)
  pub cbl_hi : n / (k + 1) ≤ 25

-- `Params::new` accepts exactly the parameters that meet all of its documented conditions.
pub new-iff_IsValid : (n k : ℕ) → (new n k ≡ ok (record { n = n; k = k })) ↔ IsValid n k
unfolding new
new-iff_IsValid n k = (λ h. ground arith, λ v. ground arith)
