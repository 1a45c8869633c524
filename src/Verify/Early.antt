-- ===== src/Verify/Early.antt =====
-- Req/rust/src/verify/early.rs: no index vectors; a node's indices are a slice of the input.
use requihash.Base.{ℕ, zero, suc, ◌+◌, ◌-◌, ◌*◌, ◌/◌, list_eq, list_lt, List, [], ◌++◌, length}
use requihash.Outcome.{Outcome, ok, panic, ◌>>=◌, ◌>>◌}
use requihash.Params.{Error, collision_failed, ordering_failed, collision_byte_length}
use requihash.Engine.{Requihash}
use requihash.Verify.{guard, check_indices, xor_bytes}
use requihash.Verify.Arena.{slice, flat_leaves, check_flat_root}

-- The `while a < nrows`, with `left` rows from `a` on; `span` leaves lie under a row. `x >= y` on
-- slices is `!(x < y)`.
unfoldable pub early_round : ℕ → ℕ → ℕ → ℕ → List ℕ → List ℕ → ℕ → ℕ → Outcome Error (List ℕ)
unfolding xor_bytes
early_round cbyte stride span round indices level a zero = ok []
early_round cbyte stride span round indices level a (suc zero) = panic
early_round cbyte stride span round indices level a (suc (suc left)) =
    let b = a + 1 in
    let lo = a * span in
    let mid = lo + span in
    let new_stride = stride - cbyte in
    let more = early_round cbyte stride span round indices level (a + 2) left in
    do
      guard (list_eq (slice level (a * stride) cbyte) (slice level (b * stride) cbyte))
          (collision_failed round)
      guard (list_lt (slice indices lo span) (slice indices mid span)) (ordering_failed round)
      next ← more
      ok (
          xor_bytes (slice level (a * stride + cbyte) new_stride)
            (slice level (b * stride + cbyte) new_stride)
          ++ next)

unfoldable pub early_rounds :
    ℕ → List ℕ → ℕ → ℕ → ℕ → ℕ → ℕ → List ℕ → Outcome Error (List ℕ × ℕ × ℕ)
early_rounds cbyte indices zero round stride span nrows level = ok (level, stride, nrows)
early_rounds cbyte indices (suc left) round stride span nrows level = do
  next ← early_round cbyte stride span round indices level 0 nrows
  early_rounds cbyte indices left (round + 1) (stride - cbyte) (span * 2) (nrows / 2) next

-- `EarlyRejectVerifier::verify`
unfoldable pub early_verify : Requihash → List ℕ → Outcome Error (Unit {0})
early_verify e indices =
    let cbyte = collision_byte_length e.p in
    do
      check_indices e indices
      (level, stride, nrows) ←
          early_rounds cbyte indices e.p.k 1 ((e.p.k + 1) * cbyte) 1 (length indices)
            (flat_leaves e indices)
      check_flat_root level stride nrows
