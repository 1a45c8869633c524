-- ===== src/Engine.antt =====
-- `Requihash` of Req/rust/src/lib.rs: the engine and the rows of its leaves.
pub mod Keying
pub mod Message
use requihash.Base.{ℕ, suc, ◌+◌, ◌*◌, ◌/◌, ◌%◌, ◌^◌, List, [], ◌∷◌, take, replicate}
use requihash.Params.{Params, collision_bit_length, collision_byte_length, hash_output, person}
use requihash.Blake2b.{State, init, update, finalize}
use requihash.Packing.{expand_array_into}

pub record Requihash : Type 0 where
  pub p : Params
  pub base : State

-- `Requihash::new`: the state after the personalization, the input and the nonce.
unfoldable pub new : Params → List ℕ → List ℕ → Requihash
new p input nonce = record {
  p = p;
  base = update (update (init (hash_output p) (person p)) input) nonce;
}

-- `x.to_le_bytes()` of a `u32`
unfoldable pub le_bytes : ℕ → List ℕ
le_bytes x = (x % 256) ∷ (x / 2 ^ 8 % 256) ∷ (x / 2 ^ 16 % 256) ∷ (x / 2 ^ 24 % 256) ∷ []

-- `leaf_row_into`: the leaf's digest, keyed by (leaf mod k, leaf / k), expanded into `out`.
unfoldable pub leaf_row_into : Requihash → ℕ → List ℕ → List ℕ
unfolding le_bytes
leaf_row_into e leaf out =
    let listclass = leaf % e.p.k in
    let counter = leaf / e.p.k in
    let digest = finalize (update (update e.base (le_bytes listclass)) (le_bytes counter)) in
    expand_array_into (take (e.p.n / 8) digest) out (collision_bit_length e.p) 0

pub leaf_row : Requihash → ℕ → List ℕ
unfolding leaf_row_into
leaf_row e leaf = leaf_row_into e leaf (replicate ((e.p.k + 1) * collision_byte_length e.p) 0)
