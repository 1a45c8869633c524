-- ===== src/Engine/Message.antt =====
-- The message that a leaf's digest is of: Req/rust/src/lib.rs hashes it in four pieces.
use requihash.Base.{ℕ, ◌/◌, ◌%◌, ◌≤◌, ◌≡◌, refl, sym, ap, ◌∙◌, List, ◌++◌, take, arith}
use requihash.Params.{Params, collision_bit_length, hash_output, person}
use requihash.Blake2b.{State, init, update, finalize}
use requihash.Blake2b.Streaming.{buflen-update, update-append}
use requihash.Packing.{expand_array_into}
use requihash.Engine.{new, le_bytes, leaf_row_into}

pub init-room : (outlen : ℕ) (person : List ℕ) → (init outlen person).buflen ≡ 0
unfolding init
init-room outlen person = refl

three_updates :
    (s : State) (a b c d : List ℕ)
    → s.buflen ≤ 128
    → update (update (update (update s a) b) c) d ≡ update s (a ++ (b ++ (c ++ d)))
three_updates s a b c d h =
    let ha = buflen-update s a h in
    let hb = buflen-update (update s a) b ha in
    sym (update-append (update (update s a) b) c d hb)
    ∙ sym (update-append (update s a) b (c ++ d) ha)
    ∙ sym (update-append s a (b ++ (c ++ d)) h)

-- A leaf's row is expanded from the digest of one message: the input, the nonce, the leaf's list
-- class and its counter in that list, under the parameters' personalization.
pub leaf_row_into-message :
    (p : Params) (input nonce : List ℕ) (leaf : ℕ) (out : List ℕ)
    → leaf_row_into (new p input nonce) leaf out
      ≡ expand_array_into
          (take (p.n / 8) (
            finalize (
              update
                (init (hash_output p) (person p))
                (input ++ (nonce ++ (le_bytes (leaf % p.k) ++ le_bytes (leaf / p.k)))))))
          out
          (collision_bit_length p)
          0
unfolding new leaf_row_into
leaf_row_into-message p input nonce leaf out =
    let s = init (hash_output p) (person p) in
    ap
      (λ (t : State).
        expand_array_into (take (p.n / 8) (finalize t)) out (collision_bit_length p) 0)
      (three_updates s input nonce (le_bytes (leaf % p.k)) (le_bytes (leaf / p.k))
        (rw (init-room (hash_output p) (person p)) (omega arith)))
