-- ===== src/Tromp/Rounds.antt =====
-- The rounds: none panics, and each keeps the solver well formed.
use requihash.Base.{
  ℕ, zero, suc, ◌+◌, ◌-◌, ◌/◌, ◌%◌, ◌≤◌, ◌<◌, ◌≡◌, refl, ◌∙◌, inl, inr, Bool, true, false, ◌==◌,
  ==_iff, Bool-cases, if◌then◌else◌, List, length, All, arith,
}
use requihash.Outcome.{ok, Returns, Returns-bind}
use requihash.Indexing.{read-All, write-All}
use requihash.Tromp.{
  wk, nbuckets, new_layout, new_collisions, tree_from_bid, store_xor, candidate, check_pair, Equi,
  new, digitodd, digiteven, digit_k, digit_rounds,
}
use requihash.Tromp.Attributes.{tree_round_trip}
use requihash.Tromp.Digits.{
  IsDigit, new_layout-LayoutFits, new_digit-IsDigit, htlayout_equal_total, store_xor-IsDigit,
}
use requihash.Tromp.Passes.{Keeps, new_collisions-IsCollisions, bucket_pass-Keeps}
use requihash.Tromp.Indices.{IsFound, candidate-Outcomes}

-- A solver between two rounds.
pub record IsEqui (eq : Equi) : Type 0 where
  pub good0 : All IsDigit eq.trees0
  pub good1 : All IsDigit eq.trees1
  pub three : length eq.trees0 ≡ 3
  pub two : length eq.trees1 ≡ 2
  pub found : IsFound eq.found

pub new-IsEqui : (input nonce : List ℕ) → IsEqui (new input nonce)
unfolding new
new-IsEqui input nonce = record {
  good0 = (new_digit-IsDigit, (new_digit-IsDigit, (new_digit-IsDigit, tt)));
  good1 = (new_digit-IsDigit, (new_digit-IsDigit, tt));
  three = refl;
  two = refl;
  found = record { kept = refl; vectors = tt };
}

-- What a round stores in its table is well formed.
store_xor-Keeps :
    (r : ℕ)
    → 1 ≤ r
    → r ≤ 5
    → (bucketid : ℕ) → bucketid < nbuckets
    → Keeps IsDigit (store_xor (new_layout r) bucketid)
store_xor-Keeps r lo hi bucketid hb s0 s1 p0 p1 dst lt h1 g0 g1 d =
    store_xor-IsDigit (new_layout r) bucketid s0 s1 p0 p1 dst (new_layout-LayoutFits r lo hi) hb
      (omega arith) h1 g0 g1 d

-- An odd and an even round do not panic and keep the solver well formed.
digitodd-IsEqui :
    (r : ℕ) (eq : Equi) → 1 ≤ r → r ≤ 4 → r % 2 ≡ 1 → IsEqui eq → Returns IsEqui (digitodd r eq)
unfolding digitodd
digitodd-IsEqui r eq lo hi odd g =
    let three = g.three in
    let two = g.two in
    let (src, es, ds) =
      read-All {E = Unit {0}} IsDigit eq.trees0 ((r - 1) / 2) g.good0 (omega arith) in
    let (dst, ed, dd) = read-All {E = Unit {0}} IsDigit eq.trees1 (r / 2) g.good1 (omega arith) in
    let (done, ep, (d0, d1)) =
      bucket_pass-Keeps IsDigit (store_xor (new_layout r)) (store_xor-Keeps r lo (omega arith))
        (new_layout r) (new_layout-LayoutFits r lo (omega arith)) 0 nbuckets 0 new_collisions src
        dst (omega arith) new_collisions-IsCollisions ds dd in
    let (trees0, e0, (l0, a0)) =
      write-All {E = Unit {0}} IsDigit eq.trees0 ((r - 1) / 2) (done.0) g.good0 d0 (omega arith) in
    let (trees1, e1, (l1, a1)) =
      write-All {E = Unit {0}} IsDigit eq.trees1 (r / 2) (done.1) g.good1 d1 (omega arith) in
    (
      record eq { trees0 = trees0; trees1 = trees1 },
      rw (es, ed, ep, e0, e1),
      record { good0 = a0; good1 = a1; three = l0 ∙ three; two = l1 ∙ two; found = g.found },
    )

digiteven-IsEqui : (r : ℕ) (eq : Equi) → 1 ≤ r → r ≤ 4 → IsEqui eq → Returns IsEqui (digiteven r eq)
unfolding digiteven
digiteven-IsEqui r eq lo hi g =
    let three = g.three in
    let two = g.two in
    let (src, es, ds) =
      read-All {E = Unit {0}} IsDigit eq.trees1 ((r - 1) / 2) g.good1 (omega arith) in
    let (dst, ed, dd) = read-All {E = Unit {0}} IsDigit eq.trees0 (r / 2) g.good0 (omega arith) in
    let (done, ep, (d0, d1)) =
      bucket_pass-Keeps IsDigit (store_xor (new_layout r)) (store_xor-Keeps r lo (omega arith))
        (new_layout r) (new_layout-LayoutFits r lo (omega arith)) 0 nbuckets 0 new_collisions src
        dst (omega arith) new_collisions-IsCollisions ds dd in
    let (trees1, e1, (l1, a1)) =
      write-All {E = Unit {0}} IsDigit eq.trees1 ((r - 1) / 2) (done.0) g.good1 d0 (omega arith) in
    let (trees0, e0, (l0, a0)) =
      write-All {E = Unit {0}} IsDigit eq.trees0 (r / 2) (done.1) g.good0 d1 (omega arith) in
    (
      record eq { trees0 = trees0; trees1 = trees1 },
      rw (es, ed, ep, e1, e0),
      record { good0 = a0; good1 = a1; three = l0 ∙ three; two = l1 ∙ two; found = g.found },
    )

pub digit_rounds-IsEqui :
    (r left : ℕ) (eq : Equi)
    → 1 ≤ r
    → r + left ≤ 5
    → IsEqui eq
    → Returns IsEqui (digit_rounds r left eq)
unfolding digit_rounds
digit_rounds-IsEqui r zero eq lo hi g = (eq, refl, g)
digit_rounds-IsEqui r (suc left) eq lo hi g =
    Returns-bind _ (digit_rounds (r + 1) left) step
      (λ next h. digit_rounds-IsEqui (r + 1) left next (omega arith) (omega arith) h)
  where
    step : Returns IsEqui (if r % 2 == 1 then digitodd r eq else digiteven r eq)
    step = elim (Bool-cases (r % 2 == 1)) [
      | inl e ↦ rw e (digitodd-IsEqui r eq lo (omega arith) ((==_iff _ 1).0 e) g)
      | inr e ↦ rw e (digiteven-IsEqui r eq lo (omega arith) g)
    ]

check_pair-Keeps :
    (eq : Equi)
    → IsEqui eq
    → (bucketid : ℕ) → bucketid < nbuckets
    → Keeps IsFound (check_pair eq.trees0 eq.trees1 (new_layout wk) bucketid)
unfolding check_pair
check_pair-Keeps eq g bucketid hb s0 s1 p0 p1 st lt h1 g0 g1 f =
    let fits = new_layout-LayoutFits wk (omega arith) (omega arith) in
    let (same, es) = htlayout_equal_total (new_layout wk) p0 p1 fits g0 g1 in rw es (choose same)
  where
    choose :
        (same : Bool)
        → Returns IsFound (
            if same then candidate eq.trees0 eq.trees1 (tree_from_bid bucketid s0 s1) st else ok st)
    choose true =
        let (prf, unfolded, v, (next, e, (found, outcomes))) =
          candidate-Outcomes eq.trees0 eq.trees1 (tree_from_bid bucketid s0 s1) st g.good0 g.good1
            g.three g.two (tree_round_trip bucketid s0 s1 hb (omega arith) h1).0 f in
        (next, e, found)
    choose false = (st, refl, f)

pub digit_k-IsEqui : (eq : Equi) → IsEqui eq → Returns IsEqui (digit_k eq)
unfolding digit_k
digit_k-IsEqui eq g =
    let three = g.three in
    let (src, es, ds) = read-All {E = Unit {0}} IsDigit eq.trees0 2 g.good0 (omega arith) in
    let (done, ep, (d0, f)) =
      bucket_pass-Keeps IsFound (check_pair eq.trees0 eq.trees1 (new_layout wk))
        (check_pair-Keeps eq g) (new_layout wk)
        (new_layout-LayoutFits wk (omega arith) (omega arith)) 0 nbuckets 0 new_collisions src
        eq.found (omega arith) new_collisions-IsCollisions ds g.found in
    let (trees0, e0, (l0, a0)) =
      write-All {E = Unit {0}} IsDigit eq.trees0 2 (done.0) g.good0 d0 (omega arith) in
    (
      record eq { trees0 = trees0; found = done.1 },
      rw (es, ep, e0),
      record { good0 = a0; good1 = g.good1; three = l0 ∙ three; two = g.two; found = f },
    )
