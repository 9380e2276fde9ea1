-- ===== src/Rollup/MerkleProof.antt =====
-- What the Merkle proofs of batch_processor.py prove.
use rra_module.Prelude.{
  ℕ, zero, suc, ◌+◌, ◌/◌, ◌%◌, ◌≤◌, ◌<◌, ◌≡◌, refl, ◌∙◌, ap, inl, inr, true, false, Option, none,
  some, List, [], ◌∷◌, ◌++◌, arith, ltb, leb, if◌then◌else◌, same_number, length, get_elem?,
  get_elem?-lt, le-get_elem?-none, Option-cases,
}
use rra_module.Rollup.Bytes.{Bytes}
use rra_module.Rollup.Merkle.{
  sibling, cons_option, pair_up, climb_level, first, compute_merkle_root, collect_proof,
  compute_merkle_proof,
}

module _ (keccak : Bytes → Bytes) where
  unfoldable pub join : ℕ → Bytes → Bytes → Bytes
  join i node other =
      if same_number (i % 2) 0 then keccak (node ++ other) else keccak (other ++ node)

  -- What a verifier does who knows a leaf, its index and the number of leaves: on each level it
  -- hashes its node with the next node of the proof, on the side that the index says, unless its
  -- node stands last and alone. It accepts the node that it ends with if the proof is used up.
  unfoldable pub recompute : ℕ → ℕ → ℕ → Bytes → List Bytes → Option Bytes
  unfolding sibling join
  recompute zero size i node proof = none
  recompute (suc fuel) size i node proof = elim (leb size 1) [
    | true ↦ elim proof [ [] ↦ some node | p ∷ rest ↦ none ]
    | false ↦ elim (ltb (sibling i) size) [
      | false ↦ recompute fuel ((size + 1) / 2) (i / 2) node proof
      | true ↦ elim proof [
        | [] ↦ none
        | other ∷ rest ↦ recompute fuel ((size + 1) / 2) (i / 2) (join i node other) rest
      ]
    ]
  ]

  sibling-shift : (i : ℕ) → sibling (suc (suc i)) ≡ suc (suc (sibling i))
  unfolding sibling
  sibling-shift i = ground arith

  join-shift : (i : ℕ) (node other : Bytes) → join (suc (suc i)) node other ≡ join i node other
  unfolding join
  join-shift i node other = ground arith

  length-pair_up : (level : List Bytes) → length (pair_up keccak level) ≡ (length level + 1) / 2
  unfolding pair_up
  length-pair_up [] = refl
  length-pair_up (a ∷ []) = refl
  length-pair_up (a ∷ b ∷ level) = omega (arith, length-pair_up level)

  -- What the loop puts above a node.
  unfoldable pub parent : List Bytes → ℕ → Bytes → Bytes
  unfolding sibling join
  parent level i node = elim (get_elem? level (sibling i)) [
    | none ↦ node
    | some other ↦ join i node other
  ]

  parent-shift :
      (a b : Bytes) (level : List Bytes) (i : ℕ) (node : Bytes)
      → parent (a ∷ b ∷ level) (suc (suc i)) node ≡ parent level i node
  unfolding parent
  parent-shift a b level i node = elim (Option-cases (get_elem? level (sibling i))) [
    | inl alone ↦ ground (arith, sibling-shift i, alone)
    | inr (other, beside) ↦ ground (arith, sibling-shift i, beside, join-shift i node other)
  ]

  pair_up-parent :
      (i : ℕ) (level : List Bytes) {node : Bytes}
      → get_elem? level i ≡ some node
      → get_elem? (pair_up keccak level) (i / 2) ≡ some (parent level i node)
  unfolding pair_up
  pair_up-parent i [] h = cc
  pair_up-parent zero (a ∷ []) h = unfold parent sibling in ground arith
  pair_up-parent (suc i) (a ∷ []) h = cc
  pair_up-parent zero (a ∷ b ∷ level) h = unfold parent sibling join in ground arith
  pair_up-parent (suc zero) (a ∷ b ∷ level) h = unfold parent sibling join in ground arith
  pair_up-parent (suc (suc i)) (a ∷ b ∷ level) {node} h =
      let half : suc (suc i) / 2 ≡ suc (i / 2) = omega arith in
      rw (half, parent-shift a b level i node) (pair_up-parent i level h)

  recompute-alone :
      (fuel size i : ℕ) (node : Bytes) (proof : List Bytes)
      → 2 ≤ size
      → size ≤ sibling i
      → recompute (suc fuel) size i node proof ≡ recompute fuel ((size + 1) / 2) (i / 2) node proof
  unfolding recompute
  recompute-alone fuel size i node proof more last = ground arith

  recompute-beside :
      (fuel size i : ℕ) (node other : Bytes) (proof : List Bytes)
      → 2 ≤ size
      → sibling i < size
      → recompute (suc fuel) size i node (other ∷ proof)
        ≡ recompute fuel ((size + 1) / 2) (i / 2) (join i node other) proof
  unfolding recompute
  recompute-beside fuel size i node other proof more inside = ground arith

  -- With fuel enough the proof of a node leads to the top of the climb.
  recompute-collect :
      (fuel : ℕ) (level : List Bytes) (i : ℕ) {node : Bytes}
      → length level ≤ fuel
      → get_elem? level i ≡ some node
      → recompute fuel (length level) i node (collect_proof keccak fuel level i)
        ≡ some (first keccak (climb_level keccak fuel level))
  unfolding recompute collect_proof climb_level
  recompute-collect zero level i fits h = absurd (omega (arith, get_elem?-lt level i h))
  recompute-collect (suc fuel) [] i fits h = cc
  recompute-collect (suc fuel) (a ∷ []) zero fits h = ground arith
  recompute-collect (suc fuel) (a ∷ []) (suc i) fits h = cc
  recompute-collect (suc fuel) (a ∷ b ∷ rest) i {node} fits h =
      let level = a ∷ b ∷ rest in
      let above = pair_up-parent i level h in
      let size = length-pair_up level in
      let above_proof = collect_proof keccak fuel (pair_up keccak level) (i / 2) in
      let ih : recompute fuel (length (pair_up keccak level)) (i / 2) (parent level i node)
            (collect_proof keccak fuel (pair_up keccak level) (i / 2))
          ≡ some (first keccak (climb_level keccak fuel (pair_up keccak level))) =
        recompute-collect fuel (pair_up keccak level) (i / 2) (omega (arith, size)) above in
      elim (Option-cases (get_elem? level (sibling i))) [
        | inl alone ↦
            let same : parent level i node ≡ node = unfold parent in (ground (arith, alone)) in
            ap (λ o. recompute (suc fuel) (length level) i node (cons_option o above_proof)) alone
            ∙ recompute-alone fuel (length level) i node above_proof (omega arith)
                (le-get_elem?-none level (sibling i) alone)
            ∙ (rw (size, same) at ih)
        | inr (other, beside) ↦
            let joined : parent level i node ≡ join i node other =
              unfold parent in (ground (arith, beside)) in
            ap (λ o. recompute (suc fuel) (length level) i node (cons_option o above_proof)) beside
            ∙ recompute-beside fuel (length level) i node other above_proof (omega arith)
                (get_elem?-lt level (sibling i) beside)
            ∙ (rw (size, joined) at ih)
      ]

  -- The proof of every leaf leads a verifier to the root: hashing up from the leaf at its index with
  -- the proof that `_compute_merkle_proof` gives ends, with no node left over, at the root that
  -- `_compute_merkle_root` gives for the leaves.
  pub compute_merkle_proof-root :
      (leaves : List Bytes) (i : ℕ) {leaf : Bytes}
      → get_elem? leaves i ≡ some leaf
      → recompute (length leaves) (length leaves) i leaf (compute_merkle_proof keccak leaves i)
        ≡ some (compute_merkle_root keccak leaves)
  unfolding compute_merkle_proof compute_merkle_root
  compute_merkle_proof-root leaves i h = recompute-collect (length leaves) leaves i (omega arith) h
