-- ===== src/Rollup/Merkle.antt =====
-- The Merkle root and proof of src/rra/l3/batch_processor.py, over the Keccak function of eth_utils.
use rra_module.Prelude.{
  ℕ, zero, suc, ◌+◌, ◌-◌, ◌/◌, ◌%◌, Option, none, some, List, [], ◌∷◌, ◌++◌, if◌then◌else◌,
  same_number, length, get_elem?,
}
use rra_module.Rollup.Bytes.{Bytes, zeros}

-- `index ^ 1`
unfoldable pub sibling : ℕ → ℕ
sibling i = if same_number (i % 2) 0 then i + 1 else i - 1

abbrev pub cons_option : Option Bytes → List Bytes → List Bytes
cons_option none proof = proof
cons_option (some h) proof = h ∷ proof

module _ (keccak : Bytes → Bytes) where
  -- One round of the loop: neighbours are hashed together, and an odd last one moves up.
  unfoldable pub pair_up : List Bytes → List Bytes
  pair_up [] = []
  pair_up (a ∷ []) = a ∷ []
  pair_up (a ∷ b ∷ level) = keccak (a ++ b) ∷ pair_up level

  -- `while len(current_level) > 1`, on fuel.
  unfoldable pub climb_level : ℕ → List Bytes → List Bytes
  unfolding pair_up
  climb_level zero level = level
  climb_level (suc fuel) [] = []
  climb_level (suc fuel) (a ∷ []) = a ∷ []
  climb_level (suc fuel) (a ∷ b ∷ level) = climb_level fuel (pair_up (a ∷ b ∷ level))

  abbrev pub first : List Bytes → Bytes
  first [] = zeros 32
  first (a ∷ level) = a

  -- `_compute_merkle_root`; every round halves the level, so its length is fuel enough.
  unfoldable pub compute_merkle_root : List Bytes → Bytes
  unfolding climb_level zeros
  compute_merkle_root leaves = first (climb_level (length leaves) leaves)

  unfoldable pub collect_proof : ℕ → List Bytes → ℕ → List Bytes
  unfolding pair_up sibling
  collect_proof zero level index = []
  collect_proof (suc fuel) [] index = []
  collect_proof (suc fuel) (a ∷ []) index = []
  collect_proof (suc fuel) (a ∷ b ∷ level) index =
      cons_option (get_elem? (a ∷ b ∷ level) (sibling index))
        (collect_proof fuel (pair_up (a ∷ b ∷ level)) (index / 2))

  -- `_compute_merkle_proof`
  unfoldable pub compute_merkle_proof : List Bytes → ℕ → List Bytes
  unfolding collect_proof
  compute_merkle_proof leaves index = collect_proof (length leaves) leaves index
