-- ===== src/Audit/Merkle.antt =====
-- rust-engine/audit/src/domain/merkle.rs: the Merkle tree over a day's record hashes, stored level
-- by level in one vector, the proof of a leaf and its verification.
--
-- `sha256` is the `sha2` crate's, so it is a parameter. An index out of range panics in the source
-- and is `none` here. The loops `while level_len > 1` take fuel; Levels shows that the number of
-- leaves is enough.
pub mod Levels
pub mod Proofs
pub mod Binding
pub mod Duplication
use ussd_polyglot.Prelude.{
  ℕ, zero, suc, ◌+◌, ◌-◌, ◌/◌, ◌%◌, Bool, true, false, Option, none, some, List, [], ◌∷◌, ◌++◌, ltb,
  ◌==◌, if◌then◌else◌, ◌>>=◌, length, get_elem?, get_last?, Bytes,
}

-- `current == expected_root` on byte vectors
unfoldable pub bytes_eq : Bytes → Bytes → Bool
bytes_eq [] [] = true
bytes_eq [] (b ∷ bs) = false
bytes_eq (a ∷ as') [] = false
bytes_eq (a ∷ as') (b ∷ bs) = if a == b then bytes_eq as' bs else false

-- the number of rounds of `for i in (0..level_len).step_by(2)`
abbrev pub rounds_of : ℕ → ℕ
rounds_of level_len = (level_len + 1) / 2

module _ (sha256 : Bytes → Bytes) where
  -- One pass of `for i in (0..level_len).step_by(2)`, with the rounds left: the hashes of the
  -- pairs of the level that starts at `level_start`, its last node paired with itself if need be.
  unfoldable pub next_level : ℕ → List Bytes → ℕ → ℕ → ℕ → Option (List Bytes)
  next_level zero tree level_start level_len i = some []
  next_level (suc rounds) tree level_start level_len i = do
    left ← get_elem? tree (level_start + i)
    right ← if ltb (i + 1) level_len then get_elem? tree (level_start + i + 1) else some left
    rest ← next_level rounds tree level_start level_len (i + 2)
    some (sha256 (left ++ right) ∷ rest)

  -- `while level_len > 1`
  unfoldable pub grow : ℕ → List Bytes → ℕ → ℕ → Option (List Bytes)
  unfolding next_level
  grow zero tree level_start level_len = none
  grow (suc fuel) tree level_start level_len = elim (ltb 1 level_len) [
    | false ↦ some tree
    | true ↦ do
      next ← next_level (rounds_of level_len) tree level_start level_len 0
      grow fuel (tree ++ next) (level_start + level_len) (length next)
  ]

  -- `tree.last().cloned().unwrap_or_else(|| sha256(b""))`
  unfoldable pub root_of : List Bytes → Bytes
  root_of tree = elim (get_last? tree) [ some root ↦ root | none ↦ sha256 [] ]

  -- `build_merkle_tree`: the root and the tree
  unfoldable pub build_merkle_tree : List Bytes → Option (Bytes × List Bytes)
  unfolding grow root_of
  build_merkle_tree [] = some (sha256 [], sha256 [] ∷ [])
  build_merkle_tree (leaf ∷ leaves) = do
    tree ← grow (suc (length leaves)) (leaf ∷ leaves) 0 (suc (length leaves))
    some (root_of tree, tree)

  -- the body of `verify_merkle_proof`'s loop: the parent of `current` on the way up
  unfoldable pub combine : ℕ → Bytes → Bytes → Bytes
  combine idx current sibling =
      if idx % 2 == 0 then sha256 (current ++ sibling) else sha256 (sibling ++ current)

  unfoldable pub fold_proof : Bytes → ℕ → List Bytes → Bytes
  unfolding combine
  fold_proof current idx [] = current
  fold_proof current idx (sibling ∷ proof) =
      fold_proof (combine idx current sibling) (idx / 2) proof

  unfoldable pub verify_merkle_proof : Bytes → ℕ → List Bytes → Bytes → Bool
  unfolding fold_proof bytes_eq
  verify_merkle_proof leaf_hash leaf_index proof_hashes expected_root =
      bytes_eq (fold_proof leaf_hash leaf_index proof_hashes) expected_root

-- the sibling's place in the level, the last node being its own sibling in a level of odd length
unfoldable pub sibling_index : ℕ → ℕ → ℕ
sibling_index idx level_len =
    if idx % 2 == 0 then (if ltb (idx + 1) level_len then idx + 1 else idx) else idx - 1

-- `while level_len > 1` of `merkle_proof`; the outer `none` is a panic or fuel that ran out
unfoldable pub collect : ℕ → List Bytes → ℕ → ℕ → ℕ → Option (List Bytes)
unfolding sibling_index
collect zero tree idx level_start level_len = none
collect (suc fuel) tree idx level_start level_len = elim (ltb 1 level_len) [
  | false ↦ some []
  | true ↦ do
    sibling ← get_elem? tree (level_start + sibling_index idx level_len)
    rest ← collect fuel tree (idx / 2) (level_start + level_len) ((level_len + 1) / 2)
    some (sibling ∷ rest)
]

unfoldable pub merkle_proof : List Bytes → ℕ → ℕ → Option (List Bytes)
unfolding collect
merkle_proof [] leaf_count leaf_index = some []
merkle_proof (node ∷ tree) leaf_count leaf_index =
    if leaf_count == 0 then some [] else collect leaf_count (node ∷ tree) leaf_index 0 leaf_count
