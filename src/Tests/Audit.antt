-- ===== src/Tests/Audit.antt =====
-- Runs of the Merkle tree over three and four leaves.
use ussd_polyglot.Prelude.{◌≡◌, refl, ◌⊎◌, true, some, List, [], ◌∷◌, ◌++◌, Bytes, arith}
use ussd_polyglot.Audit.Merkle.{build_merkle_tree, fold_proof, verify_merkle_proof, merkle_proof}
use ussd_polyglot.Audit.Merkle.Proofs.{verify_merkle_proof-merkle_proof}
use ussd_polyglot.Audit.Merkle.Binding.{Collision, verify_merkle_proof_binding}
use ussd_polyglot.Audit.Merkle.Duplication.{build_merkle_tree-duplicate}
use ussd_polyglot.Tests.Common.{toy_sha256}

abbrev leaves : List Bytes
leaves = (1 ∷ 2 ∷ []) ∷ (3 ∷ []) ∷ (4 ∷ []) ∷ []

abbrev last_leaf : Bytes
last_leaf = 4 ∷ []

verify_merkle_proof-merkle_proof_example :
    (root : Bytes) × (tree proof : List Bytes) × (build_merkle_tree toy_sha256 leaves
      ≡ some (root, tree))
    × (merkle_proof tree 3 2 ≡ some proof)
    × (verify_merkle_proof toy_sha256 (4 ∷ []) 2 proof root ≡ true)
verify_merkle_proof-merkle_proof_example =
    verify_merkle_proof-merkle_proof toy_sha256 leaves 2 {leaf = 4 ∷ []} refl

verify_merkle_proof_binding_example : (last_leaf ≡ last_leaf) ⊎ Collision toy_sha256
verify_merkle_proof_binding_example =
    verify_merkle_proof_binding toy_sha256 1 (λ b. refl) 2 (4 ∷ []) (4 ∷ [])
      (fold_proof toy_sha256 (4 ∷ []) 2 ((4 ∷ []) ∷ (5 ∷ []) ∷ [])) ((4 ∷ []) ∷ (5 ∷ []) ∷ [])
      ((4 ∷ []) ∷ (5 ∷ []) ∷ []) refl refl (refl, (refl, tt)) (refl, (refl, tt)) refl
      (unfold verify_merkle_proof in refl) (unfold verify_merkle_proof in refl)

build_merkle_tree-duplicate_example :
    (root : Bytes) × (tree tree' : List Bytes) × (build_merkle_tree toy_sha256 leaves
      ≡ some (root, tree))
    × (build_merkle_tree toy_sha256 (leaves ++ (4 ∷ []) ∷ []) ≡ some (root, tree'))
build_merkle_tree-duplicate_example =
    build_merkle_tree-duplicate toy_sha256 leaves {x = 4 ∷ []} refl (ground arith) refl
