-- ===== src/Audit/Merkle/Proofs.antt =====
-- Building, proving and verifying in audit/src/domain/merkle.rs fit together: no index panics, the
-- loops end, and the proof of every leaf is accepted.
use ussd_polyglot.Prelude.{
  ℕ, zero, suc, ◌+◌, ◌/◌, ◌≤◌, ◌<◌, ◌≡◌, refl, true, false, some, inl, inr, List, [], ◌∷◌, ◌++◌,
  ◌∙◌, append_assoc, arith, ltb, Bool-cases, ltb→le, length, length-append, get_elem?,
  get_elem?-append_right, get_elem?-append_left, get_elem?_lt, get_last?, get_last?-append_right,
  Bytes,
}
use ussd_polyglot.Audit.Merkle.{
  bytes_eq, root_of, build_merkle_tree, sibling_index, collect, merkle_proof, combine, fold_proof,
  verify_merkle_proof,
}
use ussd_polyglot.Audit.Merkle.Levels.{
  pair_up, length-pair_up, levels, top, levels_last, levels_more, top_last, top_more,
  pair_up_shrinks, grow-levels, parent_of,
}

-- Byte vectors are equal exactly when the comparison says so.
pub bytes_eq_refl : (a : Bytes) → bytes_eq a a ≡ true
unfolding bytes_eq
bytes_eq_refl [] = refl
bytes_eq_refl (a ∷ as') = ground (arith, bytes_eq_refl as')

pub bytes_eq_sound : (a b : Bytes) → bytes_eq a b ≡ true → a ≡ b
unfolding bytes_eq
bytes_eq_sound [] [] h = refl
bytes_eq_sound [] (b ∷ bs) h = cc
bytes_eq_sound (a ∷ as') [] h = cc
bytes_eq_sound (a ∷ as') (b ∷ bs) h = ground (arith, bytes_eq_sound as' bs)

module _ (sha256 : Bytes → Bytes) where
  pub length-levels :
      (fuel : ℕ) (level : List Bytes) → length level ≤ length (levels sha256 fuel level)
  length-levels zero level = omega arith
  length-levels (suc fuel) level = elim (Bool-cases (ltb 1 (length level))) [
    | inr last ↦ rw (levels_last sha256 fuel level last) (omega arith)
    | inl more ↦
        rw (levels_more sha256 fuel level more)
          (omega (arith, length-append level (levels sha256 fuel (pair_up sha256 level))))
  ]

  -- the last node of the vector is the topmost node of the levels
  get_last?-levels :
      (fuel : ℕ) (level : List Bytes)
      → length level ≤ fuel
      → 0 < length level
      → get_last? (levels sha256 fuel level) ≡ top sha256 fuel level
  get_last?-levels zero level h p = absurd (omega arith)
  get_last?-levels (suc fuel) [] h p = absurd (omega arith)
  get_last?-levels (suc fuel) (x ∷ []) h p = refl
  get_last?-levels (suc fuel) (x ∷ y ∷ level) h p =
      let level' = pair_up sha256 (x ∷ y ∷ level) in
      let more : ltb 1 (length (x ∷ y ∷ level)) ≡ true = ground arith in
      let (fits, some_left) = pair_up_shrinks sha256 fuel (x ∷ y ∷ level) more h in
      rw
        (
          levels_more sha256 fuel (x ∷ y ∷ level) more,
          top_more sha256 fuel (x ∷ y ∷ level) more,
          get_last?-append_right (x ∷ y ∷ level) (levels sha256 fuel level')
              (omega (arith, length-levels fuel level')),
        )
        (get_last?-levels fuel level' fits some_left)

  pub collect_last :
      (fuel : ℕ) (tree : List Bytes) (idx start len : ℕ)
      → ltb 1 len ≡ false
      → collect (suc fuel) tree idx start len ≡ some []
  unfolding collect
  collect_last fuel tree idx start len last = ground arith

  collect_more :
      (fuel : ℕ) (tree : List Bytes) (idx start len : ℕ) {s : Bytes} {rest : List Bytes}
      → ltb 1 len ≡ true
      → get_elem? tree (start + sibling_index idx len) ≡ some s
      → collect fuel tree (idx / 2) (start + len) ((len + 1) / 2) ≡ some rest
      → collect (suc fuel) tree idx start len ≡ some (s ∷ rest)
  unfolding collect
  collect_more fuel tree idx start len more here above = ground arith

  -- the step from a level inside the vector to the level above it
  pub collect_level :
      (fuel : ℕ) (level pre up : List Bytes) (idx : ℕ) {s : Bytes} {rest : List Bytes}
      → ltb 1 (length level) ≡ true
      → get_elem? level (sibling_index idx (length level)) ≡ some s
      → collect fuel
          ((pre ++ level) ++ up)
          (idx / 2)
          (length (pre ++ level))
          (length (pair_up sha256 level))
        ≡ some rest
      → collect (suc fuel) (pre ++ (level ++ up)) idx (length pre) (length level) ≡ some (s ∷ rest)
  collect_level fuel level pre up idx more here above =
      let in_level = get_elem?_lt level (sibling_index idx (length level)) here in
      collect_more fuel (pre ++ (level ++ up)) idx (length pre) (length level) more
        (get_elem?-append_right pre (level ++ up) (sibling_index idx (length level))
          ∙ (get_elem?-append_left level up (sibling_index idx (length level)) in_level ∙ here))
        (rw (append_assoc pre level up, length-append pre level, length-pair_up sha256 level) at
          above)

  fold_proof-cons :
      (x : Bytes) (idx : ℕ) (s : Bytes) (rest : List Bytes)
      → fold_proof sha256 x idx (s ∷ rest)
        ≡ fold_proof sha256 (combine sha256 idx x s) (idx / 2) rest
  unfolding fold_proof
  fold_proof-cons x idx s rest = refl

  fold_proof-nil : (x : Bytes) (idx : ℕ) → fold_proof sha256 x idx [] ≡ x
  unfolding fold_proof
  fold_proof-nil x idx = refl

  -- The proof collected for a node folds to the topmost node.
  collect-top :
      (fuel : ℕ) (level pre : List Bytes) (idx : ℕ) {x : Bytes}
      → length level ≤ fuel
      → get_elem? level idx ≡ some x
      → (proof : List Bytes) × (collect fuel
            (pre ++ levels sha256 fuel level)
            idx
            (length pre)
            (length level)
          ≡ some proof)
        × (top sha256 fuel level ≡ some (fold_proof sha256 x idx proof))
  collect-top zero level pre idx h e = absurd (omega (arith, get_elem?_lt level idx e))
  collect-top (suc fuel) level pre idx {x} h e = elim (Bool-cases (ltb 1 (length level))) [
    | inr last ↦
        let zero_idx : idx ≡ 0 = omega (arith, get_elem?_lt level idx e, ltb→le _ _ last) in
        (
          [],
          collect_last fuel _ idx (length pre) (length level) last,
          rw (top_last sha256 fuel level last, fold_proof-nil x idx) (rw zero_idx at e),
        )
    | inl more ↦
        let (s, here, above) = parent_of sha256 level idx e in
        let (fits, some_left) = pair_up_shrinks sha256 fuel level more h in
        let (rest, collected, folded) =
          collect-top fuel (pair_up sha256 level) (pre ++ level) (idx / 2) fits above in
        (
          s ∷ rest,
          rw (levels_more sha256 fuel level more) (
              collect_level fuel level pre (levels sha256 fuel (pair_up sha256 level)) idx more here
                collected),
          rw (top_more sha256 fuel level more, fold_proof-cons x idx s rest) folded,
        )
  ]

  pub build_merkle_tree_lem :
      (leaves : List Bytes)
      → 0 < length leaves
      → build_merkle_tree sha256 leaves
        ≡ some (
          root_of sha256 (levels sha256 (length leaves) leaves),
          levels sha256 (length leaves) leaves,
        )
  unfolding build_merkle_tree
  build_merkle_tree_lem [] h = absurd (omega arith)
  build_merkle_tree_lem (x ∷ xs) h =
      rw (grow-levels sha256 (length (x ∷ xs)) (x ∷ xs) [] (omega arith) h)

  pub merkle_proof_lem :
      (tree : List Bytes) (n i : ℕ)
      → 0 < length tree
      → 0 < n
      → merkle_proof tree n i ≡ collect n tree i 0 n
  unfolding merkle_proof
  merkle_proof_lem [] n i t h = absurd (omega arith)
  merkle_proof_lem (x ∷ tree) n i t h = ground arith

  root_of-some : (tree : List Bytes) {r : Bytes} → get_last? tree ≡ some r → root_of sha256 tree ≡ r
  unfolding root_of
  root_of-some tree e = ground arith

  pub root_of-levels :
      (leaves : List Bytes) {r : Bytes}
      → 0 < length leaves
      → top sha256 (length leaves) leaves ≡ some r
      → root_of sha256 (levels sha256 (length leaves) leaves) ≡ r
  root_of-levels leaves h e =
      root_of-some (levels sha256 (length leaves) leaves)
        (get_last?-levels (length leaves) leaves (omega arith) h ∙ e)

  -- For every list of leaves and every index of a leaf, the tree is built, the proof of that leaf
  -- is collected from the vector without an index out of range, and verifying the leaf at its
  -- index against the root accepts.
  pub verify_merkle_proof-merkle_proof :
      (leaves : List Bytes) (i : ℕ) {leaf : Bytes}
      → get_elem? leaves i ≡ some leaf
      → (root : Bytes) × (tree proof : List Bytes) × (build_merkle_tree sha256 leaves
          ≡ some (root, tree))
        × (merkle_proof tree (length leaves) i ≡ some proof)
        × (verify_merkle_proof sha256 leaf i proof root ≡ true)
  unfolding verify_merkle_proof
  verify_merkle_proof-merkle_proof leaves i {leaf} e =
      let n = length leaves in
      let tree = levels sha256 n leaves in
      let below : i < n = get_elem?_lt leaves i e in
      let (proof, collected, folded) = collect-top n leaves [] i (omega arith) e in
      let root_lem = root_of-levels leaves (omega arith) folded in
      (
        root_of sha256 tree,
        tree,
        proof,
        build_merkle_tree_lem leaves (omega arith),
        merkle_proof_lem tree n i (omega (arith, length-levels n leaves)) (omega arith) ∙ collected,
        rw root_lem (bytes_eq_refl (fold_proof sha256 leaf i proof)),
      )

  -- `build_merkle_tree` ends without a panic on every list of leaves, and its tree has a node for
  -- each leaf at least.
  pub length-build_merkle_tree :
      (leaves : List Bytes)
      → (root : Bytes) × (tree : List Bytes) × (build_merkle_tree sha256 leaves ≡ some (root, tree))
        × (length leaves ≤ length tree)
        × (0 < length tree)
  unfolding build_merkle_tree
  length-build_merkle_tree [] = (sha256 [], sha256 [] ∷ [], refl, omega arith, omega arith)
  length-build_merkle_tree (x ∷ xs) =
      let tree = levels sha256 (length (x ∷ xs)) (x ∷ xs) in
      let long = length-levels (length (x ∷ xs)) (x ∷ xs) in
      (
        root_of sha256 tree,
        tree,
        build_merkle_tree_lem (x ∷ xs) (omega arith),
        omega (arith, long),
        omega (arith, long),
      )
