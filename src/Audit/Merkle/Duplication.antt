-- ===== src/Audit/Merkle/Duplication.antt =====
-- The tree of audit/src/domain/merkle.rs pairs the last node of a level of odd length with itself,
-- so the list with its last leaf written twice has the same root.
use ussd_polyglot.Prelude.{
  ℕ, zero, suc, ◌%◌, ◌≤◌, ◌<◌, ◌≡◌, refl, true, some, inl, inr, List, [], ◌∷◌, ◌++◌, ◌∙◌, arith,
  ltb, Bool-cases, lt→ltb, length, length-append, get_last?, Bytes,
}
use ussd_polyglot.Audit.Merkle.{build_merkle_tree}
use ussd_polyglot.Audit.Merkle.Levels.{pair_up, levels, top, top_last, top_more, pair_up_shrinks}
use ussd_polyglot.Audit.Merkle.Proofs.{build_merkle_tree_lem, root_of-levels}

module _ (sha256 : Bytes → Bytes) where
  -- more fuel than the number of nodes changes nothing
  pub top_fuel :
      (fuel more_fuel : ℕ) (level : List Bytes)
      → length level ≤ fuel
      → length level ≤ more_fuel
      → 0 < length level
      → top sha256 fuel level ≡ top sha256 more_fuel level
  top_fuel zero g level h k p = absurd (omega arith)
  top_fuel (suc f) zero level h k p = absurd (omega arith)
  top_fuel (suc f) (suc g) level h k p = elim (Bool-cases (ltb 1 (length level))) [
    | inr last ↦ rw (top_last sha256 f level last, top_last sha256 g level last)
    | inl more ↦
        let (fits, some_left) = pair_up_shrinks sha256 f level more h in
        let (fits', _) = pair_up_shrinks sha256 g level more k in
        rw (top_more sha256 f level more, top_more sha256 g level more)
          (top_fuel f g (pair_up sha256 level) fits fits' some_left)
  ]

  pub pair_up-duplicate :
      (level : List Bytes) {x : Bytes}
      → length level % 2 ≡ 1
      → get_last? level ≡ some x
      → pair_up sha256 (level ++ x ∷ []) ≡ pair_up sha256 level
  pair_up-duplicate [] odd last = absurd (omega arith)
  pair_up-duplicate (a ∷ []) odd last = cc
  pair_up-duplicate (a ∷ b ∷ []) odd last = absurd (omega arith)
  pair_up-duplicate (a ∷ b ∷ c ∷ level) odd last =
      cc (pair_up-duplicate (c ∷ level) (omega arith) last)

  top-some :
      (fuel : ℕ) (level : List Bytes)
      → length level ≤ fuel
      → 0 < length level
      → (r : Bytes) × (top sha256 fuel level ≡ some r)
  top-some zero level h p = absurd (omega arith)
  top-some (suc f) [] h p = absurd (omega arith)
  top-some (suc f) (x ∷ []) h p = (x, refl)
  top-some (suc f) (x ∷ y ∷ level) h p =
      let more : ltb 1 (length (x ∷ y ∷ level)) ≡ true = ground arith in
      let (fits, some_left) = pair_up_shrinks sha256 f (x ∷ y ∷ level) more h in
      let (r, e) = top-some f (pair_up sha256 (x ∷ y ∷ level)) fits some_left in
      (r, top_more sha256 f (x ∷ y ∷ level) more ∙ e)

  top-duplicate :
      (level : List Bytes) {x : Bytes}
      → length level % 2 ≡ 1
      → 1 < length level
      → get_last? level ≡ some x
      → top sha256 (length (level ++ x ∷ [])) (level ++ x ∷ []) ≡ top sha256 (length level) level
  top-duplicate level {x} odd h last =
      let n = length level in
      let longer : length (level ++ x ∷ []) ≡ suc n = omega (arith, length-append level (x ∷ [])) in
      rw
        (
          longer,
          top_more sha256 n (level ++ x ∷ []) (lt→ltb _ _ (omega arith)),
          pair_up-duplicate level odd last,
          ← (top_more sha256 n level (lt→ltb _ _ h)),
        )
        (top_fuel (suc n) n level (omega arith) (omega arith) (omega arith))

  -- For a list of leaves of odd length above one, appending its last leaf once more leaves the root
  -- as it was: both trees are built, and have one root.
  pub build_merkle_tree-duplicate :
      (leaves : List Bytes) {x : Bytes}
      → length leaves % 2 ≡ 1
      → 1 < length leaves
      → get_last? leaves ≡ some x
      → (root : Bytes) × (tree tree' : List Bytes) × (build_merkle_tree sha256 leaves
          ≡ some (root, tree))
        × (build_merkle_tree sha256 (leaves ++ x ∷ []) ≡ some (root, tree'))
  build_merkle_tree-duplicate leaves {x} odd h last =
      let doubled = leaves ++ x ∷ [] in
      let longer : length doubled ≡ suc (length leaves) =
        omega (arith, length-append leaves (x ∷ [])) in
      let (root, found) = top-some (length leaves) leaves (omega arith) (omega arith) in
      let found' = top-duplicate leaves odd h last ∙ found in
      (
        root,
        levels sha256 (length leaves) leaves,
        levels sha256 (length doubled) doubled,
        rw (
          build_merkle_tree_lem sha256 leaves (omega arith),
          root_of-levels sha256 leaves (omega arith) found,
        ),
        rw (
          build_merkle_tree_lem sha256 doubled (omega arith),
          root_of-levels sha256 doubled (omega arith) found',
        ),
      )
