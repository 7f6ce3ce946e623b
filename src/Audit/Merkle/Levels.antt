-- ===== src/Audit/Merkle/Levels.antt =====
-- The tree of audit/src/domain/merkle.rs level by level: `pair_up` describes one level from the
-- level below, and the loops over the flat vector compute it.
use ussd_polyglot.Prelude.{
  ℕ, zero, suc, ◌+◌, ◌/◌, ◌≤◌, ◌<◌, ◌≡◌, refl, true, false, Option, some, inl, inr, List, [], ◌∷◌,
  ◌++◌, append_assoc, arith, ltb, Bool-cases, ltb→lt, length, length-append, get_elem?,
  get_elem?-append_at, Bytes,
}
use ussd_polyglot.Audit.Merkle.{rounds_of, next_level, grow, sibling_index, combine}

module _ (sha256 : Bytes → Bytes) where
  -- the level above a level, by recursion on its pairs
  abbrev pub pair_up : List Bytes → List Bytes
  pair_up [] = []
  pair_up (x ∷ []) = sha256 (x ++ x) ∷ []
  pair_up (x ∷ y ∷ level) = sha256 (x ++ y) ∷ pair_up level

  pub length-pair_up : (level : List Bytes) → length (pair_up level) ≡ (length level + 1) / 2
  length-pair_up [] = refl
  length-pair_up (x ∷ []) = refl
  length-pair_up (x ∷ y ∷ level) = omega (arith, length-pair_up level)

  pub next_level-pair_up :
      (level pre : List Bytes) (rounds start len i : ℕ)
      → rounds ≡ (length level + 1) / 2
      → start + i ≡ length pre
      → len ≡ i + length level
      → next_level sha256 rounds (pre ++ level) start len i ≡ some (pair_up level)
  unfolding next_level
  next_level-pair_up [] pre zero start len i r s l = refl
  next_level-pair_up [] pre (suc rounds) start len i r s l = absurd (omega arith)
  next_level-pair_up (x ∷ []) pre zero start len i r s l = absurd (omega arith)
  next_level-pair_up (x ∷ []) pre (suc zero) start len i r s l =
      ground (arith, get_elem?-append_at pre (x ∷ []) 0 (start + i))
  next_level-pair_up (x ∷ []) pre (suc (suc rounds)) start len i r s l = absurd (omega arith)
  next_level-pair_up (x ∷ y ∷ level) pre zero start len i r s l = absurd (omega arith)
  next_level-pair_up (x ∷ y ∷ level) pre (suc rounds) start len i r s l =
      let above : next_level sha256 rounds (pre ++ x ∷ y ∷ level) start len (i + 2)
          ≡ some (pair_up level) =
        rw (append_assoc pre (x ∷ y ∷ []) level) at (
          next_level-pair_up level (pre ++ x ∷ y ∷ []) rounds start len (i + 2) (omega arith)
            (omega (arith, length-append pre (x ∷ y ∷ []))) (omega arith)) in
      ground (
        arith,
        above,
        get_elem?-append_at pre (x ∷ y ∷ level) 0 (start + i),
        get_elem?-append_at pre (x ∷ y ∷ level) 1 (start + i + 1),
      )

  -- the whole vector from a level up, and the topmost node
  abbrev pub levels : ℕ → List Bytes → List Bytes
  levels zero level = level
  levels (suc fuel) level = elim (ltb 1 (length level)) [
    | false ↦ level
    | true ↦ level ++ levels fuel (pair_up level)
  ]

  abbrev pub top : ℕ → List Bytes → Option Bytes
  top zero level = get_elem? level 0
  top (suc fuel) level = elim (ltb 1 (length level)) [
    | false ↦ get_elem? level 0
    | true ↦ top fuel (pair_up level)
  ]

  grow_last :
      (fuel : ℕ) (tree : List Bytes) (start len : ℕ)
      → ltb 1 len ≡ false
      → grow sha256 (suc fuel) tree start len ≡ some tree
  unfolding grow
  grow_last fuel tree start len last = ground arith

  grow_more :
      (fuel : ℕ) (tree next : List Bytes) (start len : ℕ)
      → ltb 1 len ≡ true
      → next_level sha256 (rounds_of len) tree start len 0 ≡ some next
      → grow sha256 (suc fuel) tree start len
        ≡ grow sha256 fuel (tree ++ next) (start + len) (length next)
  unfolding grow
  grow_more fuel tree next start len more e = ground arith

  pub levels_last :
      (fuel : ℕ) (level : List Bytes)
      → ltb 1 (length level) ≡ false
      → levels (suc fuel) level ≡ level
  levels_last fuel level last = ground arith

  pub levels_more :
      (fuel : ℕ) (level : List Bytes)
      → ltb 1 (length level) ≡ true
      → levels (suc fuel) level ≡ level ++ levels fuel (pair_up level)
  levels_more fuel level more = ground arith

  pub top_last :
      (fuel : ℕ) (level : List Bytes)
      → ltb 1 (length level) ≡ false
      → top (suc fuel) level ≡ get_elem? level 0
  top_last fuel level last = ground arith

  pub top_more :
      (fuel : ℕ) (level : List Bytes)
      → ltb 1 (length level) ≡ true
      → top (suc fuel) level ≡ top fuel (pair_up level)
  top_more fuel level more = ground arith

  pub pair_up_shrinks :
      (fuel : ℕ) (level : List Bytes)
      → ltb 1 (length level) ≡ true
      → length level ≤ suc fuel
      → (length (pair_up level) ≤ fuel) × (0 < length (pair_up level))
  pair_up_shrinks fuel level more h = omega (arith, length-pair_up level, ltb→lt _ _ more)

  -- Enough fuel: the number of nodes bounds the rounds.
  pub grow-levels :
      (fuel : ℕ) (level pre : List Bytes)
      → length level ≤ fuel
      → 0 < length level
      → grow sha256 fuel (pre ++ level) (length pre) (length level)
        ≡ some (pre ++ levels fuel level)
  grow-levels zero level pre h p = absurd (omega arith)
  grow-levels (suc fuel) level pre h p = elim (Bool-cases (ltb 1 (length level))) [
    | inr last ↦ rw (levels_last fuel level last) (grow_last fuel (pre ++ level) _ _ last)
    | inl more ↦
        let paired =
          next_level-pair_up level pre _ (length pre) (length level) 0 refl (omega arith)
            (omega arith) in
        let (fits, some_left) = pair_up_shrinks fuel level more h in
        let rest : grow sha256 fuel ((pre ++ level) ++ pair_up level) (length pre + length level)
              (length (pair_up level))
            ≡ some ((pre ++ level) ++ levels fuel (pair_up level)) =
          rw (← (length-append pre level))
            (grow-levels fuel (pair_up level) (pre ++ level) fits some_left) in
        rw (
          grow_more fuel (pre ++ level) (pair_up level) (length pre) (length level) more paired,
          rest,
          levels_more fuel level more,
          append_assoc,
        )
  ]

  sibling_index-suc-suc :
      (idx len : ℕ)
      → sibling_index (suc (suc idx)) (suc (suc len)) ≡ suc (suc (sibling_index idx len))
  unfolding sibling_index
  sibling_index-suc-suc idx len = ground arith

  combine-suc-suc :
      (idx : ℕ) (x s : Bytes) → combine sha256 (suc (suc idx)) x s ≡ combine sha256 idx x s
  unfolding combine
  combine-suc-suc idx x s = ground arith

  half-suc-suc : (idx : ℕ) → suc (suc idx) / 2 ≡ suc (idx / 2)
  half-suc-suc idx = omega arith

  -- one step of a proof: the sibling is there, and the parent is the two combined
  pub parent_of :
      (level : List Bytes) (idx : ℕ) {x : Bytes}
      → get_elem? level idx ≡ some x
      → (s : Bytes) × (get_elem? level (sibling_index idx (length level)) ≡ some s)
        × (get_elem? (pair_up level) (idx / 2) ≡ some (combine sha256 idx x s))
  unfolding sibling_index combine
  parent_of [] idx h = cc
  parent_of (y ∷ []) zero {x} h = (x, h, cc)
  parent_of (y ∷ []) (suc idx) h = cc
  parent_of (y ∷ z ∷ level) zero {x} h = (z, ground arith, cc)
  parent_of (y ∷ z ∷ level) (suc zero) {x} h = (y, refl, cc)
  parent_of (y ∷ z ∷ level) (suc (suc idx)) {x} h =
      let (s, here, above) = parent_of level idx h in
      (
        s,
        rw (sibling_index-suc-suc idx (length level)) here,
        rw (half-suc-suc idx, combine-suc-suc idx x s) above,
      )
