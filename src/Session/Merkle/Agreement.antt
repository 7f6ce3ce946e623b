-- ===== src/Session/Merkle/Agreement.antt =====
-- The session reconstructor's compute_merkle_proof and the audit engine's tree are two programs for
-- one thing: on the same leaves they have the same root and the same siblings.
use ussd_polyglot.Prelude.{
  ℕ, zero, suc, ◌+◌, ◌/◌, ◌%◌, ◌≤◌, ◌<◌, ◌≡◌, refl, sym, ap, ◌∙◌, ◌≢◌, ◌⊎◌, true, false, Option,
  some, inl, inr, List, [], ◌∷◌, ◌++◌, map, append_assoc, arith, String, ltb, length, length-append,
  length-map, get_elem?, get_elem?_lt, get_elem?-append_left, get_elem?-append_at, get_elem?-some,
  get_last?, get_last?-some, get_last?-get_elem?, Bytes,
}
use native.Mathlib.Decide.{ℕ_discrete}
use ussd_polyglot.Audit.Merkle.{build_merkle_tree, merkle_proof, sibling_index, collect}
use ussd_polyglot.Audit.Merkle.Levels.{
  pair_up, levels, top, levels_more, top_more, pair_up_shrinks, parent_of,
}
use ussd_polyglot.Audit.Merkle.Proofs.{
  collect_last, collect_level, length-levels, build_merkle_tree_lem, merkle_proof_lem,
  root_of-levels,
}
use ussd_polyglot.Audit.Merkle.Duplication.{pair_up-duplicate}
use ussd_polyglot.Session.Merkle.{
  pad_level, other_of, decode_or_default, hash_pairs, climb, compute_merkle_proof,
}

-- away from the last node of a level of odd length the two rules for the sibling agree
other_of-eq-sibling_index :
    (idx len : ℕ)
    → idx < len
    → (len % 2 ≡ 0) ⊎ (suc idx ≢ len)
    → other_of idx ≡ sibling_index idx len
unfolding other_of sibling_index
other_of-eq-sibling_index idx len h c = ground arith

-- the last node of a level of odd length is its own sibling, and its copy stands next to it
last_index :
    (idx len : ℕ)
    → len ≡ suc idx
    → len % 2 ≡ 1
    → (sibling_index idx len ≡ idx) × (other_of idx ≡ len)
unfolding other_of sibling_index
last_index idx len e odd = ground arith

get_elem?-padded :
    (level : List Bytes) (idx : ℕ) {last s : Bytes}
    → idx < length level
    → length level % 2 ≡ 1
    → get_last? level ≡ some last
    → get_elem? level (sibling_index idx (length level)) ≡ some s
    → get_elem? (level ++ last ∷ []) (other_of idx) ≡ some s
get_elem?-padded level idx {last} {s} h odd l e = elim (ℕ_discrete (suc idx) (length level)) [
  | yes p ↦
      let (own, next) = last_index idx (length level) (sym p) odd in
      let e' : get_elem? level idx ≡ some s = rw own at e in
      rw next (
        get_elem?-append_at level (last ∷ []) 0 (length level) (omega arith)
        ∙ sym l
        ∙ get_last?-get_elem? level idx (sym p)
        ∙ e')
  | no p ↦ rw (other_of-eq-sibling_index idx (length level) h (inr p)) (
      get_elem?-append_left level (last ∷ []) (sibling_index idx (length level))
        (get_elem?_lt level _ e)
      ∙ e)
]

module _ (level : List Bytes) where
  pad_level_even : length level % 2 ≡ 0 → pad_level level ≡ some level
  unfolding pad_level
  pad_level_even even = ground arith

  pad_level_odd :
      {last : Bytes}
      → length level % 2 ≡ 1
      → get_last? level ≡ some last
      → pad_level level ≡ some (level ++ last ∷ [])
  unfolding pad_level
  pad_level_odd odd l = ground arith

-- Padding a level keeps every sibling and the level above.
other_of-pad_level :
    (level : List Bytes) (idx : ℕ) {s : Bytes}
    → idx < length level
    → get_elem? level (sibling_index idx (length level)) ≡ some s
    → (padded : List Bytes) × (pad_level level ≡ some padded)
      × (get_elem? padded (other_of idx) ≡ some s)
      × (length padded % 2 ≡ 0)
      × ((sha256 : Bytes → Bytes) → pair_up sha256 padded ≡ pair_up sha256 level)
other_of-pad_level level idx {s} h e = elim (ℕ_discrete (length level % 2) 0) [
  | yes even ↦ (
    level,
    pad_level_even level even,
    rw (other_of-eq-sibling_index idx (length level) h (inl even)) e,
    even,
    λ sha256. refl,
  )
  | no not_even ↦
      let odd : length level % 2 ≡ 1 = omega arith in
      let (last, l) = get_last?-some level (omega arith) in
      (
        level ++ last ∷ [],
        pad_level_odd level odd l,
        get_elem?-padded level idx h odd l e,
        omega (arith, length-append level (last ∷ [])),
        λ sha256. pair_up-duplicate sha256 level odd l,
      )
]

module _ (sha256 : Bytes → Bytes) (hex_encode : Bytes → String)
    (hex_decode : String → Option Bytes) where
  hash_pairs-pair_up :
      (level pre : List Bytes) (rounds i : ℕ)
      → rounds ≡ (length level + 1) / 2
      → length level % 2 ≡ 0
      → i ≡ length pre
      → hash_pairs sha256 hex_encode hex_decode rounds (pre ++ level) i
        ≡ some (pair_up sha256 level)
  unfolding hash_pairs
  hash_pairs-pair_up [] pre zero i r even l = refl
  hash_pairs-pair_up [] pre (suc rounds) i r even l = absurd (omega arith)
  hash_pairs-pair_up (x ∷ []) pre rounds i r even l = absurd (omega arith)
  hash_pairs-pair_up (x ∷ y ∷ level) pre zero i r even l = absurd (omega arith)
  hash_pairs-pair_up (x ∷ y ∷ level) pre (suc rounds) i r even l =
      let above : hash_pairs sha256 hex_encode hex_decode rounds (pre ++ x ∷ y ∷ level) (i + 2)
          ≡ some (pair_up sha256 level) =
        rw (append_assoc pre (x ∷ y ∷ []) level) at (
          hash_pairs-pair_up level (pre ++ x ∷ y ∷ []) rounds (i + 2) (omega arith) (omega arith)
            (omega (arith, length-append pre (x ∷ y ∷ [])))) in
      ground (
        arith,
        above,
        get_elem?-append_at pre (x ∷ y ∷ level) 0 i,
        get_elem?-append_at pre (x ∷ y ∷ level) 1 (i + 1),
      )

  climb_last :
      (fuel : ℕ) (level : List Bytes) (idx : ℕ)
      → ltb 1 (length level) ≡ false
      → climb sha256 hex_encode hex_decode (suc fuel) level idx ≡ some (level, [])
  unfolding climb
  climb_last fuel level idx last = ground arith

  climb_more :
      (fuel : ℕ) (level padded next : List Bytes) (idx : ℕ) {s : Bytes} {last_level : List Bytes}
      {siblings : List String}
      → ltb 1 (length level) ≡ true
      → pad_level level ≡ some padded
      → get_elem? padded (other_of idx) ≡ some s
      → hash_pairs sha256 hex_encode hex_decode ((length padded + 1) / 2) padded 0 ≡ some next
      → climb sha256 hex_encode hex_decode fuel next (idx / 2) ≡ some (last_level, siblings)
      → climb sha256 hex_encode hex_decode (suc fuel) level idx
        ≡ some (last_level, hex_encode s ∷ siblings)
  unfolding climb
  climb_more fuel level padded next idx {s} {last_level} {siblings} more p o n c =
      rw (more, climb) (rw p (rw o (rw n (rw c refl))))

  climb-collect :
      (fuel : ℕ) (level pre : List Bytes) (idx : ℕ) {x : Bytes}
      → length level ≤ fuel
      → get_elem? level idx ≡ some x
      → (proof : List Bytes) × (r : Bytes) × (collect fuel
            (pre ++ levels sha256 fuel level)
            idx
            (length pre)
            (length level)
          ≡ some proof)
        × (climb sha256 hex_encode hex_decode fuel level idx ≡ some (r ∷ [], map hex_encode proof))
        × (top sha256 fuel level ≡ some r)
  climb-collect zero level pre idx h e = absurd (omega (arith, get_elem?_lt level idx e))
  climb-collect (suc fuel) [] pre idx h e = cc
  climb-collect (suc fuel) (x ∷ []) pre idx h e = (
    [],
    x,
    collect_last sha256 fuel (pre ++ x ∷ []) idx (length pre) 1 refl,
    climb_last fuel (x ∷ []) idx refl,
    refl,
  )
  climb-collect (suc fuel) (x ∷ y ∷ rest) pre idx h e =
      let level = x ∷ y ∷ rest in
      let more : ltb 1 (length level) ≡ true = ground arith in
      let (s, here, above) = parent_of sha256 level idx e in
      let (fits, some_left) = pair_up_shrinks sha256 fuel level more h in
      let (padded, pads, other, even, same) =
        other_of-pad_level level idx (get_elem?_lt level idx e) here in
      let (proof, r, collected, climbed, topped) =
        climb-collect fuel (pair_up sha256 level) (pre ++ level) (idx / 2) fits above in
      (
        s ∷ proof,
        r,
        rw (levels_more sha256 fuel level more) (
            collect_level sha256 fuel level pre (levels sha256 fuel (pair_up sha256 level)) idx more
              here collected),
        climb_more fuel level padded (pair_up sha256 level) idx more pads other
            (hash_pairs-pair_up padded [] ((length padded + 1) / 2) 0 refl even refl
              ∙ ap some (same sha256))
            climbed,
        top_more sha256 fuel level more ∙ topped,
      )

  compute_merkle_proof_lem :
      (hashes : List String) (i : ℕ) {r : Bytes} {siblings : List String}
      → 0 < length hashes
      → climb sha256 hex_encode hex_decode
          (length hashes)
          (map (decode_or_default sha256 hex_encode hex_decode) hashes)
          i
        ≡ some (r ∷ [], siblings)
      → compute_merkle_proof sha256 hex_encode hex_decode hashes i ≡ some (hex_encode r, siblings)
  unfolding compute_merkle_proof
  compute_merkle_proof_lem [] i h c = absurd (omega arith)
  compute_merkle_proof_lem (x ∷ xs) i h c = rw c refl

  -- For a non-empty list of record hashes and an index inside it, the session reconstructor's root
  -- and siblings are the hexadecimal forms of the root and the proof that the audit engine computes
  -- from the decoded hashes; neither program panics.
  pub compute_merkle_proof-merkle_proof :
      (hashes : List String) (i : ℕ)
      → i < length hashes
      → let leaves = map (decode_or_default sha256 hex_encode hex_decode) hashes in
        (root : Bytes) × (tree proof : List Bytes) × (build_merkle_tree sha256 leaves
          ≡ some (root, tree))
        × (merkle_proof tree (length leaves) i ≡ some proof)
        × (compute_merkle_proof sha256 hex_encode hex_decode hashes i
            ≡ some (hex_encode root, map hex_encode proof))
  compute_merkle_proof-merkle_proof hashes i h =
      let leaves = map (decode_or_default sha256 hex_encode hex_decode) hashes in
      let same : length leaves ≡ length hashes = length-map _ hashes in
      let (leaf, e) = get_elem?-some leaves i (omega arith) in
      let n = length leaves in
      let (proof, r, collected, climbed, topped) = climb-collect n leaves [] i (omega arith) e in
      (
        r,
        levels sha256 n leaves,
        proof,
        rw (
          build_merkle_tree_lem sha256 leaves (omega arith),
          root_of-levels sha256 leaves (omega arith) topped,
        ),
        merkle_proof_lem sha256 (levels sha256 n leaves) n i
              (omega (arith, length-levels sha256 n leaves)) (omega arith)
            ∙ collected,
        compute_merkle_proof_lem hashes i (omega arith) (rw same at climbed),
      )
