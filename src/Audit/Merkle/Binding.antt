-- ===== src/Audit/Merkle/Binding.antt =====
-- What an accepted proof of audit/src/domain/merkle.rs commits to: with digests of one length, two
-- leaves accepted at one index under one root are equal or exhibit a collision of the hash.
use ussd_polyglot.Prelude.{
  ℕ, ◌/◌, ◌%◌, ◌==◌, ◌≡◌, refl, sym, ap, ◌∙◌, ◌≢◌, ◌⊎◌, inl, inr, true, List, [], ◌∷◌, ◌++◌, arith,
  Bool-cases, length, Bytes,
}
use ussd_polyglot.Audit.Merkle.{bytes_eq, combine, fold_proof, verify_merkle_proof}
use ussd_polyglot.Audit.Merkle.Proofs.{bytes_eq_refl, bytes_eq_sound}

append_inj_left : (x y s t : Bytes) → length x ≡ length y → x ++ s ≡ y ++ t → x ≡ y
append_inj_left [] [] s t l e = refl
append_inj_left [] (b ∷ y) s t l e = absurd (omega arith)
append_inj_left (a ∷ x) [] s t l e = absurd (omega arith)
append_inj_left (a ∷ x) (b ∷ y) s t l e = ground (arith, append_inj_left x y s t)

append_inj_right : (s t x y : Bytes) → length s ≡ length t → s ++ x ≡ t ++ y → x ≡ y
append_inj_right [] [] x y l e = e
append_inj_right [] (b ∷ t) x y l e = absurd (omega arith)
append_inj_right (a ∷ s) [] x y l e = absurd (omega arith)
append_inj_right (a ∷ s) (b ∷ t) x y l e = ground (arith, append_inj_right s t x y)

-- every hash of a list has the digest's length
abbrev pub AllLength : ℕ → List Bytes → Type 0
AllLength d [] = Unit
AllLength d (x ∷ xs) = (length x ≡ d) × AllLength d xs

module _ (sha256 : Bytes → Bytes) where
  -- two inputs with one hash
  abbrev pub Collision : Type 0
  Collision = (a b : Bytes) × (a ≢ b) × (sha256 a ≡ sha256 b)

  equal_or_collision : (a b : Bytes) → sha256 a ≡ sha256 b → (a ≡ b) ⊎ Collision
  equal_or_collision a b e = elim (Bool-cases (bytes_eq a b)) [
    | inl same ↦ inl (bytes_eq_sound a b same)
    | inr differ ↦
        let differs : a ≢ b = λ p. cc (bytes_eq_refl b, ap (λ c. bytes_eq c b) p) in
        inr (a, b, differs, e)
  ]

  -- Equal parents come from equal nodes, or from a collision.
  combine_inj :
      (idx : ℕ) (x y s t : Bytes)
      → length x ≡ length y
      → length s ≡ length t
      → combine sha256 idx x s ≡ combine sha256 idx y t
      → (x ≡ y) ⊎ Collision
  unfolding combine
  combine_inj idx x y s t l m e = elim (Bool-cases (idx % 2 == 0)) [
    | inl even ↦ from_left (equal_or_collision (x ++ s) (y ++ t) (rw even at e))
    | inr odd ↦ from_right (equal_or_collision (s ++ x) (t ++ y) (rw odd at e))
  ]
    where
      from_left : (x ++ s ≡ y ++ t) ⊎ Collision → (x ≡ y) ⊎ Collision
      from_left (inl p) = inl (append_inj_left x y s t l p)
      from_left (inr c) = inr c

      from_right : (s ++ x ≡ t ++ y) ⊎ Collision → (x ≡ y) ⊎ Collision
      from_right (inl p) = inl (append_inj_right s t x y m p)
      from_right (inr c) = inr c

  module _ (d : ℕ) (digest_length : (b : Bytes) → length (sha256 b) ≡ d) where
    length-combine : (idx : ℕ) (x s : Bytes) → length (combine sha256 idx x s) ≡ d
    unfolding combine
    length-combine idx x s = ground (arith, digest_length (x ++ s), digest_length (s ++ x))

    fold_proof_inj :
        (idx : ℕ) (x y : Bytes) (p q : List Bytes)
        → length x ≡ d
        → length y ≡ d
        → AllLength d p
        → AllLength d q
        → length p ≡ length q
        → fold_proof sha256 x idx p ≡ fold_proof sha256 y idx q
        → (x ≡ y) ⊎ Collision
    unfolding fold_proof
    fold_proof_inj idx x y [] [] lx ly ap' aq l e = inl e
    fold_proof_inj idx x y [] (t ∷ q) lx ly ap' aq l e = absurd (omega arith)
    fold_proof_inj idx x y (s ∷ p) [] lx ly ap' aq l e = absurd (omega arith)
    fold_proof_inj idx x y (s ∷ p) (t ∷ q) lx ly ap' aq l e = from_parents (
        fold_proof_inj (idx / 2) (combine sha256 idx x s) (combine sha256 idx y t) p q
          (length-combine idx x s) (length-combine idx y t) ap'.1 aq.1 (omega arith) e)
      where
        from_parents :
            (combine sha256 idx x s ≡ combine sha256 idx y t) ⊎ Collision → (x ≡ y) ⊎ Collision
        from_parents (inl h) = combine_inj idx x y s t (omega arith) (omega arith) h
        from_parents (inr c) = inr c

    -- Where every hash has `d` bytes, two leaves of `d` bytes that verify at one index against one
    -- root, by proofs of one length made of nodes of `d` bytes, are equal, or two different inputs
    -- have the same hash.
    pub verify_merkle_proof_binding :
        (idx : ℕ) (x y root : Bytes) (p q : List Bytes)
        → length x ≡ d
        → length y ≡ d
        → AllLength d p
        → AllLength d q
        → length p ≡ length q
        → verify_merkle_proof sha256 x idx p root ≡ true
        → verify_merkle_proof sha256 y idx q root ≡ true
        → (x ≡ y) ⊎ Collision
    unfolding verify_merkle_proof
    verify_merkle_proof_binding idx x y root p q lx ly ap' aq l vx vy =
        fold_proof_inj idx x y p q lx ly ap' aq l (
          bytes_eq_sound (fold_proof sha256 x idx p) root vx
          ∙ sym (bytes_eq_sound (fold_proof sha256 y idx q) root vy))
