-- ===== src/Session/Merkle.antt =====
-- compute_merkle_proof of rust-engine/session-reconstructor/src/application/reconstruct.rs: the root
-- and the siblings of one event among a session's record hashes, level by level on a vector that is
-- replaced.
--
-- `sha256` is the `sha2` crate's, `hex_encode` and `hex_decode` are the `hex` crate's. An index out
-- of range panics in the source and is `none` here; the loop's fuel is the number of hashes, and
-- Agreement shows that it is enough.
pub mod Agreement
use ussd_polyglot.Prelude.{
  ℕ, zero, suc, ◌+◌, ◌-◌, ◌/◌, ◌%◌, Bool, true, false, Option, none, some, List, [], ◌∷◌, ◌++◌, map,
  String, ltb, ◌==◌, if◌then◌else◌, ◌>>=◌, length, get_elem?, get_last?, Bytes,
}

-- `if current.len() % 2 == 1 { current.push(current.last().unwrap().clone()) }`
unfoldable pub pad_level : List Bytes → Option (List Bytes)
pad_level current =
    if length current % 2 == 1
    then (do last ← get_last? current; some (current ++ last ∷ []))
    else some current

-- `if idx % 2 == 0 { idx + 1 } else { idx - 1 }`
unfoldable pub other_of : ℕ → ℕ
other_of idx = if idx % 2 == 0 then idx + 1 else idx - 1

module _ (sha256 : Bytes → Bytes) (hex_encode : Bytes → String)
    (hex_decode : String → Option Bytes) where
  -- `hex::decode(h).unwrap_or_default()`
  unfoldable pub decode_or_default : String → Bytes
  decode_or_default h = elim (hex_decode h) [ some bytes ↦ bytes | none ↦ [] ]

  -- `for i in (0..current.len()).step_by(2)`, with the rounds left
  unfoldable pub hash_pairs : ℕ → List Bytes → ℕ → Option (List Bytes)
  hash_pairs zero current i = some []
  hash_pairs (suc rounds) current i = do
    left ← get_elem? current i
    right ← get_elem? current (i + 1)
    rest ← hash_pairs rounds current (i + 2)
    some (sha256 (left ++ right) ∷ rest)

  -- `while current.len() > 1`: the last level and the siblings
  unfoldable pub climb : ℕ → List Bytes → ℕ → Option (List Bytes × List String)
  unfolding pad_level other_of hash_pairs
  climb zero current idx = none
  climb (suc fuel) current idx = elim (ltb 1 (length current)) [
    | false ↦ some (current, [])
    | true ↦ do
      padded ← pad_level current
      sibling ← get_elem? padded (other_of idx)
      next ← hash_pairs ((length padded + 1) / 2) padded 0
      (last_level, siblings) ← climb fuel next (idx / 2)
      some (last_level, hex_encode sibling ∷ siblings)
  ]

  unfoldable pub compute_merkle_proof : List String → ℕ → Option (String × List String)
  unfolding climb decode_or_default
  compute_merkle_proof [] target_index = some ("", [])
  compute_merkle_proof (h ∷ hashes) target_index = do
    (last_level, siblings) ←
        climb (suc (length hashes)) (map decode_or_default (h ∷ hashes)) target_index
    root ← get_elem? last_level 0
    some (hex_encode root, siblings)
