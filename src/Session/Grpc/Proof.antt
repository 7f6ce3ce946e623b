-- ===== src/Session/Grpc/Proof.antt =====
-- get_integrity_proof of rust-engine/session-reconstructor/src/ports/grpc.rs: its answer is a proof
-- that the audit engine's verification accepts.
use ussd_polyglot.Prelude.{
  ℕ, zero, suc, ◌<◌, ◌≡◌, refl, ap, ◌∙◌, true, some, List, [], ◌∷◌, map, String, Bytes, length,
  length-map, get_elem?, get_elem?-some, arith,
}
use ussd_polyglot.Prelude.Int.{ℤ, pos, ◌+ℤ◌, as_i64}
use ussd_polyglot.Prelude.Result.{Result, ok}
use ussd_polyglot.Session.State.{Json}
use ussd_polyglot.Session.Merkle.{decode_or_default, compute_merkle_proof}
use ussd_polyglot.Session.Merkle.Agreement.{compute_merkle_proof-merkle_proof}
use ussd_polyglot.Session.Reconstruct.{DbEvent, fetch_event_hashes}
use ussd_polyglot.Audit.Merkle.{verify_merkle_proof}
use ussd_polyglot.Audit.Merkle.Proofs.{verify_merkle_proof-merkle_proof}
use ussd_polyglot.Session.Grpc.{
  Crates, IntegrityProof, clamped_index, parse_uuid, proof_of, hash_at, prove, get_integrity_proof,
}

clamped_index_lt : (version : ℤ) (n : ℕ) → 0 < n → clamped_index version n < n
unfolding clamped_index
clamped_index_lt version n h = ground arith

module _ (crates : Crates) where
  open crates use {parse, uuid_text, i64_text, sha256, hex_encode, hex_decode}

  abbrev pub decode : String → Bytes
  decode = decode_or_default sha256 hex_encode hex_decode

  -- decoding reads back what encoding writes
  abbrev pub DecodesBack : Type 0
  DecodesBack = (b : Bytes) → hex_decode (hex_encode b) ≡ some b

  decode-hex_encode : DecodesBack → (b : Bytes) → decode (hex_encode b) ≡ b
  unfolding decode_or_default
  decode-hex_encode back b = let read = back b in ground arith

  map-decode : DecodesBack → (bs : List Bytes) → map decode (map hex_encode bs) ≡ bs
  map-decode back [] = refl
  map-decode back (b ∷ bs) =
      let one = decode-hex_encode back b in let rest = map-decode back bs in cc

  get_elem?-decode :
      (hashes : List String) (i : ℕ) (h : String)
      → get_elem? hashes i ≡ some h
      → get_elem? (map decode hashes) i ≡ some (decode h)
  get_elem?-decode [] i h at = cc
  get_elem?-decode (x ∷ hashes) zero h at = cc
  get_elem?-decode (x ∷ hashes) (suc i) h at = get_elem?-decode hashes i h at

  -- the session's proof of an event, decoded, verifies against its root
  compute_merkle_proof_verifies :
      (hashes : List String) (i : ℕ) (h : String)
      → DecodesBack
      → i < length hashes
      → get_elem? hashes i ≡ some h
      → (root : String) × (siblings : List String) × (compute_merkle_proof sha256 hex_encode
            hex_decode hashes i
          ≡ some (root, siblings))
        × (verify_merkle_proof sha256 (decode h) i (map decode siblings) (decode root) ≡ true)
  compute_merkle_proof_verifies hashes i h back below at =
      let leaves = map decode hashes in
      let (root, tree, proof, built, proved, computed) =
        compute_merkle_proof-merkle_proof sha256 hex_encode hex_decode hashes i below in
      let (root', tree', proof', built', proved', verified) =
        verify_merkle_proof-merkle_proof sha256 leaves i (get_elem?-decode hashes i h at) in
      let same_root : root' ≡ root = cc in
      let same_tree : tree' ≡ tree = cc in
      let same_proof : proof' ≡ proof = cc in
      let read = map-decode back proof in
      let read_root = decode-hex_encode back root in
      (hex_encode root, map hex_encode proof, computed, cc)

  prove_step :
      (session_id : ℕ) (version : ℤ) (x : String) (hashes : List String) (i : ℕ) (h root : String)
      (siblings : List String)
      → clamped_index version (length (x ∷ hashes)) ≡ i
      → get_elem? (x ∷ hashes) i ≡ some h
      → compute_merkle_proof sha256 hex_encode hex_decode (x ∷ hashes) i ≡ some (root, siblings)
      → prove crates session_id version (x ∷ hashes)
        ≡ ok (record {
          session_id = uuid_text session_id;
          event_version = as_i64 i +ℤ pos 1;
          event_hash = h;
          sibling_hashes = siblings;
          merkle_root = root;
          signature = "";
        })
  unfolding prove proof_of hash_at
  prove_step session_id version x hashes i h root siblings placed at computed = ground arith

  module _ (json : Json) where
    open json use {Value}

    get_integrity_proof_step :
        (session tenant : String) (version : ℤ)
        (fetched : ℕ → ℕ → Result String (List (DbEvent Value))) (session_id tenant_id : ℕ)
        (row : DbEvent Value) (rows : List (DbEvent Value))
        → parse session ≡ some session_id
        → parse tenant ≡ some tenant_id
        → fetched session_id tenant_id ≡ ok (row ∷ rows)
        → get_integrity_proof crates json session tenant version fetched
          ≡ prove crates session_id version (map (λ e. e.record_hash) (row ∷ rows))
    unfolding get_integrity_proof parse_uuid fetch_event_hashes
    get_integrity_proof_step session tenant version fetched session_id tenant_id row rows known
          owned got =
        ground arith

    -- Where both identifiers are UUIDs, the store answers at least one event of the session and the
    -- hexadecimal encoding is read back: `get_integrity_proof` answers a proof of the event whose
    -- index is `clamped_index` of the version asked for, which is an index of the events. The proof
    -- has that event's hash and its version, one more than the index, and its hashes, decoded, are
    -- accepted by the audit engine's `verify_merkle_proof` at that index and against the root.
    pub get_integrity_proof-verify_merkle_proof :
        (session tenant : String) (version : ℤ)
        (fetched : ℕ → ℕ → Result String (List (DbEvent Value))) (session_id tenant_id : ℕ)
        (row : DbEvent Value) (rows : List (DbEvent Value))
        → DecodesBack
        → parse session ≡ some session_id
        → parse tenant ≡ some tenant_id
        → fetched session_id tenant_id ≡ ok (row ∷ rows)
        → let i = clamped_index version (length (row ∷ rows)) in
          (p : IntegrityProof) × (get_integrity_proof crates json session tenant version fetched
            ≡ ok p)
          × (i < length (row ∷ rows))
          × (p.event_version ≡ as_i64 i +ℤ pos 1)
          × (get_elem? (map (λ e. e.record_hash) (row ∷ rows)) i ≡ some p.event_hash)
          × (verify_merkle_proof sha256
                (decode p.event_hash)
                i
                (map decode p.sibling_hashes)
                (decode p.merkle_root)
              ≡ true)
    get_integrity_proof-verify_merkle_proof session tenant version fetched session_id tenant_id row
          rows back known owned got =
        let hashes = map (λ e. e.record_hash) rows in
        let first = row.record_hash in
        let i = clamped_index version (length (row ∷ rows)) in
        let counted : length (first ∷ hashes) ≡ length (row ∷ rows) =
          length-map (λ e. e.record_hash) (row ∷ rows) in
        let below = clamped_index_lt version (length (row ∷ rows)) (omega arith) in
        let (h, at) = get_elem?-some (first ∷ hashes) i (omega arith) in
        let (root, siblings, computed, verified) =
          compute_merkle_proof_verifies (first ∷ hashes) i h back (omega arith) at in
        let step =
          get_integrity_proof_step session tenant version fetched session_id tenant_id row rows
            known owned got in
        let p : IntegrityProof = record {
          session_id = uuid_text session_id;
          event_version = as_i64 i +ℤ pos 1;
          event_hash = h;
          sibling_hashes = siblings;
          merkle_root = root;
          signature = "";
        } in
        (
          p,
          step
              ∙ prove_step session_id version first hashes i h root siblings
                  (ap (clamped_index version) counted) at computed,
          below,
          refl,
          at,
          verified,
        )
