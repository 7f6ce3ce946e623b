-- ===== src/Tests/SessionGrpc.antt =====
-- A session of two events, and the proof of its second event over the wire; bytes are written in
-- unary.
use Prim.Native.Char.{code}
use ussd_polyglot.Prelude.{
  ℕ, zero, suc, ◌+◌, ◌<◌, ◌≡◌, refl, ap, sym, ◌∙◌, true, Option, none, some, List, [], ◌∷◌, map,
  String, str_eq, ◌==◌, if◌then◌else◌, Bytes, get_elem?, arith,
}
use ussd_polyglot.Prelude.Int.{pos, ◌+ℤ◌, as_i64}
use ussd_polyglot.Prelude.Result.{Result, ok}
use ussd_polyglot.Session.Reconstruct.{DbEvent}
use ussd_polyglot.Session.Grpc.{Crates, IntegrityProof, clamped_index, get_integrity_proof}
use ussd_polyglot.Session.Grpc.Proof.{decode, get_integrity_proof-verify_merkle_proof}
use ussd_polyglot.Audit.Merkle.{verify_merkle_proof}
use ussd_polyglot.Tests.Common.{toy_sha256, objects}

abbrev mark : ℕ → String → String
mark zero s = String.◌∷◌ "." s
mark (suc n) s = String.◌∷◌ "i" (mark n s)

abbrev encode : Bytes → String
encode [] = ""
encode (b ∷ bs) = mark b (encode bs)

abbrev also : ℕ → Option Bytes → Option Bytes
also n none = none
also n (some bs) = some (n ∷ bs)

abbrev decode_from : ℕ → String → Option Bytes
decode_from n String.[] = some []
decode_from n (String.◌∷◌ c s) =
    let rest = decode_from 0 s in
    let more = decode_from (suc n) s in if code c == code "." then also n rest else more

decode_from-mark :
    (k n : ℕ) (s : String) → decode_from k (mark n s) ≡ also (k + n) (decode_from 0 s)
decode_from-mark k zero s =
    let same : k + 0 ≡ k = omega arith in ap (λ m. also m (decode_from 0 s)) (sym same)
decode_from-mark k (suc n) s =
    let same : suc k + n ≡ k + suc n = omega arith in
    decode_from-mark (suc k) n s ∙ ap (λ m. also m (decode_from 0 s)) same

decode_from-encode : (bs : Bytes) → decode_from 0 (encode bs) ≡ some bs
decode_from-encode [] = refl
decode_from-encode (b ∷ bs) =
    let same : 0 + b ≡ b = omega arith in
    decode_from-mark 0 b (encode bs)
    ∙ ap (λ m. also m (decode_from 0 (encode bs))) same
    ∙ ap (also b) (decode_from-encode bs)

abbrev crates : Crates
crates = record {
  parse = λ s. if str_eq s "one" then some 1 else some 5;
  uuid_text = λ n. "id";
  i64_text = λ z. "number";
  sha256 = toy_sha256;
  hex_encode = encode;
  hex_decode = decode_from 0;
}

abbrev db_event : ℕ → String → DbEvent objects.Value
db_event n hash = record {
  event_id = n;
  event_type = "session.started";
  aggregate_type = "session";
  aggregate_id = 1;
  version = pos n;
  payload = [];
  tenant_id = 5;
  session_id = 1;
  correlation_id = none;
  causation_id = none;
  idempotency_key = none;
  record_hash = hash;
  previous_hash = none;
  occurred_at = n;
  tracing = none;
}

abbrev two_events : Result String (List (DbEvent objects.Value))
two_events = ok (db_event 1 "ii." ∷ db_event 2 "i." ∷ [])

get_integrity_proof-verify_merkle_proof_example :
    (p : IntegrityProof) × (get_integrity_proof crates objects "one" "five"
        (pos 2)
        (λ s t. two_events)
      ≡ ok p)
    × (clamped_index (pos 2) 2 < 2)
    × (p.event_version ≡ as_i64 (clamped_index (pos 2) 2) +ℤ pos 1)
    × (get_elem? ("ii." ∷ "i." ∷ []) (clamped_index (pos 2) 2) ≡ some p.event_hash)
    × (verify_merkle_proof toy_sha256
          (decode crates p.event_hash)
          (clamped_index (pos 2) 2)
          (map (decode crates) p.sibling_hashes)
          (decode crates p.merkle_root)
        ≡ true)
get_integrity_proof-verify_merkle_proof_example =
    get_integrity_proof-verify_merkle_proof crates objects "one" "five" (pos 2) (λ s t. two_events)
      1 5 (db_event 1 "ii.") (db_event 2 "i." ∷ []) decode_from-encode refl refl refl
