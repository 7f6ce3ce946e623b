-- ===== src/Audit/Handler/Chain.antt =====
-- verify_transaction_chain of rust-engine/audit/src/application/audit.rs: the verdict on the records
-- of a chain, and the order in which the repository gives them.
use ussd_polyglot.Prelude.{
  ℕ, zero, suc, ◌≡◌, ◌≢◌, refl, ap, ◌↔◌, inl, inr, true, false, none, some, Option-cases,
  Bool-cases, List, [], ◌∷◌, String, str_eq, ◌==◌, keep_if, arith,
}
use ussd_polyglot.Prelude.Int.{ℤ, pos}
use ussd_polyglot.Prelude.Dict.{str_eq_sound, str_eq_refl}
use ussd_polyglot.Prelude.Result.{ok}
use ussd_polyglot.Audit.Records.{TransactionRecord, ChainReportResult}
use ussd_polyglot.Audit.Repository.{
  Env, World, parents_of, chain_from, execute, fetch_transactions_for_chain,
}
use ussd_polyglot.Audit.Handler.{
  names, first_break, chain_report, parse_id, verify_transaction_chain,
}

-- each record after the first names the record before it as its previous one
abbrev pub IsLinked : List TransactionRecord → Type 0
IsLinked [] = Unit {0}
IsLinked (prev ∷ []) = Unit {0}
IsLinked (prev ∷ next ∷ records) =
    (next.previous_hash ≡ some prev.record_hash) × IsLinked (next ∷ records)

names_lem :
    (r prev : TransactionRecord) → (names r prev ≡ true) ↔ (r.previous_hash ≡ some prev.record_hash)
unfolding names
names_lem r prev = elim (Option-cases r.previous_hash) [
  | inl nothing ↦ (λ h. ground arith, λ h. ground arith)
  | inr (p, there) ↦ (
    λ h. rw there (ap some (str_eq_sound p prev.record_hash (ground arith))),
    λ h.
        let same : p ≡ prev.record_hash = ground arith in
        ground (arith, str_eq_refl prev.record_hash),
  )
]

first_break_lem :
    (records : List TransactionRecord) → (first_break records ≡ none) ↔ IsLinked records
unfolding first_break
first_break_lem [] = (λ h. tt, λ h. refl)
first_break_lem (prev ∷ []) = (λ h. tt, λ h. refl)
first_break_lem (prev ∷ next ∷ records) =
    let (sound, complete) = first_break_lem (next ∷ records) in
    let (named, naming) = names_lem next prev in
    elim (Bool-cases (names next prev)) [
      | inl good ↦
          (λ h. (named good, sound (ground arith)), λ h. let rest = complete h.1 in ground arith)
      | inr bad ↦ (λ h. ground arith, λ h. let no = naming h.0 in ground arith)
    ]

module _ {V : Type 0} (env : Env V) where
  is_valid-chain_report :
      (id : String) (records : List TransactionRecord)
      → ((chain_report env id records).is_valid ≡ true) ↔ (first_break records ≡ none)
  unfolding chain_report
  is_valid-chain_report id records = elim (Option-cases (first_break records)) [
    | inl nothing ↦ (λ h. nothing, λ h. ground arith)
    | inr (pair, there) ↦ (λ h. ground arith, λ h. ground arith)
  ]

  verify_transaction_chain_lem :
      (id : String) (uuid : ℕ) (max_depth : ℤ) (w w' : World V) (r : TransactionRecord)
      (rs : List TransactionRecord)
      → env.parse_uuid id ≡ ok uuid
      → fetch_transactions_for_chain env uuid max_depth w ≡ (ok (r ∷ rs), w')
      → verify_transaction_chain env id max_depth w ≡ (ok (chain_report env id (r ∷ rs)), w')
  unfolding verify_transaction_chain parse_id
  verify_transaction_chain_lem id uuid max_depth w w' r rs parsed fetched = ground arith

  -- Where the identifier is a UUID and the chain's query gives at least one record,
  -- `verify_transaction_chain` answers, changes no more than the query did, and calls the chain
  -- valid exactly when every record but the first, in the order of the query, has the hash of the
  -- record before it as its previous hash.
  pub verify_transaction_chain-IsLinked :
      (id : String) (uuid : ℕ) (max_depth : ℤ) (w w' : World V) (r : TransactionRecord)
      (rs : List TransactionRecord)
      → env.parse_uuid id ≡ ok uuid
      → fetch_transactions_for_chain env uuid max_depth w ≡ (ok (r ∷ rs), w')
      → (report : ChainReportResult) × (verify_transaction_chain env id max_depth w
          ≡ (ok report, w'))
        × ((report.is_valid ≡ true) ↔ IsLinked (r ∷ rs))
  verify_transaction_chain-IsLinked id uuid max_depth w w' r rs parsed fetched =
      let (to, from) = is_valid-chain_report id (r ∷ rs) in
      let (sound, complete) = first_break_lem (r ∷ rs) in
      (
        chain_report env id (r ∷ rs),
        verify_transaction_chain_lem id uuid max_depth w w' r rs parsed fetched,
        (λ h. sound (to h), λ h. from (complete h)),
      )

  chain_report_broken :
      (id : String) (t p : TransactionRecord) (rest : List TransactionRecord)
      → names p t ≡ false
      → ((chain_report env id (t ∷ p ∷ rest)).is_valid ≡ false)
        × ((chain_report env id (t ∷ p ∷ rest)).broken_at_transaction_id
            ≡ some (env.uuid_text p.transaction_uuid))
  unfolding chain_report first_break
  chain_report_broken id t p rest unnamed = (ground arith, ground arith)

  -- from one record on, the chain begins with it
  chain_from_head :
      (depths : ℕ) (table : List TransactionRecord) (p : TransactionRecord)
      → (rest : List TransactionRecord) × (chain_from depths table (p ∷ []) ≡ p ∷ rest)
  unfolding chain_from
  chain_from_head zero table p = ([], refl)
  chain_from_head (suc depths) table p = (chain_from depths table (parents_of table (p ∷ [])), refl)

  parents_of_one :
      (table : List TransactionRecord) (t p : TransactionRecord)
      → t.previous_hash ≡ some p.record_hash
      → keep_if (λ x. str_eq x.record_hash p.record_hash) table ≡ p ∷ []
      → parents_of table (t ∷ []) ≡ p ∷ []
  unfolding parents_of
  parents_of_one table t p named only = rw (named, only) refl

  chain_from_child :
      (depths : ℕ) (table : List TransactionRecord) (t p : TransactionRecord)
      → t.previous_hash ≡ some p.record_hash
      → keep_if (λ x. str_eq x.record_hash p.record_hash) table ≡ p ∷ []
      → (rest : List TransactionRecord) × (chain_from (suc depths) table (t ∷ []) ≡ t ∷ p ∷ rest)
  unfolding chain_from
  chain_from_child depths table t p named only =
      let (rest, begins) = chain_from_head depths table p in
      (rest, rw (parents_of_one table t p named only, begins) refl)

  fetch_chain_lem :
      (uuid d : ℕ) (w : World V) (t : TransactionRecord)
      → env.fault w.statements ≡ none
      → keep_if (λ x. x.transaction_uuid == uuid) w.transactions ≡ t ∷ []
      → fetch_transactions_for_chain env uuid (pos (suc d)) w
        ≡ (ok (chain_from d w.transactions (t ∷ [])), record w { statements = suc w.statements })
  unfolding fetch_transactions_for_chain execute
  fetch_chain_lem uuid d w t up only = ground arith

  -- The records of a chain stand child first. Where the log holds one transaction with the
  -- identifier, its previous hash is the record hash of exactly one transaction, whose own previous
  -- hash is not the child's record hash, and at least two records are asked for, then
  -- `verify_transaction_chain` answers that the chain is broken, at that previous transaction,
  -- although the link between the two is intact.
  pub verify_transaction_chain_child_first :
      (id : String) (uuid d : ℕ) (w : World V) (t p : TransactionRecord)
      → env.parse_uuid id ≡ ok uuid
      → env.fault w.statements ≡ none
      → keep_if (λ x. x.transaction_uuid == uuid) w.transactions ≡ t ∷ []
      → t.previous_hash ≡ some p.record_hash
      → keep_if (λ x. str_eq x.record_hash p.record_hash) w.transactions ≡ p ∷ []
      → p.previous_hash ≢ some t.record_hash
      → (report : ChainReportResult) × (verify_transaction_chain env id (pos (suc (suc d))) w
          ≡ (ok report, record w { statements = suc w.statements }))
        × (report.is_valid ≡ false)
        × (report.broken_at_transaction_id ≡ some (env.uuid_text p.transaction_uuid))
  verify_transaction_chain_child_first id uuid d w t p parsed up only named parent apart =
      let (rest, begins) = chain_from_child d w.transactions t p named parent in
      let fetched = fetch_chain_lem uuid (suc d) w t up only in
      let w' = record w { statements = suc w.statements } in
      let unnamed : names p t ≡ false = elim (Bool-cases (names p t)) [
        | inl good ↦ absurd (apart ((names_lem p t).0 good))
        | inr bad ↦ bad
      ] in
      (
        chain_report env id (t ∷ p ∷ rest),
        verify_transaction_chain_lem id uuid (pos (suc (suc d))) w w' t (p ∷ rest) parsed
            (rw (← begins) fetched),
        (chain_report_broken id t p rest unnamed).0,
        (chain_report_broken id t p rest unnamed).1,
      )
