-- ===== src/Reconciliation/Resolution/Outcome.antt =====
-- What resolve_discrepancy and bulk_resolve_discrepancies of
-- rust-engine/reconciliation-engine/src/application/handler.rs leave in the store and answer.
use Prim.Native.Char.{Char, code}
use Prim.Native.String.append
use ussd_polyglot.Prelude.{
  ℕ, zero, suc, ◌+◌, ◌≡◌, refl, ap, subst, ◌∙◌, Bool, true, false, not, ◌&&◌, none, some,
  Option-cases, List, [], ◌∷◌, map, String, if◌then◌else◌, ◌==◌, str_eq, ◌<>◌, find_if, length, inl,
  inr, Bool-cases, arith,
}
use ussd_polyglot.Prelude.Int.{pos, ◌+ℤ◌}
use ussd_polyglot.Prelude.Dict.{nat_refl}
use ussd_polyglot.Prelude.Decimal.{Decimal}
use ussd_polyglot.Prelude.Result.{ok, err}
use ussd_polyglot.Reconciliation.Domain.{
  ResolutionAction, correct_internal, correct_external, create_adjustment, ignore, escalate,
  approve, action_as_str, database_error,
}
use ussd_polyglot.Reconciliation.Store.{
  MismatchRow, World, Env, execute, resolution_text, resolution_of, before_char, trim_start,
  map_item_row, get_item, resolve_row, update_item_resolution,
}
use ussd_polyglot.Reconciliation.Store.Refusal.{get_item_lem}
use ussd_polyglot.Reconciliation.Resolution.{
  resolve_discrepancy, bulk_from, bulk_resolve_discrepancies,
}

abbrev pub is_escalate : ResolutionAction → Bool
is_escalate escalate = true
is_escalate correct_internal = false
is_escalate correct_external = false
is_escalate create_adjustment = false
is_escalate ignore = false
is_escalate approve = false

-- the notes that a resolution stores
abbrev pub noted : ResolutionAction → String → String
noted action notes = "[" <> action_as_str action <> "] " <> notes

abbrev lacks : Char → String → Bool
lacks c String.[] = true
lacks c (String.◌∷◌ d s) = if code d == code c then false else lacks c s

-- a text that begins with a character, then with a text before that character
before_char-cons :
    (c d : Char) (s : String)
    → (code d == code c) ≡ false
    → before_char c (String.◌∷◌ d s) ≡ String.◌∷◌ d (before_char c s)
unfolding before_char
before_char-cons c d s apart = ground arith

before_char-append :
    (c : Char) (s t : String) → lacks c s ≡ true → before_char c t ≡ "" → before_char c (s <> t) ≡ s
before_char-append c String.[] t h ends = ap (before_char c) (append.nil t) ∙ ends
before_char-append c (String.◌∷◌ d s) t h ends = elim (Bool-cases (code d == code c)) [
  | inl same ↦ ground arith
  | inr apart ↦
      ap (before_char c) (append.cons d s t)
      ∙ before_char-cons c d (s <> t) apart
      ∙ ap (String.◌∷◌ d) (before_char-append c s t (ground arith) ends)
]

before_char-closing : (notes : String) → before_char "]" ("] " <> notes) ≡ ""
unfolding before_char
before_char-closing notes = ap (before_char "]") (append.cons "]" " " notes)

resolver-noted_of :
    (name notes : String)
    → lacks "]" name ≡ true
    → before_char "]" ("[" <> (name <> ("] " <> notes))) ≡ String.◌∷◌ "[" name
resolver-noted_of name notes h =
    ap (before_char "]") (
      append.cons "[" "" (name <> ("] " <> notes))
      ∙ ap (String.◌∷◌ "[") (append.nil (name <> ("] " <> notes))))
    ∙ before_char-cons "]" "[" (name <> ("] " <> notes)) refl
    ∙ ap (String.◌∷◌ "[")
        (before_char-append "]" name ("] " <> notes) h (before_char-closing notes))

resolver-noted :
    (action : ResolutionAction) (notes : String)
    → trim_start "[" (before_char "]" (noted action notes)) ≡ action_as_str action
unfolding trim_start action_as_str
resolver-noted correct_internal notes =
    ap (trim_start "[") (resolver-noted_of "correct_internal" notes refl)
resolver-noted correct_external notes =
    ap (trim_start "[") (resolver-noted_of "correct_external" notes refl)
resolver-noted create_adjustment notes =
    ap (trim_start "[") (resolver-noted_of "create_adjustment" notes refl)
resolver-noted ignore notes = ap (trim_start "[") (resolver-noted_of "ignore" notes refl)
resolver-noted escalate notes = ap (trim_start "[") (resolver-noted_of "escalate" notes refl)
resolver-noted approve notes = ap (trim_start "[") (resolver-noted_of "approve" notes refl)

resolved-resolution_text :
    (action : ResolutionAction)
    → str_eq (resolution_text action) "resolved" ≡ not (is_escalate action)
unfolding resolution_text
resolved-resolution_text correct_internal = refl
resolved-resolution_text correct_external = refl
resolved-resolution_text create_adjustment = refl
resolved-resolution_text ignore = refl
resolved-resolution_text escalate = refl
resolved-resolution_text approve = refl

resolution_of-resolution_text :
    (action : ResolutionAction)
    → resolution_of (resolution_text action)
      ≡ some (if is_escalate action then escalate else approve)
unfolding resolution_of resolution_text
resolution_of-resolution_text correct_internal = refl
resolution_of-resolution_text correct_external = refl
resolution_of-resolution_text create_adjustment = refl
resolution_of-resolution_text ignore = refl
resolution_of-resolution_text escalate = refl
resolution_of-resolution_text approve = refl

module _ (dec : Decimal) (env : Env) where
  open dec use {Amount}

  id-resolve_row :
      (id : ℕ) (action : ResolutionAction) (notes by : String) (now : ℕ) (row : MismatchRow)
      → (resolve_row dec env id action notes by now row).mismatch_id ≡ row.mismatch_id
  unfolding resolve_row
  id-resolve_row id action notes by now row = ground arith

  find_if-resolve_row :
      (test : ℕ → Bool) (id : ℕ) (action : ResolutionAction) (notes by : String) (now : ℕ)
      (rows : List MismatchRow) (row : MismatchRow)
      → find_if (λ r. test r.mismatch_id && r.mismatch_id == id) rows ≡ some row
      → find_if
          (λ r. test r.mismatch_id && r.mismatch_id == id)
          (map (resolve_row dec env id action notes by now) rows)
        ≡ some (resolve_row dec env id action notes by now row)
  find_if-resolve_row test id action notes by now [] row h = cc
  find_if-resolve_row test id action notes by now (r ∷ rows) row h = ground (
    arith,
    id-resolve_row id action notes by now r,
    find_if-resolve_row test id action notes by now rows row,
  )

  -- the row that the tenant reads after the update
  abbrev pub resolved_row : ResolutionAction → String → String → ℕ → MismatchRow → MismatchRow
  resolved_row action notes by now row = record row {
    resolution_status = resolution_text action;
    resolution_notes = noted action notes;
    resolved_by = env.account_of by;
    resolved_at = some now;
  }

  resolve_row_lem :
      (action : ResolutionAction) (notes by : String) (now : ℕ) (row : MismatchRow)
      → env.visible none row.mismatch_id ≡ true
      → resolve_row dec env row.mismatch_id action notes by now row
        ≡ resolved_row action notes by now row
  unfolding resolve_row
  resolve_row_lem action notes by now row seen = ground (arith, nat_refl row.mismatch_id)

  update_item_resolution_lem :
      (id : ℕ) (action : ResolutionAction) (notes by : String) (w : World)
      → env.fault w.statements ≡ none
      → update_item_resolution dec env id action notes by w ≡ (
        ok tt,
        record w {
          mismatches =
              map
                (resolve_row dec env id action notes by (env.now (suc w.statements)))
                w.mismatches;
          statements = suc w.statements;
        },
      )
  unfolding update_item_resolution execute
  update_item_resolution_lem id action notes by w up = ground arith

  map_item_row-resolved_row :
      (action : ResolutionAction) (notes by : String) (now : ℕ) (row : MismatchRow)
      → map_item_row dec env (resolved_row action notes by now row)
        ≡ record (map_item_row dec env row) {
          resolved = not (is_escalate action);
          resolution_action = some (if is_escalate action then escalate else approve);
          resolved_by = some (action_as_str action);
          resolved_at = some now;
          notes = some (noted action notes);
        }
  unfolding map_item_row
  map_item_row-resolved_row action notes by now row =
      let settled = resolved-resolution_text action in
      let read = resolution_of-resolution_text action in
      let resolver = resolver-noted action notes in cc

  resolve_discrepancy_step :
      (item_id run_id tenant_id : ℕ) (action : ResolutionAction) (notes by : String) (w w' : World)
      → update_item_resolution dec env item_id action notes by w ≡ (ok tt, w')
      → resolve_discrepancy dec env item_id run_id tenant_id action notes by w
        ≡ get_item dec env item_id tenant_id w'
  unfolding resolve_discrepancy
  resolve_discrepancy_step item_id run_id tenant_id action notes by w w' updated = ground arith

  -- Where the tenant finds a row with the identifier, the update sees it too and no statement fails:
  -- `resolve_discrepancy` answers the item of that row, resolved unless the action is `Escalate`,
  -- with the notes behind the action's name in brackets. The action in it is `Escalate` or else
  -- `Approve`, whichever action was taken, and its resolver is the action's name, whoever resolved
  -- it.
  pub resolve_discrepancy_lem :
      (item_id run_id tenant_id : ℕ) (action : ResolutionAction) (notes by : String) (w : World)
      (row : MismatchRow)
      → ((n : ℕ) → env.fault n ≡ none)
      → env.visible none row.mismatch_id ≡ true
      → row.mismatch_id ≡ item_id
      → find_if
          (λ r. env.visible (some tenant_id) r.mismatch_id && r.mismatch_id == item_id)
          w.mismatches
        ≡ some row
      → (w' : World) × (now : ℕ) × (resolve_discrepancy dec env item_id run_id tenant_id action
            notes by w
          ≡ (
            ok (record (map_item_row dec env row) {
              resolved = not (is_escalate action);
              resolution_action = some (if is_escalate action then escalate else approve);
              resolved_by = some (action_as_str action);
              resolved_at = some now;
              notes = some (noted action notes);
            }),
            w',
          ))
  resolve_discrepancy_lem item_id run_id tenant_id action notes by w row up seen named found =
      let now = env.now (suc w.statements) in
      let new = resolved_row action notes by now row in
      let w' : World = record w {
        mismatches = map (resolve_row dec env item_id action notes by now) w.mismatches;
        statements = suc w.statements;
      } in
      let changed : resolve_row dec env item_id action notes by now row ≡ new =
        subst (λ id. resolve_row dec env id action notes by now row ≡ new) named
          (resolve_row_lem action notes by now row seen) in
      let kept =
        find_if-resolve_row (env.visible (some tenant_id)) item_id action notes by now w.mismatches
          row found
        ∙ ap some changed in
      let updated = update_item_resolution_lem item_id action notes by w (up w.statements) in
      let read =
        get_item_lem dec env item_id tenant_id w' new (up w'.statements) (up (suc w'.statements))
          kept in
      let final = record w' { statements = suc (suc w'.statements) } in
      (
        final,
        now,
        resolve_discrepancy_step item_id run_id tenant_id action notes by w w' updated
            ∙ read
            ∙ ap (λ i. (ok i, final)) (map_item_row-resolved_row action notes by now row),
      )

  -- how many of the next statements the database runs without an error
  abbrev pub successes : ℕ → ℕ → ℕ
  successes start zero = 0
  successes start (suc n) =
      let rest = successes (suc start) n in
      elim (env.fault start) [ none ↦ suc rest | some message ↦ rest ]

  update_item_resolution_down :
      (id : ℕ) (action : ResolutionAction) (notes by : String) (w : World) (m : String)
      → env.fault w.statements ≡ some m
      → update_item_resolution dec env id action notes by w
        ≡ (err (database_error m), record w { statements = suc w.statements })
  unfolding update_item_resolution execute
  update_item_resolution_down id action notes by w m down = ground arith

  bulk_from_lem :
      (ids : List ℕ) (action : ResolutionAction) (notes by : String) (count : ℕ) (w : World)
      → (w' : World) × (bulk_from dec env ids action notes by (pos count) w
          ≡ (ok (pos (count + successes w.statements (length ids))), w'))
        × (w'.statements ≡ w.statements + length ids)
  unfolding bulk_from ◌+ℤ◌
  bulk_from_lem [] action notes by count w = (w, ground arith, omega arith)
  bulk_from_lem (id ∷ ids) action notes by count w = elim (Option-cases (env.fault w.statements)) [
    | inl up ↦
        let updated = update_item_resolution_lem id action notes by w up in
        let next : World = record w {
          mismatches =
              map (resolve_row dec env id action notes by (env.now (suc w.statements)))
                w.mismatches;
          statements = suc w.statements;
        } in
        let (w', ran, counted) = bulk_from_lem ids action notes by (suc count) next in
        let moved : count + suc (successes (suc w.statements) (length ids))
            ≡ suc count + successes (suc w.statements) (length ids) =
          omega arith in
        (w', ground arith, omega (arith, counted))
    | inr (m, down) ↦
        let updated = update_item_resolution_down id action notes by w m down in
        let next : World = record w { statements = suc w.statements } in
        let (w', ran, counted) = bulk_from_lem ids action notes by count next in
        (w', ground arith, omega (arith, counted))
  ]

  -- `bulk_resolve_discrepancies` always answers, after one statement for each identifier, and its
  -- count is the number of those statements that the database has run without an error, whether or
  -- not a row has the identifier.
  pub bulk_resolve_discrepancies_count :
      (run_id tenant_id : ℕ) (ids : List ℕ) (action : ResolutionAction) (notes by : String)
      (w : World)
      → (w' : World) × (bulk_resolve_discrepancies dec env run_id tenant_id ids action notes by w
          ≡ (ok (pos (successes w.statements (length ids))), w'))
        × (w'.statements ≡ w.statements + length ids)
  unfolding bulk_resolve_discrepancies
  bulk_resolve_discrepancies_count run_id tenant_id ids action notes by w =
      let (w', ran, counted) = bulk_from_lem ids action notes by 0 w in
      let none_before : 0 + successes w.statements (length ids)
          ≡ successes w.statements (length ids) =
        omega arith in
      (w', ran ∙ ap (λ n. (ok (pos n), w')) none_before, counted)
