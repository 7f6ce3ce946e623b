-- ===== src/Prelude/Effect.antt =====
-- Computations over a world that may fail: a result, and the world that is left. A failure keeps
-- what was done before it, as a statement that has run is not undone by a later error.
use ussd_polyglot.Prelude.Result.{Result, ok, err}

abbrev pub Effect : Type 0 → Type 0 → Type 0 → Type 0
Effect W E A = W → Result E A × W

module _ {W E : Type 0} where
  infixl 5 ◌>>=◌ ◌>>◌
  abbrev pub ◌>>=◌ : {A B : Type 0} → Effect W E A → (A → Effect W E B) → Effect W E B
  ◌>>=◌ m f w = let (r, w') = m w in elim r [ ok a ↦ f a w' | err e ↦ (err e, w') ]

  abbrev pub ◌>>◌ : {A B : Type 0} → Effect W E A → Effect W E B → Effect W E B
  m >> k = m >>= λ _. k

  abbrev pub pure : {A : Type 0} → A → Effect W E A
  pure a w = (ok a, w)

  abbrev pub raise : {A : Type 0} → E → Effect W E A
  raise e w = (err e, w)

  abbrev pub lift : {A : Type 0} → Result E A → Effect W E A
  lift r w = (r, w)

  -- `.ok()` on an awaited result: the error is dropped, what was done stays done
  abbrev pub ignore : {A : Type 0} → Effect W E A → Effect W E (Unit {0})
  ignore m w = (ok tt, (m w).1)
