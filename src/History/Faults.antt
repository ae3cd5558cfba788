-- ===== src/History/Faults.antt =====
-- Where a history comes to a step that C leaves undefined.
use dam_monitoring.History.{run, run_cons, run-append}
use dam_monitoring.Prelude.{
  ◌≡◌, refl, sym, ap, ◌∙◌, List, [], ◌∷◌, ◌++◌, Option, none, some, ◌>>=◌, inl, inr, Option-cases,
  ◌↔◌,
}

module _ {S I : Type 0} (step : I → S → Option S) where
  -- A history that comes to an input at which a property holds of the state before it.
  pub record Meets (P : I → S → Type 0) (is : List I) (s : S) : Type 0 where
    before : List I
    input : I
    after : List I
    state : S
    split : is ≡ before ++ input ∷ after
    reached : run step before s ≡ some state
    holds : P input state

  undefined_after : (i : I) (is : List I) (s : S) → step i s ≡ none → run step (i ∷ is) s ≡ none
  unfolding run
  undefined_after i is s e = ap (λ o. o >>= run step is) e

  one_later :
      (P : I → S → Type 0) (i : I) (is : List I) (s s' : S)
      → step i s ≡ some s'
      → Meets P is s'
      → Meets P (i ∷ is) s
  one_later P i is s s' e m = record {
    before = i ∷ m.before;
    input = m.input;
    after = m.after;
    state = m.state;
    split = ap (λ l. i ∷ l) m.split;
    reached = run_cons step i m.before s s' e m.reached;
    holds = m.holds;
  }

  first_fault : (is : List I) (s : S) → run step is s ≡ none → Meets (λ i s'. step i s' ≡ none) is s
  unfolding run
  first_fault [] s h = cc
  first_fault (i ∷ is) s h = elim (Option-cases (step i s)) [
    | inl e ↦ record {
      before = [];
      input = i;
      after = is;
      state = s;
      split = refl;
      reached = refl;
      holds = e;
    }
    | inr (s1, e) ↦
        one_later (λ j s'. step j s' ≡ none) i is s s1 e
          (first_fault is s1 (sym (run_cons step i is s s1 e refl) ∙ h))
  ]

  -- Where the steps that are undefined from the states a history reaches are known, so are the
  -- histories that are.
  pub run_faults :
      (P : I → S → Type 0) (V : S → Type 0) (s : S)
      → ((is : List I) (s' : S) → run step is s ≡ some s' → V s')
      → ((i : I) (s' : S) → V s' → (step i s' ≡ none) ↔ P i s')
      → (is : List I) → (run step is s ≡ none) ↔ Meets P is s
  run_faults P V s reach faults is = (
    λ h.
        let m = first_fault is s h in
        record {
          before = m.before;
          input = m.input;
          after = m.after;
          state = m.state;
          split = m.split;
          reached = m.reached;
          holds = (faults m.input m.state (reach m.before m.state m.reached)).0 m.holds;
        },
    λ m.
        let undefined = (faults m.input m.state (reach m.before m.state m.reached)).1 m.holds in
        ap (λ l. run step l s) m.split
        ∙ run-append step m.before (m.input ∷ m.after) s m.reached
        ∙ undefined_after m.input m.after m.state undefined,
  )
