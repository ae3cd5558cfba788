-- ===== src/History.antt =====
-- Histories: a process as a step for each input, run over a list of inputs. `none` is a step that C
-- leaves undefined, and so is every history through it.
pub mod Faults
use dam_monitoring.Prelude.{
  ◌≡◌, refl, ap, ◌∙◌, List, [], ◌∷◌, ◌++◌, Option, none, some, ◌>>=◌, >>=-eq-some, eq_of_some,
}
use mathlib.Core.Path.{subst}

-- A property of each input of a history.
abbrev pub All {ℓ κ} : {I : Type ℓ} → (I → Type κ) → List I → Type κ
All P [] = Unit
All P (i ∷ is) = P i × All P is

module _ {S I : Type 0} (step : I → S → Option S) where
  unfoldable pub run : List I → S → Option S
  run [] s = some s
  run (i ∷ is) s = step i s >>= run is

  pub run_cons :
      (i : I) (is : List I) (s s' : S) {t : Option S}
      → step i s ≡ some s'
      → run is s' ≡ t
      → run (i ∷ is) s ≡ t
  unfolding run
  run_cons i is s s' e h = ap (λ o. o >>= run is) e ∙ h

  pub run_last : (i : I) (s s' : S) → step i s ≡ some s' → run (i ∷ []) s ≡ some s'
  unfolding run
  run_last i s s' e = ap (λ o. o >>= run []) e

  -- A history goes on from where another has led.
  pub run-append :
      (is js : List I) (s : S) {s' : S} → run is s ≡ some s' → run (is ++ js) s ≡ run js s'
  unfolding run
  run-append [] js s h = ap (run js) (eq_of_some h)
  run-append (i ∷ is) js s h =
      let (s1, first, rest) = >>=-eq-some (step i s) (run is) h in
      run_cons i (is ++ js) s s1 first (run-append is js s1 rest)

  -- What every step keeps, every history keeps.
  pub run_keeps :
      (P : S → Type 0)
      → ((i : I) (s s' : S) → P s → step i s ≡ some s' → P s')
      → (is : List I) (s : S) {s' : S} → P s
      → run is s ≡ some s'
      → P s'
  unfolding run
  run_keeps P keep [] s v h = subst P (eq_of_some h) v
  run_keeps P keep (i ∷ is) s v h =
      let (s1, first, rest) = >>=-eq-some (step i s) (run is) h in
      run_keeps P keep is s1 (keep i s s1 v first) rest

module _ {S I A : Type 0} (step : I → S → Option S) (emits : I → S → List A) where
  -- What a history emits, the first one first. `emits` is what one input does.
  unfoldable pub emitted : List I → S → List A
  emitted [] s = []
  emitted (i ∷ is) s = emits i s ++ elim (step i s) [ none ↦ [] | some s' ↦ emitted is s' ]

  pub emitted_cons :
      (i : I) (is : List I) (s s' : S)
      → step i s ≡ some s'
      → emitted (i ∷ is) s ≡ emits i s ++ emitted is s'
  unfolding emitted
  emitted_cons i is s s' e = rw e refl

-- Two processes of which each step of one is a step of the other through a view.
module _ {S T I : Type 0} (view : S → T) (step_s : I → S → Option S) (step_t : I → T → Option T)
    (agree : (i : I) (s : S) → (step_s i s >>= λ x. some (view x)) ≡ step_t i (view s)) where
  bind_view :
      (is : List I) (o : Option S) {t : Option T}
      → ((s : S) → (run step_s is s >>= λ x. some (view x)) ≡ run step_t is (view s))
      → (o >>= λ x. some (view x)) ≡ t
      → ((o >>= run step_s is) >>= λ x. some (view x)) ≡ (t >>= run step_t is)
  bind_view is none {t} ih e = ap (λ o. o >>= run step_t is) e
  bind_view is (some s) {t} ih e = ih s ∙ ap (λ o. o >>= run step_t is) e

  pub run_agrees :
      (is : List I) (s : S) → (run step_s is s >>= λ x. some (view x)) ≡ run step_t is (view s)
  unfolding run
  run_agrees [] s = refl
  run_agrees (i ∷ is) s = bind_view is (step_s i s) (run_agrees is) (agree i s)
