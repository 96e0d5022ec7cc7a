-- ===== src/Constants/Scenario.antt =====
-- The life cycle of a scenario as a graph.
use cert_rollover_impact_ass.Prelude.{
  ◌≡◌, ◌⊎◌, refl, true, false, List, [], ◌∷◌, Memᴰ, Memᴰ-here, Memᴰ-there, arith, inl, inr, ◌↔◌,
}
use cert_rollover_impact_ass.Constants.{
  ScenarioState, draft, simulated, ready, executing, verified, rollback, can_transition_scenario,
}

-- the states passed through, the first and the last included
pub data Course : ScenarioState → List ScenarioState → ScenarioState → Type 0 where
  rest : {s : ScenarioState} → Course s (s ∷ []) s
  move :
      {s t u : ScenarioState} {path : List ScenarioState}
      → can_transition_scenario s t ≡ true
      → Course t path u
      → Course s (s ∷ path) u

-- the states that a course from `s` to `verified` has to pass
abbrev pub Must : ScenarioState → List ScenarioState → Type 0
Must draft path = Memᴰ simulated path × Memᴰ ready path × Memᴰ executing path
Must simulated path = Memᴰ simulated path × Memᴰ ready path × Memᴰ executing path
Must ready path = Memᴰ ready path × Memᴰ executing path
Must executing path = Memᴰ executing path
Must verified path = Unit
Must rollback path = ⊥

Must-before :
    (s t : ScenarioState) (path : List ScenarioState)
    → can_transition_scenario s t ≡ true
    → Must t path
    → Must s (s ∷ path)
unfolding can_transition_scenario
Must-before draft simulated path ok (s, r, x) =
    (Memᴰ-there draft s, Memᴰ-there draft r, Memᴰ-there draft x)
Must-before simulated ready path ok (r, x) =
    (Memᴰ-here simulated path, Memᴰ-there simulated r, Memᴰ-there simulated x)
Must-before simulated draft path ok (s, r, x) =
    (Memᴰ-there simulated s, Memᴰ-there simulated r, Memᴰ-there simulated x)
Must-before ready executing path ok x = (Memᴰ-here ready path, Memᴰ-there ready x)
Must-before ready draft path ok (s, r, x) = (Memᴰ-here ready path, Memᴰ-there ready x)
Must-before executing verified path ok m = Memᴰ-here executing path
Must-before executing rollback path ok m = absurd m
Must-before _ _ path ok m = cc

Must-pass :
    {s u : ScenarioState} {path : List ScenarioState} → u ≡ verified → Course s path u → Must s path
Must-pass {u = u} e rest = at_end u e
  where
    at_end : (u : ScenarioState) → u ≡ verified → Must u (u ∷ [])
    at_end verified e = tt
    at_end draft e = cc
    at_end simulated e = cc
    at_end ready e = cc
    at_end executing e = cc
    at_end rollback e = cc
Must-pass {s} e (move {t} {path} ok c) = Must-before s t path ok (Must-pass e c)

-- However often a scenario is sent back, it is verified only after it was simulated, made ready and
-- executed.
pub verified_after_all :
    (path : List ScenarioState)
    → Course draft path verified
    → Memᴰ simulated path × Memᴰ ready path × Memᴰ executing path
verified_after_all path c = Must-pass refl c

-- Verified and rolled back are final: no transition leaves them, and every other state has one.
pub final_iff :
    (s : ScenarioState)
    → ((t : ScenarioState) → can_transition_scenario s t ≡ false)
      ↔ ((s ≡ verified) ⊎ (s ≡ rollback))
unfolding can_transition_scenario
final_iff verified = (λ _. inl refl, λ _ t. refl)
final_iff rollback = (λ _. inr refl, λ _ t. refl)
final_iff draft = (λ h. let x = h simulated in cc, λ e. ground arith)
final_iff simulated = (λ h. let x = h ready in cc, λ e. ground arith)
final_iff ready = (λ h. let x = h executing in cc, λ e. ground arith)
final_iff executing = (λ h. let x = h verified in cc, λ e. ground arith)
