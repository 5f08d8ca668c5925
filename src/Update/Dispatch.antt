-- ===== src/Update/Dispatch.antt =====
-- metric.go: `dispatch` against a plain run of the handlers.
use go_ecoflow_exporter.Base.{Text, List, [], ◌∷◌, ◌≡◌, refl, ap, arith, length}
use go_ecoflow_exporter.Update.{Outcome, MetricHandler, recovered, log_error, safe_handle, dispatch}

module _ {W U : Type 0} where
  -- Every handler called once, in order, on what the one before it left, with all outcomes kept.
  abbrev pub run_all : List (MetricHandler W U) → U → W → List Outcome × U × W
  run_all [] up w = ([], up, w)
  run_all (h ∷ hs) up w =
      let (outcome, up', w') = h up w in
      let (outcomes, up'', w'') = run_all hs up' w' in (outcome ∷ outcomes, up'', w'')

abbrev pub errors : List Outcome → List Text
errors [] = []
errors (o ∷ os) = log_error (recovered o) (errors os)

module _ {W U : Type 0} where
  length-run_all :
      (hs : List (MetricHandler W U)) (up : U) (w : W) → length (run_all hs up w).0 ≡ length hs
  length-run_all [] up w = refl
  length-run_all (h ∷ hs) up w =
      let (o, up', w') = h up w in omega (arith, length-run_all hs up' w')

  dispatch-run_all_lem :
      (hs : List (MetricHandler W U)) (up : U) (w : W)
      → dispatch hs up w ≡ (errors (run_all hs up w).0, (run_all hs up w).1, (run_all hs up w).2)
  unfolding dispatch safe_handle
  dispatch-run_all_lem [] up w = refl
  dispatch-run_all_lem (h ∷ hs) up w =
      let (outcome, up', w') = h up w in
      ap (λ (r : List Text × U × W). (log_error (recovered outcome) r.0, r.1, r.2))
        (dispatch-run_all_lem hs up' w')

  -- No handler's error or panic keeps the others from the update: each one is called, once and in
  -- order, and the errors and panics, and nothing else, are logged in that order.
  pub dispatch-run_all :
      (hs : List (MetricHandler W U)) (up : U) (w : W)
      → (dispatch hs up w ≡ (errors (run_all hs up w).0, (run_all hs up w).1, (run_all hs up w).2))
        × (length (run_all hs up w).0 ≡ length hs)
  dispatch-run_all hs up w = (dispatch-run_all_lem hs up w, length-run_all hs up w)
