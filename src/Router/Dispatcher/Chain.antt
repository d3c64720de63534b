-- ===== src/Router/Dispatcher/Chain.antt =====
-- How the filters of one key run (x/router/dispatcher.go, `doMiddleware` and `doIntercept`).
use sardis.Common.{Option, none, some, ◌≡◌, refl, ap, ◌∙◌, ◌⊎◌, inl, inr, List, [], ◌∷◌, ◌++◌}
use sardis.Router.Model.{protocol_comparable, Error, Called, returned, panicked, Filter}
use sardis.Router.Dispatcher.{after, run_chain}

module _ {W X : Type 0} where
  -- The filters run on, one after the other, each without an error.
  pub data Runs : List (Filter W X) → W → X → W → X → Type 0 where
    done : {w : W} {x : X} → Runs [] w x w x
    step :
        {f : Filter W X} {fs : List (Filter W X)} {w w' w'' : W} {x x' x'' : X}
        → f w x ≡ (w', x', returned none)
        → Runs fs w' x' w'' x''
        → Runs (f ∷ fs) w x w'' x''

  -- Filters run one after the other, until one returns this error or panics with it.
  pub data Stops : List (Filter W X) → W → X → W → X → Error → Type 0 where
    fails :
        {f : Filter W X} {fs : List (Filter W X)} {w w' : W} {x x' : X} {e : Error}
        → (f w x ≡ (w', x', returned (some e))) ⊎ (f w x ≡ (w', x', panicked e))
        → Stops (f ∷ fs) w x w' x' e
    later :
        {f : Filter W X} {fs : List (Filter W X)} {w w' w'' : W} {x x' x'' : X} {e : Error}
        → f w x ≡ (w', x', returned none)
        → Stops fs w' x' w'' x'' e
        → Stops (f ∷ fs) w x w'' x'' e

  -- A result is that of a chain that ran through, or of one that stopped with an error.
  abbrev pub Outcome : List (Filter W X) → W → X → W × X × List (Option Error) → Type 0
  Outcome fs w x r =
      (Runs fs w x r.0 r.1 × (r.2 ≡ []))
      ⊎ ((e : Error) × Stops fs w x r.0 r.1 e × (r.2 ≡ some e ∷ []))

  after-Outcome :
      (f : Filter W X) (fs : List (Filter W X)) (w : W) (x : X) (r : W × X × Called (Option Error))
      → f w x ≡ r
      → Outcome fs r.0 r.1 (run_chain fs r.0 r.1)
      → Outcome (f ∷ fs) w x (after r.2 r.0 r.1 (run_chain fs r.0 r.1))
  unfolding after
  after-Outcome f fs w x (w', x', returned none) called (inl (runs, none_pushed)) =
      inl (step called runs, none_pushed)
  after-Outcome f fs w x (w', x', returned none) called (inr (e, stops, pushed)) =
      inr (e, later called stops, pushed)
  after-Outcome f fs w x (w', x', returned (some e)) called _ = inr (e, fails (inl called), refl)
  after-Outcome f fs w x (w', x', panicked e) called _ = inr (e, fails (inr called), refl)

  -- A chain either runs through and pushes nothing, or stops and pushes the one error.
  pub run_chain-Outcome :
      (fs : List (Filter W X)) (w : W) (x : X) → Outcome fs w x (run_chain fs w x)
  unfolding run_chain
  run_chain-Outcome [] w x = inl (done, refl)
  run_chain-Outcome (f ∷ fs) w x =
      after-Outcome f fs w x (f w x) refl (run_chain-Outcome fs (f w x).0 (f w x).1)

  -- Goes on with a second chain unless an error was pushed.
  abbrev pub and_then :
      W × X × List (Option Error) → List (Filter W X) → W × X × List (Option Error)
  and_then r gs = elim r.2 [ [] ↦ run_chain gs r.0 r.1 | p ∷ ps ↦ r ]

  after-and_then :
      (r : W × X × Called (Option Error)) (rest : W × X × List (Option Error))
      (gs : List (Filter W X))
      → after r.2 r.0 r.1 (and_then rest gs) ≡ and_then (after r.2 r.0 r.1 rest) gs
  unfolding after
  after-and_then (w, x, returned none) rest gs = refl
  after-and_then (w, x, returned (some e)) rest gs = refl
  after-and_then (w, x, panicked e) rest gs = refl

  -- The filters of two lists run as those of the first and then, without an error, the others.
  pub run_chain-append :
      (fs gs : List (Filter W X)) (w : W) (x : X)
      → run_chain (fs ++ gs) w x ≡ and_then (run_chain fs w x) gs
  unfolding run_chain
  run_chain-append [] gs w x = refl
  run_chain-append (f ∷ fs) gs w x =
      let r = f w x in
      ap (after r.2 r.0 r.1) (run_chain-append fs gs r.0 r.1)
      ∙ after-and_then r (run_chain fs r.0 r.1) gs
