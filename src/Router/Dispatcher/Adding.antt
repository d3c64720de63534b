-- ===== src/Router/Dispatcher/Adding.antt =====
-- Where added middleware runs (x/router/dispatcher.go, `AddMiddleware`).
use sardis.Common.{
  Option, none, some, ◌≡◌, refl, sym, ap, ◌∙◌, inl, inr, List, [], ◌∷◌, ◌++◌, if◌then◌else◌,
  Bool-cases, ◌==◌,
}
use sardis.Router.Model.{Protocol, protocol_comparable, Error, Message, Middleware}
use sardis.Router.Dispatcher.{
  Runtime, Dispatcher, run_chain, do_chain, add_middleware, do_middleware,
}
use sardis.Router.Dispatcher.Chain.{Outcome, run_chain-Outcome, and_then, run_chain-append}

module _ {W P : Type 0} (rt : Runtime W P) where
  do_chain-from :
      (fs : List (Middleware W P)) (w : W) (req : Message P)
      (c : W × Message P × List (Option Error))
      → run_chain fs w req ≡ c
      → do_chain rt.erc fs w req ≡ (c.0, c.1, rt.erc.resolve c.2)
  unfolding do_chain
  do_chain-from fs w req c ran = ap (λ d. (d.0, d.1, rt.erc.resolve d.2)) ran

  -- Goes on with one more middleware unless there was an error.
  abbrev continue_with :
      Middleware W P → W × Message P × Option Error → W × Message P × Option Error
  continue_with f (w, req, some e) = (w, req, some e)
  continue_with f (w, req, none) = do_chain rt.erc (f ∷ []) w req

  add_middleware-items :
      (fs : List (Middleware W P)) (f : Middleware W P) (w : W) (req : Message P)
      (c : W × Message P × List (Option Error))
      → run_chain fs w req ≡ c
      → Outcome fs w req c
      → do_chain rt.erc (fs ++ f ∷ []) w req ≡ continue_with f (c.0, c.1, rt.erc.resolve c.2)
  add_middleware-items fs f w req (w', x', ps) ran outcome =
      let fs' = fs ++ f ∷ [] in
      let both = run_chain-append fs (f ∷ []) w req ∙ ap (λ c. and_then c (f ∷ [])) ran in
      elim outcome [
        | inl (runs, h) ↦
            rw (h, rt.erc.resolve-none [] tt)
              (do_chain-from fs' w req (run_chain (f ∷ []) w' x')
                  (both ∙ ap (λ os. and_then (w', x', os) (f ∷ [])) h)
                ∙ sym (do_chain-from (f ∷ []) w' x' (run_chain (f ∷ []) w' x') refl))
        | inr (e, stops, h) ↦
            let (err, found, is) = rt.erc.resolve-some (some e ∷ []) e (inl refl) in
            rw (h, found)
              (do_chain-from fs' w req (w', x', some e ∷ [])
                  (both ∙ ap (λ os. and_then (w', x', os) (f ∷ [])) h)
                ∙ ap (λ o. (w', x', o)) found)
      ]

  -- Middleware that is added to a key runs for this key after all that was added before, if they
  -- made no error; the middleware of the other keys stays as it was.
  do_middleware-add_middleware :
      (key j : Protocol) (f : Middleware W P) (r : Dispatcher rt) (w : W) (req : Message P)
      → let before = do_middleware rt r j w req in
        do_middleware rt (add_middleware rt key f r) j w req
        ≡ (if key == j then continue_with f before else before)
  unfolding do_middleware add_middleware
  do_middleware-add_middleware key j f r w req =
      let fs = rt.middleware_chains.items j r.middleware in
      rw (rt.middleware_chains.items-push key j f r.middleware) (elim (Bool-cases (key == j)) [
        | inl same ↦ rw same (
            add_middleware-items fs f w req (run_chain fs w req) refl (run_chain-Outcome fs w req)
            ∙ ap (continue_with f) (sym (do_chain-from fs w req (run_chain fs w req) refl)))
        | inr other ↦ rw other refl
      ])
