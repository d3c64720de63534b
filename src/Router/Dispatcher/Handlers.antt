-- ===== src/Router/Dispatcher/Handlers.antt =====
-- When a handled message has no error (x/router/dispatcher.go, `doHandler`).
use sardis.Common.{Option, none, some, ◌≡◌, refl, ap, ◌∙◌, ◌↔◌, [], ◌∷◌}
use sardis.Extern.Erc.{resolve-eq-none_iff}
use sardis.Router.Model.{
  Protocol, protocol_comparable, Error, no_handler, Message, Response, zero_response, Called,
  returned, panicked, Handler,
}
use sardis.Router.Dispatcher.{Runtime, Dispatcher, call_handler, do_handler}

module _ {W P : Type 0} (rt : Runtime W P) where
  -- What a handler's success is.
  abbrev pub Succeeds : Option (Handler W P) → W → Message P → Type 0
  Succeeds found w req =
      (h : Handler W P) × (resp : Response P) × (found ≡ some h)
      × ((h w req).1 ≡ returned (resp, none))
      × (resp.error ≡ none)

  call_handler-Succeeds :
      (found : Option (Handler W P)) (w : W) (req : Message P)
      → (call_handler rt found w req).1.error ≡ none
      → Succeeds found w req
  unfolding call_handler
  call_handler-Succeeds none w req h =
      let (clash, _) = (resolve-eq-none_iff rt.erc (some no_handler ∷ [])).0 h in cc
  call_handler-Succeeds (some f) w req h = called (f w req) refl h
    where
      called :
          (c : W × Called (Response P × Option Error))
          → f w req ≡ c
          → (elim c.1 as (λ _. W × Response P) [
            | returned p ↦
                (c.0, record p.0 { error = rt.erc.resolve (none ∷ p.1 ∷ p.0.error ∷ []) })
            | panicked e ↦
                (c.0, record zero_response { error = rt.erc.resolve (none ∷ some e ∷ []) })
          ]).1.error
            ≡ none
          → Succeeds (some f) w req
      called (w', returned (resp, err)) ran h =
          let quiet = (resolve-eq-none_iff rt.erc (none ∷ err ∷ resp.error ∷ [])).0 h in
          (f, resp, refl, ap (λ c. c.1) ran ∙ ap (λ o. returned (resp, o)) quiet.1.0, quiet.1.1.0)
      called (w', panicked e) ran h =
          let clash = ((resolve-eq-none_iff rt.erc (none ∷ some e ∷ [])).0 h).1.0 in cc

  Succeeds-call_handler :
      (found : Option (Handler W P)) (w : W) (req : Message P)
      → Succeeds found w req
      → (call_handler rt found w req).1.error ≡ none
  unfolding call_handler
  Succeeds-call_handler found w req (h, resp, is, ran, quiet) =
      rw (is, call_handler, ran, quiet)
        (rt.erc.resolve-none (none ∷ none ∷ none ∷ []) (refl, (refl, (refl, tt))))

  -- A handled message's response has no error exactly when a handler is registered for the
  -- protocol, and it returns, without an error and with none in its response. An error of the
  -- handler, a panic and a missing handler all show as an error of the response.
  pub do_handler-Succeeds_iff :
      (r : Dispatcher rt) (key : Protocol) (w : W) (req : Message P)
      → ((do_handler rt r key w req).1.error ≡ none)
        ↔ Succeeds (rt.handler_table.get key r.handlers) w req
  unfolding do_handler
  do_handler-Succeeds_iff r key w req =
      let found = rt.handler_table.get key r.handlers in
      (call_handler-Succeeds found w req, Succeeds-call_handler found w req)
