-- ===== src/Router/Dispatcher/Requests.antt =====
-- The work on a message (x/router/dispatcher.go, `registerMiddlwareService` with `doMiddleware`
-- and `doHandler`), from what its middleware and its handler do.
use sardis.Common.{
  Option, none, some, ◌≡◌, refl, ◌⊎◌, inl, inr, List, [], ◌∷◌, ◌++◌, arith, if◌then◌else◌, String,
}
use sardis.Router.Model.{
  Protocol, zero_protocol, is_zero, protocol_comparable, Error, routed, Message, Response,
  zero_response, Filter, Middleware,
}
use sardis.Router.Dispatcher.{
  Runtime, Dispatcher, after, run_chain, do_chain, do_middleware, do_handler, finish,
  process_message,
}
use sardis.Router.Dispatcher.Chain.{
  Runs, done, step, Stops, fails, later, run_chain-Outcome, and_then, run_chain-append,
}

module _ {W X : Type 0} where
  run_chain-Runs :
      (fs : List (Filter W X)) (w : W) (x : X) (w' : W) (x' : X)
      → Runs fs w x w' x'
      → run_chain fs w x ≡ (w', x', [])
  unfolding run_chain after
  run_chain-Runs [] w x w' x' done = refl
  run_chain-Runs (f ∷ fs) w x w' x' (step called runs) =
      rw called (run_chain-Runs fs _ _ w' x' runs)

  run_chain-Stops :
      (fs : List (Filter W X)) (w : W) (x : X) (w' : W) (x' : X) (e : Error)
      → Stops fs w x w' x' e
      → run_chain fs w x ≡ (w', x', some e ∷ [])
  unfolding run_chain after
  run_chain-Stops [] w x w' x' e h = elim h [ ]
  run_chain-Stops (f ∷ fs) w x w' x' e (fails (inl called)) = rw called refl
  run_chain-Stops (f ∷ fs) w x w' x' e (fails (inr called)) = rw called refl
  run_chain-Stops (f ∷ fs) w x w' x' e (later called stops) =
      rw called (run_chain-Stops fs _ _ w' x' e stops)

module _ {W P : Type 0} (rt : Runtime W P) where
  -- The middleware that a message of a protocol passes: the protocol's own, then the general.
  abbrev pub middleware_for : Dispatcher rt → Protocol → List (Middleware W P)
  middleware_for r key =
      rt.middleware_chains.items key r.middleware
      ++ rt.middleware_chains.items zero_protocol r.middleware

  -- A response under the label of the request, unless it has a protocol of its own.
  abbrev pub labelled : String → Protocol → Response P → Response P
  labelled id protocol resp = record resp {
    id = id;
    protocol = if is_zero resp.protocol then protocol else resp.protocol;
  }

  -- The end of a message's work, from the chain's result and what it resolves to.
  abbrev settled :
      Dispatcher rt
      → Message P
      → W × Message P × List (Option Error)
      → Option Error
      → W × Response P
  settled r req c err = elim err [
    | some e ↦ finish rt req.id req.protocol c.0 (some e) (record zero_response { error = some e })
    | none ↦
        let d = do_handler rt r req.protocol c.0 c.1 in finish rt req.id req.protocol d.0 none d.1
  ]

  settled-and_then :
      (r : Dispatcher rt) (w : W) (req : Message P) (c : W × Message P × List (Option Error))
      → run_chain (rt.middleware_chains.items req.protocol r.middleware) w req ≡ c
      → (c.2 ≡ []) ⊎ ((e : Error) × (c.2 ≡ some e ∷ []))
      → let gs = rt.middleware_chains.items zero_protocol r.middleware in
        let d = and_then c gs in process_message rt r w req ≡ settled r req d (rt.erc.resolve d.2)
  unfolding process_message do_middleware do_chain
  settled-and_then r w req (w1, x1, []) ran _ =
      rw ran (rw (rt.erc.resolve-none [] tt) (ground arith))
  settled-and_then r w req (w1, x1, p ∷ ps) ran (inl h) = ground arith
  settled-and_then r w req (w1, x1, p ∷ ps) ran (inr (e, h)) =
      let (err, found, is) = rt.erc.resolve-some (some e ∷ []) e (inl refl) in
      rw (ran, h, found) (ground arith)

  -- In other words: the two chains are one chain, the protocol's middleware first.
  process_message-settled :
      (r : Dispatcher rt) (w : W) (req : Message P)
      → let c = run_chain (middleware_for r req.protocol) w req in
        process_message rt r w req ≡ settled r req c (rt.erc.resolve c.2)
  process_message-settled r w req =
      let fs = rt.middleware_chains.items req.protocol r.middleware in
      let c = run_chain fs w req in
      rw (run_chain-append fs (rt.middleware_chains.items zero_protocol r.middleware) w req) (
        settled-and_then r w req c refl
          (elim (run_chain-Outcome fs w req) [ inl o ↦ inl o.1 | inr o ↦ inr (o.0, o.2) ]))

  -- A message whose middleware all runs without an error, the protocol's own before the general,
  -- is answered by the handler of the protocol it was sent with, which is given the message as
  -- the middleware left it. The response keeps the handler's payload and error; its identifier is
  -- that of the message as it was sent, and so is its protocol unless the handler set one. The
  -- error observer is not called, whatever the handler's error.
  pub process_message-handled :
      (r : Dispatcher rt) (w : W) (req : Message P) (w' : W) (req' : Message P)
      → Runs (middleware_for r req.protocol) w req w' req'
      → let d = do_handler rt r req.protocol w' req' in
        process_message rt r w req ≡ (d.0, labelled req.id req.protocol d.1)
  unfolding finish
  process_message-handled r w req w' req' runs =
      rw
        (
          process_message-settled r w req,
          run_chain-Runs (middleware_for r req.protocol) w req w' req' runs,
          rt.erc.resolve-none [] tt,
        )
        refl

  -- Where a middleware returns an error or panics with one, no handler runs and no later
  -- middleware: the response is empty but for the identifier and the protocol that the message
  -- was sent with and an error, which names both and wraps one that is the middleware's error; and
  -- the observer is called with that error, on the state that the middleware left.
  pub process_message-failed :
      (r : Dispatcher rt) (w : W) (req : Message P) (w' : W) (req' : Message P) (e : Error)
      → Stops (middleware_for r req.protocol) w req w' req' e
      → (err : Error) × rt.erc.Is err e
        × (let seen = routed req.id req.protocol err in
            process_message rt r w req ≡ (
              rt.observe seen w',
              record { protocol = req.protocol; id = req.id; payload = none; error = some seen },
            ))
  unfolding finish is_zero
  process_message-failed r w req w' req' e stops =
      let (err, found, is) = rt.erc.resolve-some (some e ∷ []) e (inl refl) in
      (
        err,
        is,
        rw
            (
              process_message-settled r w req,
              run_chain-Stops (middleware_for r req.protocol) w req w' req' e stops,
              found,
            )
            refl,
      )
