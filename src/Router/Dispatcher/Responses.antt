-- ===== src/Router/Dispatcher/Responses.antt =====
-- The work on a response (x/router/dispatcher.go, `registerProcessResponseService` with
-- `doIntercept`), and who receives it.
use sardis.Common.{
  Option, none, some, ◌≡◌, refl, inl, inr, List, [], ◌∷◌, arith, string_comparable, subst,
}
use sardis.Router.Model.{Protocol, zero_protocol, protocol_comparable, Error, Response, Interceptor}
use sardis.Router.Dispatcher.{Runtime, Dispatcher, do_chain, do_intercept, process_response}
use sardis.Router.Dispatcher.Chain.{Runs, Stops, run_chain-Outcome}

module _ {W P : Type 0} (rt : Runtime W P) where
  abbrev interceptors_for : Dispatcher rt → Protocol → List (Interceptor W P)
  interceptors_for r key = rt.interceptor_chains.items key r.interceptor

  -- What is published for a response, from what its interceptors do.
  pub data Published (r : Dispatcher rt) (w : W) (rr : Response P) : W → Response P → Type 0 where
    -- A general one failed: the response has its error and no other runs.
    refused :
        {w1 : W} {rr1 : Response P} {e err : Error}
        → Stops (interceptors_for r zero_protocol) w rr w1 rr1 e
        → rt.erc.Is err e
        → Published r w rr w1 (record rr1 { error = some err })
    -- One of the protocol that the general ones left failed: its error joins the response's own.
    annotated :
        {w1 w2 : W} {rr1 rr2 : Response P} {e err : Error}
        → Runs (interceptors_for r zero_protocol) w rr w1 rr1
        → Stops (interceptors_for r rr1.protocol) w1 rr1 w2 rr2 e
        → rt.erc.Is err e
        → Published r w rr w2 (record rr2 { error = some (rt.join err rr2.error) })
    passed :
        {w1 w2 : W} {rr1 rr2 : Response P}
        → Runs (interceptors_for r zero_protocol) w rr w1 rr1
        → Runs (interceptors_for r rr1.protocol) w1 rr1 w2 rr2
        → Published r w rr w2 rr2

  -- What one key's interceptors do, and the error that the caller sees.
  data Intercepted (r : Dispatcher rt) (key : Protocol) (w : W) (rr : Response P)
      : W × Response P × Option Error → Type 0 where
    quiet :
        {w' : W} {rr' : Response P}
        → Runs (interceptors_for r key) w rr w' rr'
        → Intercepted r key w rr (w', rr', none)
    failed :
        {w' : W} {rr' : Response P} {e err : Error}
        → Stops (interceptors_for r key) w rr w' rr' e
        → rt.erc.Is err e
        → Intercepted r key w rr (w', rr', some err)

  do_intercept-Intercepted :
      (r : Dispatcher rt) (key : Protocol) (w : W) (rr : Response P)
      → Intercepted r key w rr (do_intercept rt r key w rr)
  unfolding do_intercept do_chain
  do_intercept-Intercepted r key w rr = elim (run_chain-Outcome (interceptors_for r key) w rr) [
    | inl (runs, h) ↦ rw (h, rt.erc.resolve-none [] tt) (quiet runs)
    | inr (e, stops, h) ↦
        let (err, found, is) = rt.erc.resolve-some (some e ∷ []) e (inl refl) in
        rw (h, found) (failed stops is)
  ]

  -- The end of the work, once the protocol's interceptors ran, or none had to.
  abbrev annotate : W × Response P × Option Error → W × Response P
  annotate (w, rr, none) = (w, rr)
  annotate (w, rr, some e) = (w, record rr { error = some (rt.join e rr.error) })

  abbrev publish : Dispatcher rt → W × Response P × Option Error → W × Response P
  publish r (w, rr, none) = annotate (do_intercept rt r rr.protocol w rr)
  publish r (w, rr, some e) = (w, record rr { error = some e })

  annotate-Published :
      (r : Dispatcher rt) (w : W) (rr : Response P) (w1 : W) (rr1 : Response P)
      (c : W × Response P × Option Error)
      → Runs (interceptors_for r zero_protocol) w rr w1 rr1
      → Intercepted r rr1.protocol w1 rr1 c
      → Published r w rr (annotate c).0 (annotate c).1
  annotate-Published r w rr w1 rr1 (w2, rr2, none) runs (quiet own) = passed runs own
  annotate-Published r w rr w1 rr1 (w2, rr2, some e) runs (failed own is) = annotated runs own is

  publish-Published :
      (r : Dispatcher rt) (w : W) (rr : Response P) (c : W × Response P × Option Error)
      → Intercepted r zero_protocol w rr c
      → Published r w rr (publish r c).0 (publish r c).1
  publish-Published r w rr (w1, rr1, none) (quiet runs) =
      annotate-Published r w rr w1 rr1 (do_intercept rt r rr1.protocol w1 rr1) runs
        (do_intercept-Intercepted r rr1.protocol w1 rr1)
  publish-Published r w rr (w1, rr1, some e) (failed stops is) = refused stops is

  publish-process_response :
      (r : Dispatcher rt) (w : W) (rr : Response P)
      → publish r (do_intercept rt r zero_protocol w rr) ≡ process_response rt r w rr
  unfolding process_response
  publish-process_response r w rr = ground arith

  -- Every response that is taken from the queue is published once, as one of the three cases of
  -- `Published` says: refused by a general interceptor, annotated by one of its protocol, or as
  -- the interceptors left it.
  pub process_response-Published :
      (r : Dispatcher rt) (w : W) (rr : Response P)
      → let published = process_response rt r w rr in Published r w rr published.0 published.1
  process_response-Published r w rr =
      subst (λ c. Published r w rr c.0 c.1) (publish-process_response r w rr)
        (publish-Published r w rr (do_intercept rt r zero_protocol w rr)
          (do_intercept-Intercepted r zero_protocol w rr))
