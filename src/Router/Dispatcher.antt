-- ===== src/Router/Dispatcher.antt =====
-- x/router/dispatcher.go: registering callbacks, and the work on a message and on its response.
-- Each goroutine's body is a function; channels, worker pools, brokers and shutdown are not
-- modelled, and the context is alive.
pub mod Chain
pub mod Requests
pub mod Handlers
pub mod Adding
pub mod Responses
pub mod Receivers
use sardis.Common.{
  Bool, true, false, not, ◌&&◌, ◌||◌, Option, none, some, List, [], ◌∷◌, String, string_comparable,
  ◌==◌, if◌then◌else◌,
}
use sardis.Common.{◌⊎◌, inl, inr}
use sardis.Extern.Erc.{Erc}
use sardis.Extern.Tables.{Table, Chains}
use sardis.Router.Model.{
  Protocol, zero_protocol, protocol_comparable, is_zero, Error, no_handler, no_protocol, routed,
  Message, Response, zero_response, Called, returned, panicked, Filter, Middleware, Interceptor,
  Handler,
}

-- The loop of `doMiddleware` and of `doIntercept`: the value that the filters leave, and what the
-- collector is given. The first error stops it, and so does a panic, which `Recover` pushes.
module _ {W X : Type 0} where
  pub after :
      Called (Option Error) → W → X → W × X × List (Option Error) → W × X × List (Option Error)
  after (returned none) w x rest = rest
  after (returned (some e)) w x rest = (w, x, some e ∷ [])
  after (panicked e) w x rest = (w, x, some e ∷ [])

  pub run_chain : List (Filter W X) → W → X → W × X × List (Option Error)
  unfolding after
  run_chain [] w x = (w, x, [])
  run_chain (f ∷ fs) w x = let (w', x', result) = f w x in after result w' x' (run_chain fs w' x')

  unfoldable pub do_chain : Erc Error → List (Filter W X) → W → X → W × X × Option Error
  unfolding run_chain
  do_chain erc fs w x = let (w', x', pushed) = run_chain fs w x in (w', x', erc.resolve pushed)

-- The libraries that a dispatcher stands on; `join` is `erc.Join` of an error and one that may
-- be nil, and `observe` is the error observer.
pub record Runtime (W P : Type 0) : Type 1 where
  pub erc : Erc Error
  pub join : Error → Option Error → Error
  pub observe : Error → W → W
  pub handler_table : Table Protocol (Handler W P)
  pub middleware_chains : Chains Protocol (Middleware W P)
  pub interceptor_chains : Chains Protocol (Interceptor W P)

module _ {W P : Type 0} (rt : Runtime W P) where
  -- The fields of `Dispatcher` that its methods change.
  pub record Dispatcher : Type 0 where
    pub middleware : rt.middleware_chains.State
    pub interceptor : rt.interceptor_chains.State
    pub handlers : rt.handler_table.Map

  -- `NewDispatcher`, without the services that it registers.
  unfoldable pub new_dispatcher : Dispatcher
  new_dispatcher = record {
    middleware = rt.middleware_chains.empty;
    interceptor = rt.interceptor_chains.empty;
    handlers = rt.handler_table.empty;
  }

  unfoldable pub add_middleware : Protocol → Middleware W P → Dispatcher → Dispatcher
  add_middleware key it r = record r { middleware = rt.middleware_chains.push key it r.middleware }

  unfoldable pub add_interceptor : Protocol → Interceptor W P → Dispatcher → Dispatcher
  add_interceptor key it r = record r {
    interceptor = rt.interceptor_chains.push key it r.interceptor;
  }

  unfoldable pub register_handler : Protocol → Handler W P → Dispatcher → Dispatcher × Bool
  unfolding is_zero
  register_handler key hfn r =
      let (handlers', new) = rt.handler_table.set key hfn r.handlers in
      if is_zero key then (r, false) else (record r { handlers = handlers' }, new)

  unfoldable pub override_handler : Protocol → Handler W P → Dispatcher → Dispatcher
  unfolding is_zero
  override_handler key hfn r =
      if is_zero key then r else record r { handlers = rt.handler_table.put key hfn r.handlers }

  unfoldable pub do_middleware :
      Dispatcher → Protocol → W → Message P → W × Message P × Option Error
  do_middleware r key w req = do_chain rt.erc (rt.middleware_chains.items key r.middleware) w req

  unfoldable pub do_intercept :
      Dispatcher → Protocol → W → Response P → W × Response P × Option Error
  do_intercept r key w rr = do_chain rt.erc (rt.interceptor_chains.items key r.interceptor) w rr

  -- `doHandler` from the result of `handlers.Load`: the response's error is what the collector
  -- resolves to, also where the handler panics and leaves the zero response.
  unfoldable pub call_handler : Option (Handler W P) → W → Message P → W × Response P
  call_handler none w req =
      (w, record zero_response { error = rt.erc.resolve (some no_handler ∷ []) })
  call_handler (some h) w req =
      let (w', result) = h w req in
      elim result [
        | returned (resp, err) ↦
            (w', record resp { error = rt.erc.resolve (none ∷ err ∷ resp.error ∷ []) })
        | panicked e ↦ (w', record zero_response { error = rt.erc.resolve (none ∷ some e ∷ []) })
      ]

  unfoldable pub do_handler : Dispatcher → Protocol → W → Message P → W × Response P
  do_handler r key w req = call_handler (rt.handler_table.get key r.handlers) w req

  -- The end of the message worker, from the error of the middleware and the response so far.
  unfoldable pub finish : String → Protocol → W → Option Error → Response P → W × Response P
  unfolding is_zero
  finish id protocol w err resp =
      let kept = record resp {
        id = id;
        protocol = if is_zero resp.protocol then protocol else resp.protocol;
      } in
      elim err [
        | none ↦ (w, kept)
        | some e ↦ (
          rt.observe (routed id protocol e) w,
          record kept { error = some (routed id protocol e) },
        )
      ]

  -- The worker of `registerMiddlwareService`: the response that is pushed to `outgoing`.
  unfoldable pub process_message : Dispatcher → W → Message P → W × Response P
  process_message r w req =
      let (w1, req1, err1) = do_middleware r req.protocol w req in
      let (w2, req2, err2) = do_middleware r zero_protocol w1 req1 in
      let (w3, resp) = do_handler r req.protocol w2 req2 in
      elim err1 [
        | some e ↦ finish req.id req.protocol w1 (some e) (record zero_response { error = some e })
        | none ↦ elim err2 [
          | some e ↦
              finish req.id req.protocol w2 (some e) (record zero_response { error = some e })
          | none ↦ finish req.id req.protocol w3 none resp
        ]
      ]

  -- The worker of `registerProcessResponseService`: the response that is published.
  unfoldable pub process_response : Dispatcher → W → Response P → W × Response P
  process_response r w rr =
      let (w1, rr1, err1) = do_intercept r zero_protocol w rr in
      let (w2, rr2, err2) = do_intercept r rr1.protocol w1 rr1 in
      elim err1 [
        | some e ↦ (w1, record rr1 { error = some e })
        | none ↦ elim err2 [
          | some e ↦ (w2, record rr2 { error = some (rt.join e rr2.error) })
          | none ↦ (w2, rr2)
        ]
      ]

-- `populateID` of x/router/rand.go, with the identifier that would be generated.
unfoldable pub populate_id : (generated id : String) → String
populate_id generated id = if not (id == "") then id else generated

module _ {P : Type 0} where
  -- `Broadcast` up to the push to the pipe: the message that is pushed, or the error.
  unfoldable pub broadcast : (generated : String) → Message P → Message P ⊎ Error
  unfolding is_zero populate_id
  broadcast generated m =
      if is_zero m.protocol
      then inr no_protocol
      else inl (record m { id = populate_id generated m.id })

  -- The listener of `Exec`: the first response with the identifier, of those that the broker
  -- delivers.
  pub exec_listen : String → List (Response P) → Option (Response P)
  exec_listen id [] = none
  exec_listen id (resp ∷ rest) = if resp.id == id then some resp else exec_listen id rest

  -- `Subscribe`: what passes to the channel, of the responses that the broker delivers.
  subscribe : Protocol → List (Response P) → List (Response P)
  unfolding is_zero
  subscribe p [] = []
  subscribe p (resp ∷ rest) =
      let passed = subscribe p rest in
      if not (is_zero p) && not (resp.protocol == p) then passed else resp ∷ passed
