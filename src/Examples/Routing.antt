-- ===== src/Examples/Routing.antt =====
-- A dispatcher with a counting middleware, a failing one, a handler that doubles and interceptors.
use sardis.Common.{
  ℕ, ◌+◌, Option, none, some, ◌≡◌, ◌≢◌, refl, ◌↔◌, inl, inr, [], ◌∷◌, ◌++◌, String,
  string_comparable, arith, eq_iff, All,
}
use sardis.Common.Int.{pos, int_comparable}
use sardis.Common.Maps.{load, store}
use sardis.Extern.Erc.{Erc, chain, join_all}
use sardis.Extern.Tables.{list_table, list_chains}
use sardis.Router.Model.{
  Protocol, zero_protocol, protocol_comparable, Error, foreign, routed, joined, Message, Response,
  zero_response, returned, panicked, Middleware, Interceptor, Handler,
}
use sardis.Router.Dispatcher.{
  Runtime, Dispatcher, new_dispatcher, add_middleware, add_interceptor, override_handler, do_chain,
  do_middleware, do_intercept, call_handler, do_handler, finish, process_message, process_response,
  populate_id, broadcast, exec_listen,
}
use sardis.Router.Dispatcher.Chain.{Runs, done, step, Stops, fails}
use sardis.Router.Dispatcher.Requests.{
  middleware_for, labelled, process_message-handled, process_message-failed,
}
use sardis.Router.Dispatcher.Handlers.{Succeeds, do_handler-Succeeds_iff}
use sardis.Router.Dispatcher.Responses.{Published, process_response-Published}
use sardis.Router.Dispatcher.Receivers.{exec_listen-process_message}

data Wraps : Error → Error → Type 0 where
  itself : {e : Error} → Wraps e e
  left : {a b e : Error} → Wraps a e → Wraps (joined a b) e
  right : {a b e : Error} → Wraps b e → Wraps (joined a b) e
  under : {id : String} {p : Protocol} {a e : Error} → Wraps a e → Wraps (routed id p a) e

abbrev errors : Erc Error
errors = chain joined Wraps (λ e. itself) (λ a b e h. left h) (λ a b e h. right h)

abbrev join_errors : Error → Option Error → Error
join_errors e none = e
join_errors e (some f) = joined e f

-- The callbacks count their calls.
abbrev runtime : Runtime ℕ ℕ
runtime = record {
  erc = errors;
  join = join_errors;
  observe = λ e w. w + 100;
  handler_table = list_table;
  middleware_chains = list_chains;
  interceptor_chains = list_chains;
}

abbrev doubling : Protocol
doubling = record { schema = "double"; version = pos 1 }

abbrev broken : Protocol
broken = record { schema = "broken"; version = pos 1 }

abbrev counting : Middleware ℕ ℕ
counting w req = (w + 1, req, returned none)

abbrev failing : Middleware ℕ ℕ
failing w req = (w + 10, req, panicked (foreign 7))

abbrev doubled : Option ℕ → Option ℕ
doubled none = none
doubled (some n) = some (n + n)

abbrev double : Handler ℕ ℕ
double w req = (w + 1000, returned (record zero_response { payload = doubled req.payload }, none))

abbrev quiet : Interceptor ℕ ℕ
quiet w rr = (w + 1, rr, returned none)

abbrev dispatcher : Dispatcher runtime
dispatcher = add_interceptor runtime zero_protocol quiet (
    add_middleware runtime zero_protocol counting (
      add_middleware runtime broken failing
        (override_handler runtime doubling double (new_dispatcher runtime))))

abbrev request : Message ℕ
request = record { protocol = doubling; id = "r1"; payload = some 21 }

abbrev broken_request : Message ℕ
broken_request = record { protocol = broken; id = "r2"; payload = none }

general_first : Runs (middleware_for runtime dispatcher doubling) 0 request 1 request
unfolding new_dispatcher add_middleware add_interceptor override_handler
general_first = step refl done

broken-Stops :
    Stops (middleware_for runtime dispatcher broken) 0 broken_request 10 broken_request (foreign 7)
unfolding new_dispatcher add_middleware add_interceptor override_handler
broken-Stops = fails (inr refl)

process_message-handled_example :
    let d = do_handler runtime dispatcher doubling 1 request in
    process_message runtime dispatcher 0 request ≡ (d.0, labelled runtime "r1" doubling d.1)
process_message-handled_example =
    process_message-handled runtime dispatcher 0 request 1 request general_first

-- The response to the request.
handled_test :
    process_message runtime dispatcher 0 request
    ≡ (1001, record { protocol = doubling; id = "r1"; payload = some 42; error = none })
unfolding process_message do_middleware do_chain do_handler call_handler finish new_dispatcher
    add_middleware add_interceptor override_handler load store join_all
handled_test = refl

process_message-failed_example :
    (err : Error) × Wraps err (foreign 7)
    × (process_message runtime dispatcher 0 broken_request ≡ (
      110,
      record {
        protocol = broken;
        id = "r2";
        payload = none;
        error = some (routed "r2" broken err);
      },
    ))
process_message-failed_example =
    process_message-failed runtime dispatcher 0 broken_request 10 broken_request (foreign 7)
      broken-Stops

do_handler-Succeeds_iff_example :
    ((do_handler runtime dispatcher broken 1 request).1.error ≡ none)
    ↔ Succeeds runtime (load broken dispatcher.handlers) 1 request
do_handler-Succeeds_iff_example = do_handler-Succeeds_iff runtime dispatcher broken 1 request

abbrev response : Response ℕ
response = record { protocol = doubling; id = "r1"; payload = some 42; error = none }

process_response-Published_example :
    let published = process_response runtime dispatcher 5 response in
    Published runtime dispatcher 5 response published.0 published.1
process_response-Published_example = process_response-Published runtime dispatcher 5 response

abbrev unnamed : Message ℕ
unnamed = record request { id = "" }

abbrev other : Response ℕ
other = record response { id = "r9" }

broadcast_test : broadcast "r1" unnamed ≡ inl request
unfolding broadcast
broadcast_test = refl

kept_id :
    let resp = (process_message runtime dispatcher 0 request).1 in
    (process_response runtime dispatcher 3 resp).1.id ≡ resp.id
unfolding process_message process_response do_middleware do_intercept do_chain do_handler
    call_handler finish new_dispatcher add_middleware add_interceptor override_handler load store
    join_all
kept_id = refl

others : All (λ (p : Response ℕ). p.id ≢ populate_id "r1" "") (other ∷ [])
unfolding populate_id
others = (ground (arith, eq_iff "r9" "r1"), tt)

exec_listen-process_message_example :
    let resp = (process_message runtime dispatcher 0 request).1 in
    let published = (process_response runtime dispatcher 3 resp).1 in
    exec_listen (populate_id "r1" "") ((other ∷ []) ++ published ∷ []) ≡ some published
exec_listen-process_message_example =
    exec_listen-process_message runtime dispatcher 0 3 "r1" unnamed request (other ∷ []) []
      broadcast_test kept_id others
