-- ===== src/Router/Dispatcher/Receivers.antt =====
-- Who receives a response (x/router/dispatcher.go, the listeners of `Exec` and `Subscribe`).
use sardis.Common.{
  none, some, ◌≡◌, ◌≢◌, sym, ap, ◌∙◌, inl, inr, ◌↔◌, List, [], ◌∷◌, ◌++◌, arith, if◌then◌else◌, All,
  Bool-cases, ◌==◌, String, string_comparable, eq_iff, keep,
}
use sardis.Router.Model.{
  Protocol, zero_protocol, is_zero_iff, protocol_comparable, protocol_beq_iff, Message, Response,
}
use sardis.Router.Dispatcher.{
  Runtime, Dispatcher, process_message, process_response, finish, exec_listen, subscribe, broadcast,
  populate_id,
}

module _ {P : Type 0} where
  -- The response is the first of the list with the identifier.
  abbrev IsAnswer : String → List (Response P) → Response P → Type 0
  IsAnswer id rs resp =
      (before : List (Response P)) × (after : List (Response P)) × (rs ≡ before ++ resp ∷ after)
      × All (λ r. r.id ≢ id) before
      × (resp.id ≡ id)

  IsAnswer-later :
      (id : String) (r resp : Response P) (rs : List (Response P))
      → r.id ≢ id
      → IsAnswer id rs resp
      → IsAnswer id (r ∷ rs) resp
  IsAnswer-later id r resp rs other (before, after, split, others, same) =
      (r ∷ before, after, ap (λ l. r ∷ l) split, (other, others), same)

  exec_listen-IsAnswer :
      (id : String) (rs : List (Response P)) (resp : Response P)
      → exec_listen id rs ≡ some resp
      → IsAnswer id rs resp
  unfolding exec_listen
  exec_listen-IsAnswer id [] resp h = absurd_none h
    where
      absurd_none : none ≡ some resp → IsAnswer id [] resp
      absurd_none h = cc
  exec_listen-IsAnswer id (r ∷ rs) resp h = elim (Bool-cases (r.id == id)) [
    | inl same ↦
        let is : r ≡ resp = ground (arith, same, h) in
        ([], rs, ap (λ x. x ∷ rs) is, tt, ap (λ x. x.id) (sym is) ∙ (eq_iff r.id id).0 same)
    | inr other ↦
        IsAnswer-later id r resp rs (λ e. ground (arith, eq_iff r.id id, other, e))
          (exec_listen-IsAnswer id rs resp (ground (arith, other, h)))
  ]

  IsAnswer-exec_listen :
      (id : String) (before after : List (Response P)) (resp : Response P)
      → All (λ r. r.id ≢ id) before
      → resp.id ≡ id
      → exec_listen id (before ++ resp ∷ after) ≡ some resp
  unfolding exec_listen
  IsAnswer-exec_listen id [] after resp others same = ground (arith, eq_iff resp.id id)
  IsAnswer-exec_listen id (r ∷ before) after resp (other, others) same =
      ground (arith, eq_iff r.id id, IsAnswer-exec_listen id before after resp others same)

  -- `Exec` answers with a response exactly if it is the first that was published under the
  -- message's identifier.
  exec_listen_iff :
      (id : String) (rs : List (Response P)) (resp : Response P)
      → (exec_listen id rs ≡ some resp) ↔ IsAnswer id rs resp
  exec_listen_iff id rs resp = (
    exec_listen-IsAnswer id rs resp,
    λ (before, after, split, others, same).
        rw split (IsAnswer-exec_listen id before after resp others same),
  )

  -- What passes to a subscription's channel is, in the order of publication, all responses where
  -- the protocol is zero (`Stream`), and otherwise those of the protocol.
  subscribe-keep :
      (p : Protocol) (rs : List (Response P))
      → subscribe p rs
        ≡ (if p == zero_protocol then rs else keep (λ (r : Response P). r.protocol == p) rs)
  unfolding subscribe
  subscribe-keep p [] = ground arith
  subscribe-keep p (r ∷ rs) =
      ground (arith, is_zero_iff p, protocol_beq_iff p zero_protocol, subscribe-keep p rs)

module _ {W P : Type 0} (rt : Runtime W P) where
  broadcast-id :
      (generated : String) (m sent : Message P)
      → broadcast generated m ≡ inl sent
      → sent.id ≡ populate_id generated m.id
  unfolding broadcast
  broadcast-id generated m sent pushed = ground arith

  process_message-id :
      (r : Dispatcher rt) (w : W) (req : Message P) → (process_message rt r w req).1.id ≡ req.id
  unfolding process_message finish
  process_message-id r w req = ground arith

  -- The caller that sends a message by `Exec` and listens for the identifier it is sent with is
  -- answered by what is published for this message, whatever the middleware, the handler or their
  -- failures did: if its interceptors keep the identifier and nothing was published under it before.
  pub exec_listen-process_message :
      (r : Dispatcher rt) (w w' : W) (generated : String) (m sent : Message P)
      (earlier rest : List (Response P))
      → broadcast generated m ≡ inl sent
      → let resp = (process_message rt r w sent).1 in
        let published = (process_response rt r w' resp).1 in
        published.id ≡ resp.id
        → All (λ (p : Response P). p.id ≢ populate_id generated m.id) earlier
        → exec_listen (populate_id generated m.id) (earlier ++ published ∷ rest) ≡ some published
  exec_listen-process_message r w w' generated m sent earlier rest pushed kept others =
      let resp = (process_message rt r w sent).1 in
      let published = (process_response rt r w' resp).1 in
      IsAnswer-exec_listen (populate_id generated m.id) earlier rest published others
        (kept ∙ process_message-id r w sent ∙ broadcast-id generated m sent pushed)
