-- ===== src/Router/Peer/Loops.antt =====
-- What the loops of a peer do (x/router/peer.go).
use sardis.Common.{
  ℕ, suc, ◌+◌, ◌≤◌, false, Option, none, some, ◌≡◌, ◌≢◌, refl, ◌∙◌, ◌⊎◌, inl, inr, List, [], ◌∷◌,
  String, string_comparable, arith, eq_iff,
}
use sardis.Router.Model.{Error}
use sardis.Router.Peer.{
  Envelope, Received, eof, expired, failed, got, Receiving, target_network, accept, close,
  receive_loop, exec_loop, exec, heartbeat_due,
}

module _ {P : Type 0} where
  accept-published :
      (self : String) (now later : ℕ) (ep : Envelope P) (s : Receiving P)
      → self ≢ target_network
      → (accept self now later ep s).published ≡ s.published
  unfolding accept
  accept-published self now later ep s other =
      ground (arith, eq_iff ep.target self, eq_iff ep.target target_network)

  -- A router whose own name is not that of the whole network publishes nothing that it receives,
  -- because an envelope would have to be addressed to both.
  pub receive_loop-published :
      (self : String) (closing : Option Error) (input : List (Received P)) (s : Receiving P)
      → self ≢ target_network
      → (receive_loop self closing input s).published ≡ s.published
  unfolding receive_loop close
  receive_loop-published self closing [] s other = refl
  receive_loop-published self closing (eof ∷ rest) s other = refl
  receive_loop-published self closing (expired ∷ rest) s other = refl
  receive_loop-published self closing (failed e ∷ rest) s other =
      receive_loop-published self closing rest _ other
  receive_loop-published self closing (got now later ep ∷ rest) s other =
      receive_loop-published self closing rest (accept self now later ep s) other
      ∙ accept-published self now later ep s other

  -- The envelopes before the input ends.
  abbrev arrivals : List (Received P) → ℕ
  arrivals [] = 0
  arrivals (eof ∷ rest) = 0
  arrivals (expired ∷ rest) = 0
  arrivals (failed e ∷ rest) = arrivals rest
  arrivals (got now later ep ∷ rest) = suc (arrivals rest)

  accept-messages :
      (self : String) (now later : ℕ) (ep : Envelope P) (s : Receiving P)
      → (accept self now later ep s).info.messages_received ≡ s.info.messages_received + 1
  unfolding accept
  accept-messages self now later ep s = ground arith

  -- The statistics count every envelope that arrives before the end of the input, those that are
  -- dropped too, and no error.
  receive_loop-messages_received :
      (self : String) (closing : Option Error) (input : List (Received P)) (s : Receiving P)
      → (receive_loop self closing input s).info.messages_received
        ≡ s.info.messages_received + arrivals input
  unfolding receive_loop close
  receive_loop-messages_received self closing [] s = omega arith
  receive_loop-messages_received self closing (eof ∷ rest) s = omega arith
  receive_loop-messages_received self closing (expired ∷ rest) s = omega arith
  receive_loop-messages_received self closing (failed e ∷ rest) s =
      receive_loop-messages_received self closing rest _
  receive_loop-messages_received self closing (got now later ep ∷ rest) s = omega (
    arith,
    accept-messages self now later ep s,
    receive_loop-messages_received self closing rest (accept self now later ep s),
  )

  exec_loop-fails :
      (id : String) (replies : List (Envelope P ⊎ Error)) (rsp : Envelope P)
      → exec_loop id replies ≢ some (inl rsp)
  unfolding exec_loop
  exec_loop-fails id [] rsp = λ h. cc
  exec_loop-fails id (inr e ∷ rest) rsp = λ h. ground (arith, h)
  exec_loop-fails id (inl r ∷ rest) rsp = λ h. ground (arith, h, exec_loop-fails id rest rsp)

  -- `Exec` of a router never returns an answer: it waits, or it returns an error.
  pub exec-fails :
      (generated : String) (sending : Option Error) (ep : Envelope P)
      (replies : List (Envelope P ⊎ Error)) (rsp : Envelope P)
      → exec generated sending ep replies ≢ some (inl rsp)
  unfolding exec
  exec-fails generated (some e) ep replies rsp = λ h. ground (arith, h)
  exec-fails generated none ep replies rsp = exec_loop-fails _ replies rsp

-- No heartbeat is ever sent: a connection is last active in the past, and the test wants a time more
-- than 30 seconds in the future.
heartbeat_due-eq-false :
    (last_active now : ℕ) → last_active ≤ now → heartbeat_due last_active now ≡ false
unfolding heartbeat_due
heartbeat_due-eq-false last_active now past = ground arith
