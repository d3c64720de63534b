-- ===== src/Router/Peer.antt =====
-- x/router/peer.go: envelopes, and the loops that receive, send and wait for them. Each loop is a
-- function of what its connection or its queue gives it. Times are nanoseconds. Setting up peers,
-- checking connections and keeping statistics are not modelled.
pub mod Loops
pub mod Numbers
use sardis.Common.{
  ℕ, zero, suc, ◌+◌, ◌*◌, Bool, true, false, not, ◌&&◌, ◌||◌, Option, none, some, List, [], ◌∷◌,
  ◌++◌, String, string_comparable, ◌==◌, ltb, if◌then◌else◌,
}
use sardis.Common.{◌⊎◌, inl, inr}
use sardis.Common.Int.{ℤ, pos, ltb_ℤ}
use sardis.Router.Model.{Message, Error}
use sardis.Router.Dispatcher.{populate_id}

abbrev pub target_network : String
target_network = "__ENTIRE_NETWORK"

pub record Envelope (P : Type 0) : Type 0 where
  pub target : String
  pub payload : Message P
  pub broadcast : Bool
  pub error : Option Error
  pub responding_to : String
  pub response_timeout : ℤ
  pub source : String
  pub sent_at : ℕ
  pub received_at : ℕ
  pub sequence : ℤ

pub record ConnectionInfo : Type 0 where
  pub connected : Bool
  pub messages_sent : ℕ
  pub messages_received : ℕ
  pub last_active : ℕ

-- What `conn.Receive` gives: the end of the input, an expired context, another error, or an
-- envelope with the two readings of the clock that follow.
pub data Received (P : Type 0) : Type 0 where
  eof expired : Received P
  failed : Error → Received P
  got : (now later : ℕ) → Envelope P → Received P

-- What the receiving loop changes. The observer is called with nil too, where closing succeeds.
pub record Receiving (P : Type 0) : Type 0 where
  pub info : ConnectionInfo
  pub sequence : ℤ
  pub last_observed_reset : ℕ
  pub published : List (Envelope P)
  pub observed : List (Option Error)

abbrev at_arrival : ℕ → ConnectionInfo → ConnectionInfo
at_arrival now info = record info {
  last_active = now;
  messages_received = info.messages_received + 1;
  connected = true;
}

-- What the sending loop of a peer changes of its own: whether it runs, what went out, and the
-- statistics.
pub record Sending (P : Type 0) : Type 0 where
  pub runs : Bool
  pub info : ConnectionInfo
  pub sent : List (Envelope P)
  pub observed : List (Option Error)

-- The sending loops of a router, by the names of the peers, and the counter that they share.
pub record Senders (P : Type 0) : Type 0 where
  pub seq : ℕ
  pub loop : String → Sending P

-- The turn of a peer's loop: the next envelope of the queue, the clock's reading, and the result of
-- `conn.Send`.
pub record Turn (P : Type 0) : Type 0 where
  pub peer : String
  pub envelope : Envelope P
  pub now : ℕ
  pub result : Option Error

module _ {P : Type 0} where
  -- The work on one envelope.
  accept : (self : String) (now later : ℕ) → Envelope P → Receiving P → Receiving P
  accept self now later ep s =
      let ep' = record ep { received_at = now } in
      let s' = record s { info = at_arrival now s.info } in
      let reset =
        if ltb_ℤ ep'.sequence s.sequence
        then record s' { last_observed_reset = later; sequence = ep'.sequence }
        else s' in
      if not (ep'.target == self) || not (ep'.target == target_network)
      then s'
      else record reset { published = reset.published ++ ep' ∷ [] }

  -- The deferred function: the connection is closed, with this result.
  pub close : Option Error → Receiving P → Receiving P
  close result s = record s {
    info = record s.info { connected = false };
    observed = s.observed ++ result ∷ [];
  }

  -- The receiving loop; where the input of the model ends the loop waits for more.
  pub receive_loop :
      (self : String) (closing : Option Error) → List (Received P) → Receiving P → Receiving P
  unfolding accept close
  receive_loop self closing [] s = s
  receive_loop self closing (eof ∷ rest) s = close closing s
  receive_loop self closing (expired ∷ rest) s = close closing s
  receive_loop self closing (failed e ∷ rest) s =
      receive_loop self closing rest (record s { observed = s.observed ++ some e ∷ [] })
  receive_loop self closing (got now later ep ∷ rest) s =
      receive_loop self closing rest (accept self now later ep s)

  abbrev pub stamped : (self : String) (seq now : ℕ) → Envelope P → Envelope P
  stamped self seq now ep = record ep { sequence = pos seq; sent_at = now; source = self }

  -- The work of a loop on one envelope, with its number, and the result of closing.
  send_one :
      (self : String) (closing : Option Error)
      → ℕ
      → Envelope P
      → (now : ℕ) → Option Error
      → Sending P
      → Sending P
  send_one self closing seq ep now (some e) s = record s {
    runs = false;
    info = record s.info { connected = false };
    observed = s.observed ++ some e ∷ closing ∷ [];
  }
  send_one self closing seq ep now none s = record s {
    sent = s.sent ++ stamped self seq now ep ∷ [];
    info = record s.info {
      last_active = now;
      messages_sent = s.info.messages_sent + 1;
      connected = true;
    };
  }

  -- A turn of one of the loops: it adds to the shared counter first. The counter stays below 2 ^ 63.
  pub send_turn :
      (self : String) → (closing : String → Option Error) → Turn P → Senders P → Senders P
  unfolding send_one
  send_turn self closing t r = if not (r.loop t.peer).runs then r else record {
    seq = r.seq + 1;
    loop = λ p.
        if p == t.peer
        then send_one self (closing p) (r.seq + 1) t.envelope t.now t.result (r.loop p)
        else r.loop p;
  }

  -- The sending loops of all peers, in the order in which they add to the counter; between two turns
  -- a loop changes nothing that another one reads.
  unfoldable pub send_loops :
      (self : String) (closing : String → Option Error) → List (Turn P) → Senders P → Senders P
  unfolding send_turn
  send_loops self closing [] r = r
  send_loops self closing (t ∷ turns) r = send_loops self closing turns (send_turn self closing t r)

  -- The loop of `Exec` over what the subscription gives: an envelope or the error that ends it;
  -- `none` is a loop that still waits.
  exec_loop : (id : String) → List (Envelope P ⊎ Error) → Option (Envelope P ⊎ Error)
  exec_loop id [] = none
  exec_loop id (inr e ∷ rest) = some (inr e)
  exec_loop id (inl rsp ∷ rest) =
      let later = exec_loop id rest in if not (rsp.responding_to == id) then later else later

  -- `Exec`, with the result of `Send`.
  pub exec :
      (generated : String)
      → Option Error
      → Envelope P
      → List (Envelope P ⊎ Error)
      → Option (Envelope P ⊎ Error)
  unfolding exec_loop populate_id
  exec generated (some e) ep replies = some (inr e)
  exec generated none ep replies = exec_loop (populate_id generated ep.payload.id) replies

-- Whether a tick of the heartbeat sends a message: `LastActive.Sub(now)` is not less than 30 s.
heartbeat_due : (last_active now : ℕ) → Bool
heartbeat_due last_active now = not (ltb last_active (now + 30 * 1_000_000_000))

-- A peer that could not be dialled.
pub record Disconnected (T : Type 0) : Type 0 where
  opts : T
  last_failure : ℕ
  pub count : ℕ

-- `dialNewPeer`: what joins the queue of failed peers, or the connection to set up.
unfoldable pub dial_new_peer : {T C : Type 0} → (now : ℕ) → T → C ⊎ Error → C ⊎ Disconnected T
dial_new_peer now opts (inl conn) = inl conn
dial_new_peer now opts (inr e) = inr (record { opts = opts; last_failure = now; count = 1 })
