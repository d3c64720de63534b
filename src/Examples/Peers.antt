-- ===== src/Examples/Peers.antt =====
-- Identifiers and the loops of a peer.
use Prim.Native.Char.{Char, code}
use sardis.Common.{
  String, ℕ, ◌+◌, ◌&&◌, length, map, true, false, Option, none, some, ◌≡◌, ◌≢◌, refl, ◌⊎◌, inl, inr,
  List, [], ◌∷◌, string_comparable, arith, eq_iff,
}
use sardis.Common.Int.{ℤ, pos}
use sardis.Common.Text.{Lacks, rune_count}
use sardis.Router.Model.{zero_protocol, Error, foreign}
use sardis.Router.Ids.{suffix, id_prefix, make_id, parse, print_int64, digits}
use sardis.Router.Ids.RoundTrip.{parse-make_id}
use sardis.Router.Peer.{
  Envelope, ConnectionInfo, eof, got, Receiving, Senders, Turn, target_network, receive_loop,
  send_loops, exec,
}
use sardis.Router.Peer.Loops.{receive_loop-published, exec-fails}
use sardis.Router.Peer.Numbers.{Increasing, has_number, send_loops-Increasing}

abbrev letters : ℕ → Char
letters i = "x"

letter : (i : ℕ) → code (letters i) ≢ b'-'
letter i = ground arith

host-Lacks : Lacks b'-' "af01"
host-Lacks = omega arith

parse-make_id_example :
    parse (make_id letters "af01" (pos 1700000000) (pos 7))
    ≡ some (record {
      ts = pos 1700000000;
      host = "af01";
      count = pos 7;
      random = suffix letters 16 0 (rune_count (id_prefix "af01" (pos 1700000000) (pos 7)));
    })
parse-make_id_example =
    parse-make_id letters "af01" 1700000000 7 (omega arith) (omega arith) host-Lacks letter

make_id_test : make_id letters "af01" (pos 1700000000) (pos 7) ≡ "1700000000-af01-7-xxxxxxxxxxxxxx"
unfolding make_id id_prefix print_int64 digits suffix
make_id_test = refl

abbrev envelope : Envelope ℕ
envelope = record {
  target = "me";
  payload = record { protocol = zero_protocol; id = "m"; payload = some 1 };
  broadcast = false;
  error = none;
  responding_to = "m";
  response_timeout = pos 0;
  source = "you";
  sent_at = 1;
  received_at = 0;
  sequence = pos 1;
}

abbrev idle : ConnectionInfo
idle = record { connected = true; messages_sent = 0; messages_received = 0; last_active = 0 }

abbrev receiving : Receiving ℕ
receiving = record {
  info = idle;
  sequence = pos 0;
  last_observed_reset = 0;
  published = [];
  observed = [];
}

not_network : "me" ≢ target_network
not_network = ground (arith, eq_iff "me" target_network)

receive_loop-published_example :
    (receive_loop "me" none (got 5 6 envelope ∷ eof ∷ []) receiving).published ≡ []
receive_loop-published_example =
    receive_loop-published "me" none (got 5 6 envelope ∷ eof ∷ []) receiving not_network

-- The loops of the peers, on a router that has sent three envelopes over earlier connections.
abbrev senders : Senders ℕ
senders = record {
  seq = 3;
  loop = λ p. record { runs = true; info = idle; sent = []; observed = [] };
}

abbrev turn : String → ℕ → Option Error → Turn ℕ
turn peer now result = record { peer = peer; envelope = envelope; now = now; result = result }

abbrev turns : List (Turn ℕ)
turns =
    turn "a" 7 none
    ∷ turn "b" 8 none
    ∷ turn "a" 8 (some (foreign 1))
    ∷ turn "a" 9 none
    ∷ turn "b" 9 none
    ∷ []

abbrev closed : String → Option Error
closed p = none

abbrev first : String
first = "a"

abbrev second : String
second = "b"

different : first ≢ second
different = ground (arith, eq_iff first second)

send_loops-Increasing_example :
    let after = send_loops "me" closed turns senders in
    Increasing "me" 3 after.seq (after.loop "a").sent
    × ((after.loop "a").info.messages_sent ≡ 0 + length (after.loop "a").sent)
    × ((has_number 4 (after.loop "a").sent && has_number 4 (after.loop "b").sent) ≡ false)
send_loops-Increasing_example =
    send_loops-Increasing "me" closed turns senders (λ p. refl) "a" "b" 4 different

-- The envelope that failed took a number, and ended the loop of its peer.
numbers_test :
    map {B = ℤ}
      (λ (ep : Envelope ℕ). ep.sequence)
      ((send_loops "me" closed turns senders).loop "b").sent
    ≡ pos 5 ∷ pos 7 ∷ []
unfolding send_loops
numbers_test = refl

abbrev replies : List (Envelope ℕ ⊎ Error)
replies = inl envelope ∷ inr (foreign 2) ∷ []

exec-fails_example : exec "m" none envelope replies ≢ some (inl envelope)
exec-fails_example = exec-fails "m" none envelope replies envelope
