-- ===== src/Tests/Messages.antt =====
-- The theorems of block synchronisation and gossip at concrete inputs.
use trust_the_people.Prelude.{
  ℕ, ◌++◌, ◌-◌, ◌≤◌, ◌≡◌, refl, true, false, Option, none, some, get_elem?, set, List, [], ◌∷◌,
  arith, length,
}
use trust_the_people.Result.{ok}
use trust_the_people.Network.Sync
use trust_the_people.Network.Sync.{BlockSync, PeerView, Wire, connected, request_blocks}
use trust_the_people.Network.Sync.Requests.{IsOpen, IsRequested, request_blocks-IsRequested}
use trust_the_people.Network.Gossip
use trust_the_people.Network.Gossip.{
  GossipProtocol, GossipMessage, Air, new_transaction, gossip, handle_received_message,
}
use trust_the_people.Network.Gossip.Relaying.{handle_received_message_silent, gossip-fanout}
use trust_the_people.Network.Peers.{
  NetworkMessage, Received, received, nothing, Channels, new_manager,
}
use trust_the_people.Network.Peers.Reputations.{
  Change, gain, loss, HasLevel, IsSmall, size, run, follow, run-follow,
}
use trust_the_people.Tests.Data.{ballot_tx}

abbrev peers : List PeerView
peers =
    record { id = 1; is_connected = true }
    ∷ record { id = 2; is_connected = false }
    ∷ record { id = 3; is_connected = true }
    ∷ []

abbrev wire : Wire
wire = record { peers = peers; pick = λ n. n; sends = λ peer start end. true; now = 1000 }

wire-IsOpen : IsOpen wire
unfolding connected
wire-IsOpen = record { some_peer = omega arith; sent = λ peer start end. refl }

abbrev sync : BlockSync
sync = record (Sync.new 10) { batch_size = 10; next_request_id = 0 }

request_blocks-IsRequested_example :
    (s' : BlockSync) × (request_blocks (35 - 5) wire sync 5 35 ≡ ok (some s')) × IsRequested s' 27
request_blocks-IsRequested_example =
    request_blocks-IsRequested wire sync 5 35 27 wire-IsOpen (omega arith) (omega arith)
      (omega arith) (omega arith) (omega arith)

abbrev air : Air
air = record { peers = peers; shuffle = λ ps. ps; sends = λ peer m. true; now = 1000 }

abbrev message : GossipMessage
message = new_transaction ballot_tx

handle_received_message_silent_example :
    (handle_received_message air (Gossip.new 2) message 3).1 ≡ []
handle_received_message_silent_example = handle_received_message_silent air (Gossip.new 2) message 3

gossip-fanout_example :
    (length (gossip air (Gossip.new 2) message).1 ≤ (Gossip.new 2).fanout)
    × (gossip air (gossip air (Gossip.new 2) message).0 message
        ≡ ((gossip air (Gossip.new 2) message).0, []))
gossip-fanout_example = gossip-fanout air air (Gossip.new 2) message

abbrev first_of : List NetworkMessage → Received
first_of [] = nothing
first_of (m ∷ ms) = received m

abbrev rest : List NetworkMessage → List NetworkMessage
rest [] = []
rest (m ∷ ms) = ms

abbrev or_nothing : Option (List NetworkMessage) → List NetworkMessage
or_nothing none = []
or_nothing (some ms) = ms

-- Channels as queues, whose two ends are their number.
abbrev queues : Channels
queues = record {
  Net = List (List NetworkMessage);
  Sender = ℕ;
  Receiver = ℕ;
  unbounded_channel = λ net. (net ++ [] ∷ [], length net, length net);
  send = λ net i m. some (set net i (or_nothing (get_elem? net i) ++ m ∷ []));
  try_recv = λ net i. let ms = or_nothing (get_elem? net i) in (set net i (rest ms), first_of ms);
}

abbrev changes : List (ℕ × Change)
changes = (1, gain 60) ∷ (2, loss 250) ∷ (1, gain 60) ∷ (1, loss 30) ∷ (2, gain 10) ∷ []

run-follow_example : HasLevel (run (new_manager queues 8) changes) 2 (follow 2 changes 100)
unfolding IsSmall size
run-follow_example =
    run-follow queues changes 8 2
      (omega arith, (omega arith, (omega arith, (omega arith, (omega arith, tt)))))
