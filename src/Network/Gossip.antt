-- ===== src/Network/Gossip.antt =====
-- crates/network/src/gossip.rs: gossip of blocks and transactions. What the network and the shuffling of
-- peers do is the record `Air`; a method returns, besides its result, the peers that it sent to.
pub mod Relaying
use trust_the_people.Prelude.{
  ℕ, zero, suc, ◌-◌, Bool, true, false, not, ◌&&◌, none, some, List, [], ◌∷◌, ltb, if◌then◌else◌,
  length, filter, contains,
}
use trust_the_people.Result.{◌>>=◌, ◌>>◌, text, network_error, Result, ok, reject_if}
use trust_the_people.Map
use trust_the_people.Map.{Map}
use trust_the_people.Set.{set_insert}
use trust_the_people.Block.{Block}
use trust_the_people.Transaction.{Transaction}
use trust_the_people.Network.Sync.{PeerView}

pub record BlockAnnouncement : Type 0 where
  pub height : ℕ
  pub hash : ℕ
  pub timestamp : ℕ
  pub transaction_count : ℕ

pub record TransactionAnnouncement : Type 0 where
  pub tx_id : ℕ
  pub timestamp : ℕ
  pub size : ℕ

pub data GossipMessage : Type 0 where
  new_block : Block → GossipMessage
  new_transaction : Transaction → GossipMessage
  block_announcement : BlockAnnouncement → GossipMessage
  transaction_announcement : TransactionAnnouncement → GossipMessage

pub record GossipEntry : Type 0 where
  pub id : ℕ
  pub first_seen : ℕ
  pub propagated_to : List ℕ

pub record GossipProtocol : Type 0 where
  pub fanout : ℕ
  pub seen_messages : Map GossipEntry
  pub message_ttl : ℕ
  pub running : Bool

pub record Air : Type 0 where
  pub peers : List PeerView
  pub shuffle : List PeerView → List PeerView
  -- A message is encoded, and sent to the peer.
  pub sends : ℕ → GossipMessage → Bool
  pub now : ℕ

unfoldable pub new : ℕ → GossipProtocol
new fanout = record {
  fanout = fanout;
  seen_messages = Map.empty;
  message_ttl = 300;
  running = false;
}

unfoldable pub with_ttl : GossipProtocol → ℕ → GossipProtocol
with_ttl g ttl = record g { message_ttl = ttl }

unfoldable pub start : GossipProtocol → Result GossipProtocol
start g = do
  reject_if g.running (network_error (text "Gossip already running"))
  ok (record g { running = true })

unfoldable pub stop : GossipProtocol → GossipProtocol
stop g = record g { running = false }

-- `GossipEntry::is_stale`
unfoldable pub is_stale : GossipEntry → ℕ → ℕ → Bool
is_stale e ttl now = ltb ttl (now - e.first_seen)

-- The entries that are left, and the number of those removed.
unfoldable pub cleanup_stale_entries : GossipProtocol → ℕ → GossipProtocol × ℕ
unfolding is_stale
cleanup_stale_entries g now = (
  record g { seen_messages = Map.retain (λ e. not (is_stale e g.message_ttl now)) g.seen_messages },
  length (filter (λ e. is_stale e g.message_ttl now) (Map.values g.seen_messages)),
)

unfoldable pub get_message_id : GossipMessage → ℕ
get_message_id (new_block b) = b.header.hash
get_message_id (new_transaction tx) = tx.id
get_message_id (block_announcement a) = a.hash
get_message_id (transaction_announcement a) = a.tx_id

unfoldable pub has_seen : GossipProtocol → ℕ → Bool
has_seen g id = Map.contains_key g.seen_messages id

-- `entry(id).or_insert_with(..)`
unfoldable pub mark_seen : GossipProtocol → ℕ → ℕ → GossipProtocol
mark_seen g id now = elim (Map.get g.seen_messages id) [
  | some e ↦ g
  | none ↦ record g {
    seen_messages =
        Map.insert g.seen_messages id (record { id = id; first_seen = now; propagated_to = [] });
  }
]

unfoldable pub mark_propagated_to : GossipProtocol → ℕ → ℕ → GossipProtocol
mark_propagated_to g id peer_id = elim (Map.get g.seen_messages id) [
  | none ↦ g
  | some e ↦ record g {
    seen_messages =
        Map.insert g.seen_messages id
          (record e { propagated_to = set_insert e.propagated_to peer_id });
  }
]

unfoldable pub clear : GossipProtocol → GossipProtocol
clear g = record g { seen_messages = Map.empty }

-- The peers that the message went to already.
unfoldable pub propagated : GossipProtocol → ℕ → ℕ → Bool
propagated g id peer_id = elim (Map.get g.seen_messages id) [
  | none ↦ false
  | some e ↦ contains e.propagated_to peer_id
]

-- `Iterator::take`
unfoldable pub take : ℕ → List PeerView → List PeerView
take zero ps = []
take (suc n) [] = []
take (suc n) (p ∷ ps) = p ∷ take n ps

unfoldable pub select_gossip_targets : Air → GossipProtocol → ℕ → List PeerView
unfolding propagated take
select_gossip_targets a g id =
    take g.fanout (a.shuffle (filter (λ p. p.is_connected && not (propagated g id p.id)) a.peers))

-- The loop of `gossip` over the targets, with the peers that it sends to.
unfoldable pub send_to_targets :
    Air → GossipProtocol → GossipMessage → ℕ → List PeerView → GossipProtocol × List ℕ
unfolding mark_propagated_to
send_to_targets a g m id [] = (g, [])
send_to_targets a g m id (p ∷ ps) =
    if a.sends p.id m
    then (let (g', sent) = send_to_targets a (mark_propagated_to g id p.id) m id ps in
        (g', p.id ∷ sent))
    else send_to_targets a g m id ps

-- The count that the source returns is the number of the peers.
unfoldable pub gossip : Air → GossipProtocol → GossipMessage → GossipProtocol × List ℕ
unfolding get_message_id has_seen mark_seen select_gossip_targets send_to_targets
gossip a g m =
    let id = get_message_id m in
    if has_seen g id
    then (g, [])
    else (let g1 = mark_seen g id a.now in
        send_to_targets a g1 m id (select_gossip_targets a g1 id))

unfoldable pub handle_received_message :
    Air → GossipProtocol → GossipMessage → ℕ → GossipProtocol × List ℕ
unfolding gossip mark_propagated_to
handle_received_message a g m from_peer =
    let id = get_message_id m in
    let r = if not (has_seen g id) then gossip a (mark_seen g id a.now) m else (g, []) in
    (mark_propagated_to r.0 id from_peer, r.1)
