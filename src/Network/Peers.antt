-- ===== src/Network/Peers.antt =====
-- crates/network/src/peer.rs: peers, their reputations and the peer manager; the message of
-- crates/network/src/protocol.rs. What tokio's channels do is the record `Channels`. A socket address is the
-- number that its bytes spell. An `i32` is the number below 2 ^ 32 that its bits spell.
pub mod Reputations
use trust_the_people.Prelude.{
  ℕ, zero, suc, ◌+◌, ◌-◌, ◌%◌, ◌^◌, Bool, true, false, String, Option, none, some, List, [], ◌∷◌,
  ◌++◌, ltb, leb, ◌==◌, if◌then◌else◌, length, find, map,
}
use trust_the_people.Result.{◌>>=◌, ◌>>◌, text, network_error, Result, ok, err, reject_if}
use trust_the_people.Map
use trust_the_people.Map.{Map}

pub data MessageType : Type 0 where
  handshake : MessageType
  ping : MessageType
  pong : MessageType
  get_peers : MessageType
  peers : MessageType
  get_blocks : MessageType
  blocks : MessageType
  new_block : MessageType
  get_transactions : MessageType
  transactions : MessageType
  new_transaction : MessageType
  get_status : MessageType
  status : MessageType
  disconnect : MessageType

pub record NetworkMessage : Type 0 where
  pub msg_type : MessageType
  pub payload : List ℕ
  pub timestamp : ℕ
  pub nonce : ℕ

pub data PeerStatus : Type 0 where
  connecting : PeerStatus
  connected : PeerStatus
  disconnected : PeerStatus
  banned : PeerStatus

pub data ConnectionDirection : Type 0 where
  inbound : ConnectionDirection
  outbound : ConnectionDirection

pub record PeerInfo : Type 0 where
  pub id : ℕ
  pub addr : ℕ
  pub status : PeerStatus
  pub direction : ConnectionDirection
  pub connected_at : ℕ
  pub last_seen : ℕ
  pub protocol_version : ℕ
  pub network_id : String
  pub user_agent : String
  pub best_height : ℕ

unfoldable pub uptime : PeerInfo → ℕ → ℕ
uptime i now = now - i.connected_at

unfoldable pub is_stale : PeerInfo → ℕ → ℕ → Bool
is_stale i stale_threshold now = ltb stale_threshold (now - i.last_seen)

pub record PeerStats : Type 0 where
  pub messages_sent : ℕ
  pub messages_received : ℕ
  pub bytes_sent : ℕ
  pub bytes_received : ℕ
  pub errors : ℕ
  pub last_error : Option String

-- What a receiver finds: a message, nothing, or that every sender is gone.
pub data Received : Type 0 where
  received : NetworkMessage → Received
  nothing : Received
  closed : Received

-- tokio's unbounded channels: the state of all of them, and their two kinds of ends.
pub record Channels : Type 1 where
  pub Net : Type 0
  pub Sender : Type 0
  pub Receiver : Type 0
  pub unbounded_channel : Net → Net × Sender × Receiver
  -- Nothing where the receiver is gone.
  pub send : Net → Sender → NetworkMessage → Option Net
  pub try_recv : Net → Receiver → Net × Received

-- `disconnect_tx` is left out: `new_peer` drops its receiver, and a failure to send to it is ignored.
pub record Peer (c : Channels) : Type 0 where
  pub info : PeerInfo
  pub stats : PeerStats
  pub message_tx : c.Sender
  pub message_rx : c.Receiver

unfoldable pub new_peer :
    (c : Channels) → c.Net → ℕ → ℕ → ConnectionDirection → ℕ → String → ℕ → c.Net × Peer c
new_peer c net id addr direction protocol_version network_id now =
    let (net', message_tx, message_rx) = c.unbounded_channel net in
    (
      net',
      record {
        info = record {
          id = id;
          addr = addr;
          status = connecting;
          direction = direction;
          connected_at = now;
          last_seen = now;
          protocol_version = protocol_version;
          network_id = network_id;
          user_agent = "voting-node/0.1.0";
          best_height = 0;
        };
        stats = record {
          messages_sent = 0;
          messages_received = 0;
          bytes_sent = 0;
          bytes_received = 0;
          errors = 0;
          last_error = none;
        };
        message_tx = message_tx;
        message_rx = message_rx;
      },
    )

module _ {c : Channels} where
  unfoldable pub is_connected : Peer c → Bool
  is_connected p = elim p.info.status [ connected ↦ true | _ ↦ false ]

  unfoldable pub is_banned : Peer c → Bool
  is_banned p = elim p.info.status [ banned ↦ true | _ ↦ false ]

  unfoldable pub is_inbound : Peer c → Bool
  is_inbound p = elim p.info.direction [ inbound ↦ true | outbound ↦ false ]

  unfoldable pub is_outbound : Peer c → Bool
  is_outbound p = elim p.info.direction [ inbound ↦ false | outbound ↦ true ]

  unfoldable pub mark_connected : Peer c → ℕ → Peer c
  mark_connected p now = record p { info = record p.info { status = connected; last_seen = now } }

  unfoldable pub mark_disconnected : Peer c → Peer c
  mark_disconnected p = record p { info = record p.info { status = disconnected } }

  unfoldable pub update_last_seen : Peer c → ℕ → Peer c
  update_last_seen p now = record p { info = record p.info { last_seen = now } }

  unfoldable pub update_best_height : Peer c → ℕ → Peer c
  update_best_height p height = record p { info = record p.info { best_height = height } }

  unfoldable pub send : c.Net → Peer c → NetworkMessage → ℕ → Result (c.Net × Peer c)
  unfolding update_last_seen
  send net p m now = elim (c.send net p.message_tx m) [
    | none ↦ err (network_error (text "Failed to send message: channel closed"))
    | some net' ↦ ok (
      net',
      update_last_seen
          (record p {
            stats = record p.stats { messages_sent = (p.stats.messages_sent + 1) % 2 ^ 64 };
          })
          now,
    )
  ]

  -- The message that is there, if there is one.
  unfoldable pub receive : c.Net → Peer c → ℕ → Result (c.Net × Peer c × Option NetworkMessage)
  unfolding update_last_seen
  receive net p now =
      let (net', found) = c.try_recv net p.message_rx in
      elim found [
        | received m ↦ ok (
          net',
          update_last_seen
              (record p {
                stats = record p.stats {
                  messages_received = (p.stats.messages_received + 1) % 2 ^ 64;
                };
              })
              now,
          some m,
        )
        | nothing ↦ ok (net', p, none)
        | closed ↦ err (network_error (text "Peer disconnected"))
      ]

  unfoldable pub record_error : Peer c → String → Peer c
  record_error p error = record p {
    stats = record p.stats { errors = (p.stats.errors + 1) % 2 ^ 64; last_error = some error };
  }

  unfoldable pub ban : Peer c → Peer c
  ban p = record p { info = record p.info { status = banned } }

  unfoldable pub disconnect_peer : Peer c → Peer c
  unfolding mark_disconnected
  disconnect_peer p = mark_disconnected p

-- `a < b` on `i32`.
unfoldable pub i32_ltb : ℕ → ℕ → Bool
i32_ltb a b = ltb ((a + 2 ^ 31) % 2 ^ 32) ((b + 2 ^ 31) % 2 ^ 32)

-- `i32::abs`, which wraps at the least number.
unfoldable pub i32_abs : ℕ → ℕ
unfolding i32_ltb
i32_abs a = if i32_ltb a 0 then (2 ^ 32 - a) % 2 ^ 32 else a

pub record Reputation : Type 0 where
  pub score : ℕ

abbrev pub max_score : ℕ
max_score = 100

-- The number -100.
abbrev pub min_score : ℕ
min_score = 2 ^ 32 - 100

-- `clamp(Self::MIN, Self::MAX)`
unfoldable pub clamp : ℕ → ℕ
unfolding i32_ltb
clamp a = if i32_ltb a min_score then min_score else if i32_ltb max_score a then max_score else a

unfoldable pub new_reputation : ℕ → Reputation
unfolding clamp
new_reputation score = record { score = clamp score }

unfoldable pub initial : Reputation
initial = record { score = 0 }

unfoldable pub increase : Reputation → ℕ → Reputation
unfolding clamp
increase r amount = record { score = clamp ((r.score + amount) % 2 ^ 32) }

unfoldable pub decrease : Reputation → ℕ → Reputation
unfolding clamp
decrease r amount = record { score = clamp ((r.score + 2 ^ 32 - amount) % 2 ^ 32) }

unfoldable pub is_good : Reputation → Bool
unfolding i32_ltb
is_good r = i32_ltb 0 r.score

unfoldable pub is_bad : Reputation → Bool
unfolding i32_ltb
is_bad r = i32_ltb r.score 0

-- `Reputation::should_ban`
unfoldable pub is_bannable : Reputation → Bool
unfolding i32_ltb
is_bannable r = if i32_ltb min_score r.score then false else true

pub record PeerManager (c : Channels) : Type 0 where
  pub peers : List (Peer c)
  pub reputations : Map Reputation
  pub max_peers : ℕ

unfoldable pub new_manager : (c : Channels) → ℕ → PeerManager c
new_manager c max_peers = record { peers = []; reputations = Map.empty; max_peers = max_peers }

module _ {c : Channels} where
  unfoldable pub add_peer : PeerManager c → Peer c → Result (PeerManager c)
  add_peer m p = do
    reject_if (leb m.max_peers (length m.peers)) (network_error (text "Maximum peer count reached"))
    ok (record m { peers = m.peers ++ p ∷ [] })

  unfoldable pub remove_first : List (Peer c) → ℕ → List (Peer c)
  remove_first [] id = []
  remove_first (p ∷ ps) id = if p.info.id == id then ps else p ∷ remove_first ps id

  unfoldable pub remove_peer : PeerManager c → ℕ → PeerManager c
  unfolding remove_first
  remove_peer m id = record m { peers = remove_first m.peers id }

  unfoldable pub get_peer : PeerManager c → ℕ → Option PeerInfo
  get_peer m id = elim (find (λ p. p.info.id == id) m.peers) [ none ↦ none | some p ↦ some p.info ]

  unfoldable pub peer_count : PeerManager c → ℕ
  peer_count m = length m.peers

  unfoldable pub get_all_peers : PeerManager c → List PeerInfo
  get_all_peers m = map (λ p. p.info) m.peers

  unfoldable pub get_reputation : PeerManager c → ℕ → Reputation
  unfolding initial
  get_reputation m id = elim (Map.get m.reputations id) [ none ↦ initial | some r ↦ r ]

  unfoldable pub update_reputation : PeerManager c → ℕ → ℕ → PeerManager c
  unfolding get_reputation increase decrease i32_abs i32_ltb
  update_reputation m id change =
      let r = get_reputation m id in
      record m {
        reputations =
            Map.insert m.reputations id
              (if i32_ltb 0 change then increase r change else decrease r (i32_abs change));
      }

  unfoldable pub should_ban : PeerManager c → ℕ → Bool
  unfolding get_reputation is_bannable
  should_ban m id = is_bannable (get_reputation m id)
