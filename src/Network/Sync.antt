-- ===== src/Network/Sync.antt =====
-- crates/network/src/sync.rs: block synchronisation. What the network and the random choice of a peer
-- do is the record `Wire`; the ticking tasks are their rounds.
pub mod Requests
use trust_the_people.Prelude.{
  ℕ, zero, suc, ◌+◌, ◌-◌, ◌%◌, ◌^◌, Bool, true, false, not, Option, none, some, List, [], ◌∷◌, ◌++◌,
  ltb, leb, if◌then◌else◌, length, is_empty, get_elem?, last?, filter,
}
use trust_the_people.Result.{◌>>=◌, ◌>>◌, text, network_error, Result, ok, err, panic, reject_if}
use trust_the_people.Map
use trust_the_people.Map.{Map}
use trust_the_people.Block.{Block}

pub data SyncState : Type 0 where
  idle : SyncState
  syncing : SyncState
  catching : SyncState
  synced : SyncState
  failed : SyncState

pub record SyncRequest : Type 0 where
  pub request_id : ℕ
  pub peer_id : ℕ
  pub start_height : ℕ
  pub end_height : ℕ
  pub requested_at : ℕ
  pub timeout : ℕ

pub record BlockSync : Type 0 where
  pub batch_size : ℕ
  pub state : SyncState
  pub current_height : ℕ
  pub target_height : ℕ
  pub start_height : ℕ
  pub pending_requests : Map SyncRequest
  pub received_blocks : List Block
  pub next_request_id : ℕ
  pub request_timeout : ℕ
  pub running : Bool
  pub sync_start_time : Option ℕ
  pub synced_blocks : ℕ

-- A peer as synchronisation sees it.
pub record PeerView : Type 0 where
  pub id : ℕ
  pub is_connected : Bool

pub record Wire : Type 0 where
  pub peers : List PeerView
  -- The random number that chooses the peer of a request.
  pub pick : ℕ → ℕ
  -- A request for a range of heights is encoded, and sent to the peer.
  pub sends : ℕ → ℕ → ℕ → Bool
  pub now : ℕ

unfoldable pub new : ℕ → BlockSync
new batch_size = record {
  batch_size = batch_size;
  state = idle;
  current_height = 0;
  target_height = 0;
  start_height = 0;
  pending_requests = Map.empty;
  received_blocks = [];
  next_request_id = 0;
  request_timeout = 30;
  running = false;
  sync_start_time = none;
  synced_blocks = 0;
}

unfoldable pub with_timeout : BlockSync → ℕ → BlockSync
with_timeout s timeout = record s { request_timeout = timeout }

unfoldable pub start : BlockSync → Result BlockSync
start s = do
  reject_if s.running (network_error (text "Sync already running"))
  ok (record s { running = true })

unfoldable pub stop : BlockSync → BlockSync
stop s = record s { running = false }

unfoldable pub complete_sync : BlockSync → BlockSync
complete_sync s = record s { state = synced }

unfoldable pub process_syncing : BlockSync → BlockSync
unfolding complete_sync
process_syncing s = if leb s.target_height s.current_height then complete_sync s else s

unfoldable pub process_sync : BlockSync → BlockSync
unfolding process_syncing
process_sync s = elim s.state [ syncing ↦ process_syncing s | _ ↦ s ]

-- `SyncRequest::is_timed_out`
unfoldable pub is_timed_out : SyncRequest → ℕ → Bool
is_timed_out r now = ltb r.timeout (now - r.requested_at)

unfoldable pub check_timeouts : BlockSync → ℕ → BlockSync
unfolding is_timed_out
check_timeouts s now = record s {
  pending_requests = Map.retain (λ r. not (is_timed_out r now)) s.pending_requests;
}

-- A round of the sync loop, while it runs.
unfoldable pub sync_round : BlockSync → ℕ → BlockSync
unfolding process_sync check_timeouts
sync_round s now = if not s.running then s else check_timeouts (process_sync s) now

unfoldable pub connected : Wire → List PeerView
connected w = filter (λ p. p.is_connected) w.peers

unfoldable pub select_sync_peer : Wire → ℕ → Result PeerView
unfolding connected
select_sync_peer w draw = do
  reject_if (is_empty (connected w)) (network_error (text "No peers available"))
  elim (get_elem? (connected w) (draw % length (connected w))) [
    | none ↦ err (network_error (text "Failed to select peer"))
    | some p ↦ ok p
  ]

-- `request_block_batch`; its error, which the caller only logs, is the Boolean false.
unfoldable pub request_block_batch : Wire → BlockSync → ℕ → ℕ → BlockSync × Bool
unfolding select_sync_peer
request_block_batch w s start end = elim (select_sync_peer w (w.pick s.next_request_id)) [
  | err e ↦ (s, false)
  | panic ↦ (s, false)
  | ok peer ↦
      let request_id = s.next_request_id in
      let numbered = record s { next_request_id = (request_id + 1) % 2 ^ 64 } in
      if not (w.sends peer.id start end) then (numbered, false) else (
        record numbered {
          pending_requests = Map.insert s.pending_requests request_id (record {
            request_id = request_id;
            peer_id = peer.id;
            start_height = start;
            end_height = end;
            requested_at = w.now;
            timeout = s.request_timeout;
          });
        },
        true,
      )
]

-- `(current + batch_size).min(end)`, on `u64` of a release build.
unfoldable pub batch_end : ℕ → ℕ → ℕ → ℕ
batch_end batch_size current end =
    let next = (current + batch_size) % 2 ^ 64 in if leb next end then next else end

-- The `while` loop of `request_blocks`, on fuel: nothing when it runs out.
unfoldable pub request_batches : ℕ → Wire → BlockSync → ℕ → ℕ → Option BlockSync
unfolding request_block_batch batch_end
request_batches zero w s current end = if ltb current end then none else some s
request_batches (suc fuel) w s current end =
    let next = batch_end s.batch_size current end in
    let rest = request_batches fuel w (request_block_batch w s current next).0 next end in
    if ltb current end then rest else some s

unfoldable pub request_blocks : ℕ → Wire → BlockSync → ℕ → ℕ → Result (Option BlockSync)
unfolding request_batches
request_blocks fuel w s start end = do
  reject_if (leb end start) (network_error (text "Invalid block range"))
  ok (
      request_batches fuel w
        (record s {
          state = syncing;
          current_height = start;
          target_height = end;
          start_height = start;
          sync_start_time = some w.now;
        })
        start end)

-- `received_blocks` is the queue; the count grows by its whole length.
unfoldable pub handle_block_response : BlockSync → List Block → BlockSync
handle_block_response s blocks =
    let queue = s.received_blocks ++ blocks in
    record s {
      received_blocks = queue;
      synced_blocks = (s.synced_blocks + length queue) % 2 ^ 64;
      current_height = elim (last? queue) [ none ↦ s.current_height | some b ↦ b.header.height ];
    }

unfoldable pub get_next_block : BlockSync → BlockSync × Option Block
get_next_block s = elim s.received_blocks [
  | [] ↦ (s, none)
  | b ∷ bs ↦ (record s { received_blocks = bs }, some b)
]

unfoldable pub pending_block_count : BlockSync → ℕ
pending_block_count s = length s.received_blocks

unfoldable pub set_state : BlockSync → SyncState → BlockSync
set_state s state = record s { state = state }

-- `status().is_syncing()`
unfoldable pub is_syncing : BlockSync → Bool
is_syncing s = elim s.state [ syncing ↦ true | catching ↦ true | _ ↦ false ]

-- `SyncStatus::remaining_blocks`, of the status of a synchronisation.
unfoldable pub remaining_blocks : BlockSync → ℕ
remaining_blocks s = s.target_height - s.current_height
