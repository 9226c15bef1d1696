-- ===== src/Network/Sync/Requests.antt =====
-- The requests that `request_blocks` makes.
use trust_the_people.Prelude.{
  ℕ, zero, suc, ◌+◌, ◌-◌, ◌%◌, ◌^◌, ◌≤◌, ◌<◌, ◌≡◌, refl, ap, ◌∙◌, ◌⊎◌, inl, inr, true, false, none,
  some, List, [], ◌∷◌, arith, ltb, leb, ◌==◌, ltb→lt, lt→ltb, ==_refl, Bool-cases, if-true,
  if-false, length, is_empty, get_elem?-total,
}
use trust_the_people.Result.{VotingError, Result, ok, err, panic}
use trust_the_people.Map
use trust_the_people.Map.{Map}
use trust_the_people.Map.Laws.{get-insert}
use trust_the_people.Network.Sync.{
  BlockSync, SyncRequest, Wire, PeerView, connected, select_sync_peer, request_block_batch,
  batch_end, request_batches, request_blocks, syncing,
}

-- A pending request asks for a height.
pub record IsRequested (s : BlockSync) (h : ℕ) : Type 0 where
  pub request : SyncRequest
  pub id : ℕ
  pub pending : Map.get s.pending_requests id ≡ some request
  pub from : request.start_height ≤ h
  pub below : h < request.end_height

-- Some peer is connected, and every request is sent.
pub record IsOpen (w : Wire) : Type 0 where
  pub some_peer : 0 < length (connected w)
  pub sent : (peer start end : ℕ) → w.sends peer start end ≡ true

nonempty : (ps : List PeerView) → 0 < length ps → is_empty ps ≡ false
nonempty [] h = absurd (omega arith)
nonempty (p ∷ ps) h = refl

not_below : (current end : ℕ) → end ≤ current → ltb current end ≡ false
not_below current end l = ground arith

not_reversed : (start end : ℕ) → start < end → leb end start ≡ false
not_reversed start end l = ground arith

select_sync_peer-IsOpen :
    (w : Wire) (draw : ℕ) → IsOpen w → (p : PeerView) × (select_sync_peer w draw ≡ ok p)
unfolding select_sync_peer
select_sync_peer-IsOpen w draw o =
    let (p, at) =
      get_elem?-total (connected w) (draw % length (connected w)) (omega (arith, o.some_peer)) in
    (p, rw (nonempty (connected w) o.some_peer, at) refl)

-- The state after a request that is sent.
requested : Wire → BlockSync → PeerView → ℕ → ℕ → BlockSync
requested w s peer start end = record s {
  next_request_id = (s.next_request_id + 1) % 2 ^ 64;
  pending_requests = Map.insert s.pending_requests s.next_request_id (record {
    request_id = s.next_request_id;
    peer_id = peer.id;
    start_height = start;
    end_height = end;
    requested_at = w.now;
    timeout = s.request_timeout;
  });
}

request_block_batch-IsOpen :
    (w : Wire) (s : BlockSync) (start end : ℕ)
    → IsOpen w
    → (p : PeerView) × ((request_block_batch w s start end).0 ≡ requested w s p start end)
unfolding request_block_batch requested
request_block_batch-IsOpen w s start end o =
    let (p, e) = select_sync_peer-IsOpen w (w.pick s.next_request_id) o in
    (p, rw (e, request_block_batch, o.sent p.id start end) refl)

batch_end-within :
    (size current end : ℕ)
    → 1 ≤ size
    → size + end < 2 ^ 64
    → current < end
    → (current < batch_end size current end) × (batch_end size current end ≤ end)
unfolding batch_end
batch_end-within size current end l m n = (ground arith, ground arith)

-- What the loop promises from a state on: it ends, keeps the requests made, and asks for every height.
record Asks (w : Wire) (fuel : ℕ) (s : BlockSync) (current end : ℕ) : Type 0 where
  result : BlockSync
  ends : request_batches fuel w s current end ≡ some result
  keeps :
      (id : ℕ) (r : SyncRequest)
      → id < s.next_request_id
      → Map.get s.pending_requests id ≡ some r
      → Map.get result.pending_requests id ≡ some r
  asks : (h : ℕ) → current ≤ h → h < end → IsRequested result h

stop-Asks :
    (w : Wire) (fuel : ℕ) (s : BlockSync) (current end : ℕ)
    → end ≤ current
    → Asks w fuel s current end
unfolding request_batches
stop-Asks w zero s current end l = record {
  result = s;
  ends = rw (not_below current end l) refl;
  keeps = λ id r below at. at;
  asks = λ h from to. absurd (omega arith);
}
stop-Asks w (suc fuel) s current end l = record {
  result = s;
  ends = rw (not_below current end l) refl;
  keeps = λ id r below at. at;
  asks = λ h from to. absurd (omega arith);
}

-- A round of the loop that goes on.
request_batches-more :
    (w : Wire) (fuel : ℕ) (s s1 : BlockSync) (current end : ℕ)
    → ltb current end ≡ true
    → (request_block_batch w s current (batch_end s.batch_size current end)).0 ≡ s1
    → request_batches (suc fuel) w s current end
      ≡ request_batches fuel w s1 (batch_end s.batch_size current end) end
unfolding request_batches
request_batches-more w fuel s s1 current end more sent = rw (more, sent) refl

-- The state that `request_blocks` begins with.
begun : Wire → BlockSync → ℕ → ℕ → BlockSync
begun w s start end = record s {
  state = syncing;
  current_height = start;
  target_height = end;
  start_height = start;
  sync_start_time = some w.now;
}

request_blocks-begun :
    (fuel : ℕ) (w : Wire) (s : BlockSync) (start end : ℕ)
    → start < end
    → request_blocks fuel w s start end
      ≡ ok (request_batches fuel w (begun w s start end) start end)
unfolding request_blocks begun
request_blocks-begun fuel w s start end l = rw (not_reversed start end l) refl

request_batches-Asks :
    (w : Wire) (end : ℕ)
    → IsOpen w
    → (fuel : ℕ) (s : BlockSync) (current : ℕ) → 1 ≤ s.batch_size
    → s.batch_size + end < 2 ^ 64
    → end ≤ current + fuel
    → s.next_request_id + end < 2 ^ 64 + current
    → Asks w fuel s current end
unfolding requested
request_batches-Asks w end o zero s current size room enough ids =
    stop-Asks w zero s current end (omega arith)
request_batches-Asks w end o (suc fuel) s current size room enough ids =
    elim (Bool-cases (ltb current end)) [
      | inr done ↦ stop-Asks w (suc fuel) s current end (ground (arith, done))
      | inl more ↦
          let next = batch_end s.batch_size current end in
          let (up, within) =
            batch_end-within s.batch_size current end size room (ltb→lt current end more) in
          let (p, sent) = request_block_batch-IsOpen w s current next o in
          let s1 = requested w s p current next in
          let number : s1.next_request_id ≡ s.next_request_id + 1 = omega (arith, within) in
          let ih =
            request_batches-Asks w end o fuel s1 next size room (omega arith)
              (omega (arith, number)) in
          record {
            result = ih.result;
            ends = request_batches-more w fuel s s1 current end more sent ∙ ih.ends;
            keeps = λ id r below at. ih.keeps id r (omega (arith, number)) (
                get-insert s.pending_requests s.next_request_id id _
                ∙ if-false (id == s.next_request_id) _ _ (ground arith)
                ∙ at);
            asks = λ h from to. elim (Bool-cases (ltb h next)) [
              | inr later ↦ ih.asks h (ground (arith, later)) to
              | inl now ↦ record {
                request = _;
                id = s.next_request_id;
                pending = ih.keeps s.next_request_id _ (omega (arith, number)) (
                    get-insert s.pending_requests s.next_request_id s.next_request_id _
                    ∙ if-true (s.next_request_id == s.next_request_id) _ _
                        (==_refl s.next_request_id));
                from = from;
                below = ltb→lt h next now;
              }
            ];
          }
    ]

-- With a positive batch size, some peer connected and every request sent, and numbers that fit in a
-- `u64`: as much fuel as there are heights is enough for the loop to end, and a request is then pending
-- for each height of the range.
pub request_blocks-IsRequested :
    (w : Wire) (s : BlockSync) (start end h : ℕ)
    → IsOpen w
    → 1 ≤ s.batch_size
    → s.batch_size + end < 2 ^ 64
    → s.next_request_id + end < 2 ^ 64
    → start ≤ h
    → h < end
    → (s' : BlockSync) × (request_blocks (end - start) w s start end ≡ ok (some s'))
      × IsRequested s' h
unfolding begun
request_blocks-IsRequested w s start end h o size room ids from to =
    let a =
      request_batches-Asks w end o (end - start) (begun w s start end) start size room (omega arith)
        (omega arith) in
    (
      a.result,
      request_blocks-begun (end - start) w s start end (omega arith) ∙ ap ok a.ends,
      a.asks h from to,
    )

Result-cases :
    (r : Result PeerView)
    → ((p : PeerView) × (r ≡ ok p)) ⊎ (((e : VotingError) × (r ≡ err e)) ⊎ (r ≡ panic))
Result-cases (ok p) = inl (p, refl)
Result-cases (err e) = inr (inl (e, refl))
Result-cases panic = inr (inr refl)

batch_size-kept :
    (w : Wire) (s : BlockSync) (start end : ℕ)
    → (request_block_batch w s start end).0.batch_size ≡ s.batch_size
unfolding request_block_batch
batch_size-kept w s start end =
    elim (Result-cases (select_sync_peer w (w.pick s.next_request_id))) [
      | inr (inl (e, f)) ↦ rw (f, request_block_batch) refl
      | inr (inr f) ↦ rw (f, request_block_batch) refl
      | inl (p, f) ↦ elim (Bool-cases (w.sends p.id start end)) [
        | inl t ↦ rw (f, request_block_batch, t) refl
        | inr t ↦ rw (f, request_block_batch, t) refl
      ]
    ]

batch_end-zero :
    (size current end : ℕ)
    → size ≡ 0
    → current < end
    → end < 2 ^ 64
    → batch_end size current end ≡ current
unfolding batch_end
batch_end-zero size current end z l m = ground arith

request_batches_stuck :
    (fuel : ℕ) (w : Wire) (s : BlockSync) (current end : ℕ)
    → s.batch_size ≡ 0
    → current < end
    → end < 2 ^ 64
    → request_batches fuel w s current end ≡ none
request_batches_stuck zero w s current end z l m =
    unfold request_batches in rw (lt→ltb current end l) refl
request_batches_stuck (suc fuel) w s current end z l m =
    let next = batch_end s.batch_size current end in
    let s1 = (request_block_batch w s current next).0 in
    request_batches-more w fuel s s1 current end (lt→ltb current end l) refl
    ∙ ap (λ n. request_batches fuel w s1 n end) (batch_end-zero s.batch_size current end z l m)
    ∙ request_batches_stuck fuel w s1 current end (batch_size-kept w s current next ∙ z) l m

-- With a batch size of 0 the loop never ends, however much fuel it is given. The range is not empty and
-- its end is below 2 ^ 64.
pub request_blocks_stuck :
    (fuel : ℕ) (w : Wire) (s : BlockSync) (start end : ℕ)
    → s.batch_size ≡ 0
    → start < end
    → end < 2 ^ 64
    → request_blocks fuel w s start end ≡ ok none
unfolding begun
request_blocks_stuck fuel w s start end z l m =
    request_blocks-begun fuel w s start end l
    ∙ ap ok (request_batches_stuck fuel w (begun w s start end) start end z l m)
