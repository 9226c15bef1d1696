-- ===== src/Network/Gossip/Relaying.antt =====
-- What gossip sends.
use trust_the_people.Prelude.{
  ℕ, zero, suc, ◌≤◌, ◌≡◌, refl, subst, ◌∙◌, inl, inr, true, List, [], ◌∷◌, arith, Bool-cases,
  Option-cases, length,
}
use trust_the_people.Map
use trust_the_people.Map.{Map}
use trust_the_people.Map.Laws.{contains_key-insert, contains_key-get}
use trust_the_people.Network.Sync.{PeerView}
use trust_the_people.Network.Gossip.{
  GossipProtocol, GossipMessage, Air, get_message_id, has_seen, mark_seen, mark_propagated_to, take,
  select_gossip_targets, send_to_targets, gossip, handle_received_message,
}

mark_seen-has_seen : (g : GossipProtocol) (id now : ℕ) → has_seen (mark_seen g id now) id ≡ true
unfolding has_seen mark_seen
mark_seen-has_seen g id now = elim (Option-cases (Map.get g.seen_messages id)) [
  | inr (e, at) ↦ rw (at, mark_seen) (contains_key-get g.seen_messages id e at)
  | inl n ↦ rw (n, mark_seen) (contains_key-insert g.seen_messages id id _ ∙ ground arith)
]

gossip_seen :
    (a : Air) (g : GossipProtocol) (m : GossipMessage)
    → has_seen g (get_message_id m) ≡ true
    → gossip a g m ≡ (g, [])
unfolding gossip
gossip_seen a g m h = rw h refl

-- A message that is received is not passed on to any peer, seen before or not.
pub handle_received_message_silent :
    (a : Air) (g : GossipProtocol) (m : GossipMessage) (from_peer : ℕ)
    → (handle_received_message a g m from_peer).1 ≡ []
unfolding handle_received_message
handle_received_message_silent a g m from_peer = elim (Bool-cases (has_seen g (get_message_id m))) [
  | inl old ↦ rw old refl
  | inr new ↦
      rw
        (
          new,
          gossip_seen a (mark_seen g (get_message_id m) a.now) m
              (mark_seen-has_seen g (get_message_id m) a.now),
        )
        refl
]

length-take : (n : ℕ) (ps : List PeerView) → length (take n ps) ≤ n
unfolding take
length-take zero ps = omega arith
length-take (suc n) [] = omega arith
length-take (suc n) (p ∷ ps) = omega (arith, length-take n ps)

mark_seen-fanout : (g : GossipProtocol) (id now : ℕ) → (mark_seen g id now).fanout ≡ g.fanout
unfolding mark_seen
mark_seen-fanout g id now = elim (Option-cases (Map.get g.seen_messages id)) [
  | inr (e, at) ↦ rw (at, mark_seen) refl
  | inl n ↦ rw (n, mark_seen) refl
]

targets-fanout :
    (a : Air) (g : GossipProtocol) (id now : ℕ)
    → length (select_gossip_targets a (mark_seen g id now) id) ≤ g.fanout
unfolding select_gossip_targets
targets-fanout a g id now =
    subst (λ n. length (select_gossip_targets a (mark_seen g id now) id) ≤ n)
      (mark_seen-fanout g id now) (length-take (mark_seen g id now).fanout _)

mark_propagated_to-has_seen :
    (g : GossipProtocol) (id peer : ℕ)
    → has_seen g id ≡ true
    → has_seen (mark_propagated_to g id peer) id ≡ true
unfolding has_seen mark_propagated_to
mark_propagated_to-has_seen g id peer h = elim (Option-cases (Map.get g.seen_messages id)) [
  | inl n ↦ rw (n, mark_propagated_to) h
  | inr (e, at) ↦
      rw (at, mark_propagated_to) (contains_key-insert g.seen_messages id id _ ∙ ground arith)
]

send_to_targets-bound :
    (a : Air) (m : GossipMessage) (id : ℕ) (ps : List PeerView) (g : GossipProtocol)
    → has_seen g id ≡ true
    → (length (send_to_targets a g m id ps).1 ≤ length ps)
      × (has_seen (send_to_targets a g m id ps).0 id ≡ true)
unfolding send_to_targets
send_to_targets-bound a m id [] g h = (omega arith, h)
send_to_targets-bound a m id (p ∷ ps) g h =
    let yes =
      send_to_targets-bound a m id ps (mark_propagated_to g id p.id)
        (mark_propagated_to-has_seen g id p.id h) in
    let no = send_to_targets-bound a m id ps g h in
    elim (Bool-cases (a.sends p.id m)) [
      | inl e ↦ rw e (omega (arith, yes.0), yes.1)
      | inr e ↦ rw e (omega (arith, no.0), no.1)
    ]

-- A message is sent to as many peers as the fanout at most, and a second call with it sends nothing and
-- changes nothing.
pub gossip-fanout :
    (a a' : Air) (g : GossipProtocol) (m : GossipMessage)
    → (length (gossip a g m).1 ≤ g.fanout) × (gossip a' (gossip a g m).0 m ≡ ((gossip a g m).0, []))
gossip-fanout a a' g m = elim (Bool-cases (has_seen g (get_message_id m))) [
  | inl old ↦ rw (gossip_seen a g m old) (omega arith, gossip_seen a' g m old)
  | inr new ↦
      let id = get_message_id m in
      let g1 = mark_seen g id a.now in
      let targets = select_gossip_targets a g1 id in
      let (few, seen) = send_to_targets-bound a m id targets g1 (mark_seen-has_seen g id a.now) in
      let same : gossip a g m ≡ send_to_targets a g1 m id targets = unfold gossip in rw new refl in
      rw same (
        omega (arith, few, targets-fanout a g id a.now),
        gossip_seen a' (send_to_targets a g1 m id targets).0 m seen,
      )
]
