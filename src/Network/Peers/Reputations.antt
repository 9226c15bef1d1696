-- ===== src/Network/Peers/Reputations.antt =====
-- The score of a peer over a sequence of changes.
use trust_the_people.Prelude.{
  ℕ, ◌+◌, ◌-◌, ◌%◌, ◌^◌, ◌≤◌, ◌<◌, ◌≡◌, refl, sym, ap, subst, ◌∙◌, inl, inr, List, [], ◌∷◌, arith,
  leb, ◌==◌, if◌then◌else◌, ==_iff, ==_refl, Bool-cases, All,
}
use trust_the_people.Map
use trust_the_people.Map.{Map}
use trust_the_people.Map.Laws.{get-insert}
use trust_the_people.Network.Peers.{
  Channels, Reputation, PeerManager, i32_ltb, i32_abs, clamp, increase, decrease, get_reputation,
  update_reputation, is_bannable, should_ban, new_manager,
}

-- The distance of a score from the least one.
unfoldable pub level : Reputation → ℕ
level r = (r.score + 100) % 2 ^ 32

pub data Change : Type 0 where
  gain : ℕ → Change
  loss : ℕ → Change

-- The `i32` of a change.
unfoldable pub word : Change → ℕ
word (gain n) = n
word (loss n) = (2 ^ 32 - n) % 2 ^ 32

unfoldable pub size : Change → ℕ
size (gain n) = n
size (loss n) = n

-- A change of a level between 0 and 200.
unfoldable pub moved : Change → ℕ → ℕ
moved (gain n) l = if leb (l + n) 200 then l + n else 200
moved (loss n) l = l - n

unfoldable pub IsSmall : Change → Type 0
unfolding size
IsSmall c = size c ≤ 2 ^ 31 - 101

-- A score between -100 and 100.
pub IsScore : Reputation → Type 0
unfolding level
IsScore r = (level r ≤ 200) × (r.score < 2 ^ 32)

increase-IsScore : (r : Reputation) (n : ℕ) → IsScore (increase r n)
unfolding increase clamp level i32_ltb IsScore
increase-IsScore r n = (ground arith, ground arith)

decrease-IsScore : (r : Reputation) (n : ℕ) → IsScore (decrease r n)
unfolding decrease clamp level i32_ltb IsScore
decrease-IsScore r n = (ground arith, ground arith)

unfoldable pub changed : Reputation → Change → Reputation
unfolding increase decrease i32_abs i32_ltb word
changed r c = if i32_ltb 0 (word c) then increase r (word c) else decrease r (i32_abs (word c))

changed-level :
    (r : Reputation) (c : Change) → IsScore r → IsSmall c → level (changed r c) ≡ moved c (level r)
unfolding changed i32_abs i32_ltb word IsSmall size IsScore increase decrease clamp level moved
changed-level r (gain n) (l, w) s = ground arith
changed-level r (loss n) (l, w) s = ground arith

changed-IsScore : (r : Reputation) (c : Change) → IsScore (changed r c)
unfolding changed
changed-IsScore r c = elim (Bool-cases (i32_ltb 0 (word c))) [
  | inl up ↦ rw up (increase-IsScore r (word c))
  | inr down ↦ rw down (decrease-IsScore r (i32_abs (word c)))
]

-- The level of a peer after a sequence of changes, of which only those to it count.
unfoldable pub follow : ℕ → List (ℕ × Change) → ℕ → ℕ
follow j [] l = l
follow j ((id, c) ∷ cs) l = follow j cs (if j == id then moved c l else l)

overflow :
    (r : Reputation) (n : ℕ)
    → n ≤ r.score
    → r.score ≤ 100
    → 1 ≤ n
    → changed r (gain (2 ^ 31 - n)) ≡ record { score = 2 ^ 32 - 100 }
unfolding changed increase clamp i32_ltb word
overflow r n b c p = ground arith

module _ {ch : Channels} where
  get_reputation-insert :
      (m : PeerManager ch) (id j : ℕ) (r : Reputation)
      → get_reputation (record m { reputations = Map.insert m.reputations id r }) j
        ≡ (if j == id then r else get_reputation m j)
  unfolding get_reputation
  get_reputation-insert m id j r = ground (arith, get-insert m.reputations id j r)

  update_reputation-get :
      (m : PeerManager ch) (id j : ℕ) (c : Change)
      → get_reputation (update_reputation m id (word c)) j
        ≡ (if j == id then changed (get_reputation m id) c else get_reputation m j)
  unfolding update_reputation changed
  update_reputation-get m id j c = get_reputation-insert m id j (changed (get_reputation m id) c)

  should_ban_lem :
      (m : PeerManager ch) (j : ℕ)
      → IsScore (get_reputation m j)
      → should_ban m j ≡ (level (get_reputation m j) == 0)
  unfolding should_ban is_bannable i32_ltb IsScore level
  should_ban_lem m j (l, w) = ground arith

-- A peer whose score is `l` above -100.
pub record HasLevel {ch : Channels} (m : PeerManager ch) (j l : ℕ) : Type 0 where
  pub score : IsScore (get_reputation m j)
  pub at : level (get_reputation m j) ≡ l
  pub bans : should_ban m j ≡ (l == 0)

module _ {ch : Channels} where
  level-HasLevel :
      (m : PeerManager ch) (j : ℕ)
      → IsScore (get_reputation m j)
      → HasLevel m j (level (get_reputation m j))
  level-HasLevel m j s = record { score = s; at = refl; bans = should_ban_lem m j s }

  update_reputation-HasLevel :
      (m : PeerManager ch) (id j l : ℕ) (c : Change)
      → HasLevel m j l
      → IsSmall c
      → HasLevel (update_reputation m id (word c)) j (if j == id then moved c l else l)
  update_reputation-HasLevel m id j l c h s = elim (Bool-cases (j == id)) [
    | inl same ↦
        let e : get_reputation (update_reputation m id (word c)) j
            ≡ changed (get_reputation m j) c =
          update_reputation-get m id j c
          ∙ rw same (ap (λ i. changed (get_reputation m i) c) (sym ((==_iff j id).0 same))) in
        let moves =
          ap level e ∙ changed-level (get_reputation m j) c h.score s ∙ ap (moved c) h.at in
        rw same (
          subst (HasLevel (update_reputation m id (word c)) j) moves (
            level-HasLevel (update_reputation m id (word c)) j
              (subst IsScore (sym e) (changed-IsScore (get_reputation m j) c))))
    | inr other ↦
        let e : get_reputation (update_reputation m id (word c)) j ≡ get_reputation m j =
          update_reputation-get m id j c ∙ rw other refl in
        rw other (
          subst (HasLevel (update_reputation m id (word c)) j) (ap level e ∙ h.at)
            (level-HasLevel (update_reputation m id (word c)) j (subst IsScore (sym e) h.score)))
  ]

  -- A sequence of changes, each to the peer of its id.
  unfoldable pub run : PeerManager ch → List (ℕ × Change) → PeerManager ch
  run m [] = m
  run m ((id, c) ∷ cs) = run (update_reputation m id (word c)) cs

  run-HasLevel :
      (cs : List (ℕ × Change)) (m : PeerManager ch) (j l : ℕ)
      → All (λ p. IsSmall p.1) cs
      → HasLevel m j l
      → HasLevel (run m cs) j (follow j cs l)
  unfolding run follow
  run-HasLevel [] m j l s h = h
  run-HasLevel ((id, c) ∷ cs) m j l s h =
      run-HasLevel cs (update_reputation m id (word c)) j (if j == id then moved c l else l) s.1
        (update_reputation-HasLevel m id j l c h s.0)

  -- A gain of 2 ^ 31 - n for an n below the score, which is positive, leaves the least score.
  pub update_reputation-overflow :
      (m : PeerManager ch) (id n : ℕ)
      → IsScore (get_reputation m id)
      → n ≤ (get_reputation m id).score
      → (get_reputation m id).score ≤ 100
      → 1 ≤ n
      → get_reputation (update_reputation m id (2 ^ 31 - n)) id ≡ record { score = 2 ^ 32 - 100 }
  unfolding word
  update_reputation-overflow m id n s b c p =
      update_reputation-get m id id (gain (2 ^ 31 - n))
      ∙ (rw (==_refl id) (overflow (get_reputation m id) n b c p))

module _ (ch : Channels) where
  -- In a new manager, while no change exceeds 2 ^ 31 - 101: a peer's score stays between -100 and 100,
  -- moves from 0 by the changes to that peer alone, each cut off at -100 and 100, and the peer is to be
  -- banned exactly when its score is -100.
  pub run-follow :
      (cs : List (ℕ × Change)) (max_peers j : ℕ)
      → All (λ p. IsSmall p.1) cs
      → HasLevel (run (new_manager ch max_peers) cs) j (follow j cs 100)
  unfolding IsScore get_reputation Map.get new_manager Map.empty
  run-follow cs max_peers j s =
      run-HasLevel cs (new_manager ch max_peers) j 100 s
        (level-HasLevel (new_manager ch max_peers) j (omega arith, omega arith))
