-- ===== src/Consensus/Majority.antt =====
-- A round changes only by a majority: `request_view_change` and `receive_view_change` of
-- crates/rc-consensus/src/lib.rs.
use routinechain.Base.{
  ℕ, ◌+◌, ◌<◌, ◌≡◌, subst, sym, ◌⊎◌, inl, inr, refl, List, ◌∷◌, length, leb, leb→le, true, arith,
  All, IsDistinct, add_u32, String,
}
use routinechain.Types.Bytes.{Id32}
use routinechain.Consensus.{
  Consensus, Peer, votes_of, set_insert, node_ids, all_node_ids, threshold, request_view_change,
  receive_view_change, add_peer, new_consensus, ViewOp, timed_out, vote_received, block_finalized,
  peer_found, view_step, view_run,
}
use routinechain.Consensus.Leader.{length-sort}
use routinechain.Consensus.Rounds.{
  voted, Explained, Explained-set_insert, Explained-older, Tracked, run-Tracked,
}

-- A majority of the nodes that a node knows.
abbrev pub IsMajority : Consensus → List Id32 → Type 0
IsMajority c xs = length (node_ids c) < length xs + length xs

majority : (c : Consensus) (xs : List Id32) → leb (threshold c) (length xs) ≡ true → IsMajority c xs
unfolding all_node_ids
majority c xs h = omega (arith, length-sort (node_ids c), leb→le _ _ h)

timed_out-IsMajority :
    (c : Consensus) (height : ℕ)
    → let xs = set_insert c.node_id (votes_of height (add_u32 c.round 1) c.view_change_votes) in
      ((request_view_change height c).1.round ≡ c.round)
      ⊎ (IsMajority c xs × ((request_view_change height c).1.round ≡ add_u32 c.round 1))
unfolding request_view_change
timed_out-IsMajority c height = ground (
  arith,
  majority c (set_insert c.node_id (votes_of height (add_u32 c.round 1) c.view_change_votes)),
)

vote_received-IsMajority :
    (c : Consensus) (height round : ℕ) (from : Id32)
    → let xs = set_insert from (votes_of height round c.view_change_votes) in
      ((receive_view_change height round from c).1.round ≡ c.round)
      ⊎ (IsMajority c xs × ((receive_view_change height round from c).1.round ≡ round))
unfolding receive_view_change
vote_received-IsMajority c height round from =
    ground (arith, majority c (set_insert from (votes_of height round c.view_change_votes)))

-- Why a round is what it is after an operation.
abbrev pub RoundOf : Consensus → List ViewOp → ViewOp → Consensus → ℕ → Type 0
RoundOf c0 history op c round =
    (round ≡ c.round)
    ⊎ ((op ≡ block_finalized)
        ⊎ ((height : ℕ) × (voters : List Id32) × IsDistinct voters
            × All (λ v. voted c0 height round v (op ∷ history) ≡ true) voters
            × IsMajority c voters))

by_majority :
    (c0 : Consensus) (history : List ViewOp) (op : ViewOp) (c : Consensus) (height round round' : ℕ)
    (voters : List Id32)
    → round' ≡ round
    → Explained c0 height round (op ∷ history) voters
    → IsMajority c voters
    → RoundOf c0 history op c round'
by_majority c0 history op c height round round' voters e (d, a) most =
    subst (RoundOf c0 history op c) (sym e) (inr (inr (height, voters, d, a, most)))

add_peer_round :
    (id public_key : Id32) (address : String) (c : Consensus)
    → (add_peer id public_key address c).1.round ≡ c.round
unfolding add_peer
add_peer_round id public_key address c = ground arith

step-RoundOf :
    (c0 : Consensus) (history : List ViewOp) (op : ViewOp) (c : Consensus)
    → (view_run history c0).round ≡ c.round
    → Tracked c0 history c
    → RoundOf c0 history op c (view_step op c).round
unfolding view_step
step-RoundOf c0 history (timed_out height) c now t = elim (timed_out-IsMajority c height) [
  | inl same ↦ inl same
  | inr (most, e) ↦
      by_majority c0 history (timed_out height) c height (add_u32 c.round 1) _ _ e
        (Explained-set_insert c0 height (add_u32 c.round 1) (timed_out height ∷ history) c.node_id _
          (rw (t.is_self, now) (ground arith))
          (Explained-older c0 (timed_out height) history c (λ h r v k. ground (arith, k)) t height
            (add_u32 c.round 1)))
        most
]
step-RoundOf c0 history (vote_received height round from) c now t =
    elim (vote_received-IsMajority c height round from) [
      | inl same ↦ inl same
      | inr (most, e) ↦
          by_majority c0 history (vote_received height round from) c height round _ _ e
            (Explained-set_insert c0 height round (vote_received height round from ∷ history) from _
              (ground arith)
              (Explained-older c0 (vote_received height round from) history c
                (λ h r v k. ground (arith, k)) t height round))
            most
    ]
step-RoundOf c0 history block_finalized c now t = inr (inl refl)
step-RoundOf c0 history (peer_found id public_key address) c now t =
    inl (add_peer_round id public_key address c)

-- After any history of a new node, the next operation leaves the round, or it is the finalization
-- of a block, or the new round has the votes of a majority: different voters, more than half as
-- many as the nodes that this node knows, each of which voted for this round at one height since the
-- last block was finalized, by a message that names the round or, this node itself, by timing out in
-- the round before.
pub round_needs_majority :
    (self : Id32) (key : ℕ) (peers : List Peer) (min : ℕ) (history : List ViewOp) (op : ViewOp)
    → let c0 = new_consensus self key peers min in
      let c = view_run history c0 in RoundOf c0 history op c (view_step op c).round
round_needs_majority self key peers min history op =
    let c0 = new_consensus self key peers min in
    step-RoundOf c0 history op _ refl (run-Tracked c0 history refl)
