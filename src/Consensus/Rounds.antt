-- ===== src/Consensus/Rounds.antt =====
-- What a node knows of the votes to change the leader, over any history: the view change of crates/rc-consensus/src/lib.rs.
use routinechain.Base.{
  ℕ, ◌≡◌, inl, inr, refl, ◌∙◌, List, [], ◌∷◌, length, leb, ◌==◌, ◌||◌, ◌&&◌, true, false, contains,
  arith, Bool, Bool-cases, if◌then◌else◌, All, All-append, ltb, add_u32, IsDistinct,
  IsDistinct-snoc, String,
}
use routinechain.Types.Bytes.{Id32}
use routinechain.Consensus.{
  Consensus, ViewVotes, votes_of, put_votes, retain, set_insert, threshold, request_view_change,
  receive_view_change, add_peer, ViewOp, timed_out, vote_received, block_finalized, peer_found,
  view_step, view_run,
}

pub votes_of-put_votes :
    (h r h' r' : ℕ) (xs : List Id32) (vs : List ViewVotes)
    → votes_of h' r' (put_votes h r xs vs) ≡ (if h == h' && r == r' then xs else votes_of h' r' vs)
votes_of-put_votes h r h' r' xs [] = ground arith
votes_of-put_votes h r h' r' xs (v ∷ vs) = ground (arith, votes_of-put_votes h r h' r' xs vs)

pub votes_of-retain :
    (k h r : ℕ) (vs : List ViewVotes)
    → votes_of h r (retain k vs) ≡ (if leb k h then votes_of h r vs else [])
votes_of-retain k h r [] = ground arith
votes_of-retain k h r (v ∷ vs) = ground (arith, votes_of-retain k h r vs)

-- Whether a node has voted for a round at a height since the last block, as far as this node knows,
-- which was once in the state `c0`: the vote was received, or the node is this one itself, which has
-- timed out at the height in the round before.
abbrev pub voted : Consensus → ℕ → ℕ → Id32 → List ViewOp → Bool
voted c0 h r v [] = false
voted c0 h r v (timed_out h' ∷ ops) =
    h' == h && (v == c0.node_id && add_u32 (view_run ops c0).round 1 == r) || voted c0 h r v ops
voted c0 h r v (vote_received h' r' from ∷ ops) =
    h' == h && (r' == r && from == v) || voted c0 h r v ops
voted c0 h r v (block_finalized ∷ ops) = false
voted c0 h r v (peer_found _ _ _ ∷ ops) = voted c0 h r v ops

-- A set of voters that the history explains.
abbrev pub Explained : Consensus → ℕ → ℕ → List ViewOp → List Id32 → Type 0
Explained c0 h r ops xs = IsDistinct xs × All (λ v. voted c0 h r v ops ≡ true) xs

All-voted :
    (c0 : Consensus) (h r : ℕ) (op : ViewOp) (ops : List ViewOp) (xs : List Id32)
    → ((v : Id32) → voted c0 h r v ops ≡ true → voted c0 h r v (op ∷ ops) ≡ true)
    → All (λ v. voted c0 h r v ops ≡ true) xs
    → All (λ v. voted c0 h r v (op ∷ ops) ≡ true) xs
All-voted c0 h r op ops [] k a = tt
All-voted c0 h r op ops (x ∷ xs) k a = (k x a.0, All-voted c0 h r op ops xs k a.1)

pub Explained-set_insert :
    (c0 : Consensus) (h r : ℕ) (ops : List ViewOp) (x : Id32) (xs : List Id32)
    → voted c0 h r x ops ≡ true
    → Explained c0 h r ops xs
    → Explained c0 h r ops (set_insert x xs)
Explained-set_insert c0 h r ops x xs new (d, a) = elim (Bool-cases (contains xs x)) [
  | inl there ↦ rw there (d, a)
  | inr fresh ↦ rw fresh (IsDistinct-snoc xs x d fresh, All-append _ xs _ a (new, tt))
]

-- What is known of a node after a history.
pub record Tracked (c0 : Consensus) (ops : List ViewOp) (c : Consensus) : Type 0 where
  pub is_self : c.node_id ≡ c0.node_id
  pub explained : (h r : ℕ) → Explained c0 h r ops (votes_of h r c.view_change_votes)

-- A longer history explains what a shorter one does.
pub Explained-older :
    (c0 : Consensus) (op : ViewOp) (ops : List ViewOp) (c : Consensus)
    → ((h r : ℕ) (v : Id32) → voted c0 h r v ops ≡ true → voted c0 h r v (op ∷ ops) ≡ true)
    → Tracked c0 ops c
    → (h r : ℕ) → Explained c0 h r (op ∷ ops) (votes_of h r c.view_change_votes)
Explained-older c0 op ops c k t h r =
    ((t.explained h r).0, All-voted c0 h r op ops _ (k h r) (t.explained h r).1)

-- The write of one set of voters, and the removal of the old ones, keep the votes explained.
Explained-put_votes :
    (c0 : Consensus) (ops : List ViewOp) (h r : ℕ) (xs : List Id32) (vs : List ViewVotes)
    → Explained c0 h r ops xs
    → ((h' r' : ℕ) → Explained c0 h' r' ops (votes_of h' r' vs))
    → (h' r' : ℕ) → Explained c0 h' r' ops (votes_of h' r' (put_votes h r xs vs))
Explained-put_votes c0 ops h r xs vs new old h' r' =
    rw (votes_of-put_votes h r h' r' xs vs) (ground (arith, old h' r'))

Explained-retain :
    (c0 : Consensus) (ops : List ViewOp) (k : ℕ) (vs : List ViewVotes)
    → ((h r : ℕ) → Explained c0 h r ops (votes_of h r vs))
    → (h r : ℕ) → Explained c0 h r ops (votes_of h r (retain k vs))
Explained-retain c0 ops k vs old h r = rw (votes_of-retain k h r vs) (ground (arith, old h r))

timed_out-Tracked :
    (c0 : Consensus) (ops : List ViewOp) (height : ℕ) (c : Consensus)
    → (view_run ops c0).round ≡ c.round
    → Tracked c0 ops c
    → Tracked c0 (timed_out height ∷ ops) (request_view_change height c).1
unfolding request_view_change
timed_out-Tracked c0 ops height c now t =
    let next = add_u32 c.round 1 in
    let ops' = timed_out height ∷ ops in
    let older = Explained-older c0 (timed_out height) ops c (λ h r v e. ground (arith, e)) t in
    let entry =
      Explained-set_insert c0 height next ops' c.node_id _ (rw (t.is_self, now) (ground arith))
        (older height next) in
    let put = Explained-put_votes c0 ops' height next _ c.view_change_votes entry older in
    elim (Bool-cases (
      leb (threshold c)
        (length (set_insert c.node_id (votes_of height next c.view_change_votes))))) [
          | inl enough ↦
              rw enough
                (record { is_self = t.is_self; explained = Explained-retain c0 ops' height _ put })
          | inr few ↦ rw few (record { is_self = t.is_self; explained = put })
        ]

vote_received-Tracked :
    (c0 : Consensus) (ops : List ViewOp) (height round : ℕ) (from : Id32) (c : Consensus)
    → Tracked c0 ops c
    → Tracked c0 (vote_received height round from ∷ ops) (receive_view_change height round from c).1
unfolding receive_view_change
vote_received-Tracked c0 ops height round from c t =
    let ops' = vote_received height round from ∷ ops in
    let older =
      Explained-older c0 (vote_received height round from) ops c (λ h r v e. ground (arith, e)) t in
    let entry =
      Explained-set_insert c0 height round ops' from _ (ground arith) (older height round) in
    let put = Explained-put_votes c0 ops' height round _ c.view_change_votes entry older in
    elim (Bool-cases (
      leb (threshold c) (length (set_insert from (votes_of height round c.view_change_votes)))
      && ltb c.round round)) [
        | inl enough ↦
            rw enough
              (record { is_self = t.is_self; explained = Explained-retain c0 ops' height _ put })
        | inr few ↦ rw few (record { is_self = t.is_self; explained = put })
      ]

add_peer_frame :
    (id public_key : Id32) (address : String) (c : Consensus)
    → ((add_peer id public_key address c).1.node_id ≡ c.node_id)
      × ((add_peer id public_key address c).1.view_change_votes ≡ c.view_change_votes)
unfolding add_peer
add_peer_frame id public_key address c = ground arith

step-Tracked :
    (c0 : Consensus) (op : ViewOp) (ops : List ViewOp) (c : Consensus)
    → (view_run ops c0).round ≡ c.round
    → Tracked c0 ops c
    → Tracked c0 (op ∷ ops) (view_step op c)
unfolding view_step
step-Tracked c0 (timed_out height) ops c now t = timed_out-Tracked c0 ops height c now t
step-Tracked c0 (vote_received height round from) ops c now t =
    vote_received-Tracked c0 ops height round from c t
step-Tracked c0 block_finalized ops c now t = record {
  is_self = t.is_self;
  explained = λ h r. (tt, tt);
}
step-Tracked c0 (peer_found id public_key address) ops c now t = record {
  is_self = (add_peer_frame id public_key address c).0 ∙ t.is_self;
  explained = λ h r. rw (add_peer_frame id public_key address c).1 (t.explained h r);
}

pub run-Tracked :
    (c0 : Consensus) (ops : List ViewOp)
    → c0.view_change_votes ≡ []
    → Tracked c0 ops (view_run ops c0)
unfolding view_run
run-Tracked c0 [] fresh = record { is_self = refl; explained = λ h r. rw fresh (tt, tt) }
run-Tracked c0 (op ∷ ops) fresh = step-Tracked c0 op ops _ refl (run-Tracked c0 ops fresh)
