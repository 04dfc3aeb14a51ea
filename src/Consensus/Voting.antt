-- ===== src/Consensus/Voting.antt =====
-- Votes for a round that arrive one after another: `receive_view_change` of
-- crates/rc-consensus/src/lib.rs.
use routinechain.Base.{
  ℕ, ◌<◌, ◌≡◌, refl, ◌∙◌, List, [], ◌∷◌, ◌++◌, map, length, length-append, leb, ltb, ◌&&◌, false,
  contains, contains-append, IsDistinct, arith, if◌then◌else◌, inl, inr, Bool-cases, suc,
}
use routinechain.Types.Bytes.{Id32}
use routinechain.Consensus.{
  Consensus, ViewVotes, votes_of, put_votes, retain, set_insert, threshold, receive_view_change,
  ViewOp, vote_received, view_step, view_run,
}
use routinechain.Consensus.Rounds.{votes_of-put_votes, votes_of-retain}

-- the voters of a history in the order in which they are heard, the latest last
in_order : List Id32 → List Id32
in_order [] = []
in_order (v ∷ vs) = in_order vs ++ v ∷ []

length-in_order : (vs : List Id32) → length (in_order vs) ≡ length vs
unfolding in_order
length-in_order [] = refl
length-in_order (v ∷ vs) = omega (arith, length-append (in_order vs) (v ∷ []), length-in_order vs)

contains-in_order : (vs : List Id32) (a : Id32) → contains (in_order vs) a ≡ contains vs a
unfolding in_order
contains-in_order [] a = refl
contains-in_order (v ∷ vs) a =
    ground (arith, contains-append (in_order vs) (v ∷ []) a, contains-in_order vs a)

-- What a node knows after distinct votes for one round.
record Heard (height round : ℕ) (vs : List Id32) (c c' : Consensus) : Type 0 where
  counted : votes_of height round c'.view_change_votes ≡ in_order vs
  moved : c'.round ≡ (if leb (threshold c) (length vs) then round else c.round)
  same_threshold : threshold c' ≡ threshold c

one_more :
    (height round : ℕ) (v : Id32) (vs : List Id32) (c c' : Consensus)
    → c.round < round
    → contains vs v ≡ false
    → Heard height round vs c c'
    → Heard height round (v ∷ vs) c (receive_view_change height round v c').1
unfolding receive_view_change in_order routinechain.Consensus.all_node_ids
one_more height round v vs c c' later new h =
    let entry : set_insert v (votes_of height round c'.view_change_votes) ≡ in_order vs ++ v ∷ [] =
      rw (h.counted, contains-in_order vs v, new) refl in
    let size : length (in_order vs ++ v ∷ []) ≡ suc (length vs) =
      omega (arith, length-append (in_order vs) (v ∷ []), length-in_order vs) in
    let votes = put_votes height round (in_order vs ++ v ∷ []) c'.view_change_votes in
    let put : votes_of height round votes ≡ in_order vs ++ v ∷ [] =
      votes_of-put_votes height round height round _ c'.view_change_votes ∙ ground arith in
    elim (Bool-cases (leb (threshold c') (suc (length vs)) && ltb c'.round round)) [
      | inl enough ↦
          rw (receive_view_change, entry, size, enough)
            (record {
              counted = votes_of-retain height height round votes ∙ ground (arith, put);
              moved = ground (arith, enough, h.same_threshold);
              same_threshold = h.same_threshold;
            })
      | inr few ↦
          rw (receive_view_change, entry, size, few)
            (record {
              counted = put;
              moved = ground (arith, few, h.moved, h.same_threshold);
              same_threshold = h.same_threshold;
            })
    ]

all-Heard :
    (height round : ℕ) (vs : List Id32) (c : Consensus)
    → c.round < round
    → votes_of height round c.view_change_votes ≡ []
    → IsDistinct vs
    → Heard height round vs c (view_run (map (vote_received height round) vs) c)
unfolding view_run view_step in_order
all-Heard height round [] c later none_yet d = record {
  counted = none_yet;
  moved = ground arith;
  same_threshold = refl;
}
all-Heard height round (v ∷ vs) c later none_yet d =
    one_more height round v vs c (view_run (map (vote_received height round) vs) c) later d.0
      (all-Heard height round vs c later none_yet d.1)

-- Votes move the round as soon as they are a majority, and not before: a node that has no vote yet
-- for a later round and hears the votes of different nodes for it, in whatever order, is in that
-- round if there are at least as many of them as the threshold, and in its old round otherwise.
pub majority_moves_round :
    (height round : ℕ) (vs : List Id32) (c : Consensus)
    → c.round < round
    → votes_of height round c.view_change_votes ≡ []
    → IsDistinct vs
    → (view_run (map (vote_received height round) vs) c).round
      ≡ (if leb (threshold c) (length vs) then round else c.round)
majority_moves_round height round vs c later none_yet d =
    (all-Heard height round vs c later none_yet d).moved
