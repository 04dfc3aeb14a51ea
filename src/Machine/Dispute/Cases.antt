-- ===== src/Machine/Dispute/Cases.antt =====
-- How a vote can go: it fails before its first write, or an arbiter's vote is cast. And what the
-- handlers of crates/rc-state/src/modules/dispute.rs leave alone.
use routinechain.Base.{
  ℕ, ℤ, ◌≡◌, ◌⊎◌, inl, inr, true, some, ◌==◌, not, ◌&&◌, Bool, arith, Option-cases, Bool-cases,
  contains,
}
use routinechain.Types.Bytes.{Id32}
use routinechain.Types.Transaction.{DisputeDecision, ParticipantType, type_code}
use routinechain.Types.State.{Participant, Dispute}
use routinechain.Store.{Store}
use routinechain.Machine.Action.{is_err}
use routinechain.Machine.Dispute.{
  takes_votes, voters, with_vote, settle_parties, resolve, cast, vote,
}

-- The guards of `vote` on the dispute and the voter that it found.
abbrev pub votable : Dispute → Participant → Id32 → Bool
votable d p voter =
    p.p_type == type_code ParticipantType.arbiter
    && (takes_votes d.state && not (contains (voters d.votes) voter))

pub vote_cases :
    (dispute_id voter : Id32) (decision : DisputeDecision) (now : ℤ) (reward threshold : ℕ)
    (s : Store)
    → let r = vote dispute_id voter decision now reward threshold s in
      ((r.1 ≡ s) × (is_err r.0 ≡ true))
      ⊎ ((d : Dispute) × (p : Participant) × (s.disputes dispute_id ≡ some d)
          × (s.participants voter ≡ some p)
          × (votable d p voter ≡ true)
          × (r ≡ cast dispute_id (with_vote d voter decision now) now reward threshold s))
unfolding vote
vote_cases dispute_id voter decision now reward threshold s =
    elim (Option-cases (s.disputes dispute_id)) [
      | inl missing ↦ inl (ground arith)
      | inr (d, found) ↦ elim (Option-cases (s.participants voter)) [
        | inl missing ↦ inl (ground arith)
        | inr (p, registered) ↦ elim (Bool-cases (votable d p voter)) [
          | inl able ↦ inr (d, p, found, registered, able, ground arith)
          | inr unable ↦ inl (ground arith)
        ]
      ]
    ]

-- Counting votes moves statistics, balances and the dispute itself, and nothing else.
pub cast_frame :
    (dispute_id : Id32) (d : Dispute) (now : ℤ) (reward threshold : ℕ) (s : Store)
    → let s' = (cast dispute_id d now reward threshold s).1 in
      (s'.nonces ≡ s.nonces)
      × (s'.escrows ≡ s.escrows)
      × (s'.anchors ≡ s.anchors)
      × (s'.settlements ≡ s.settlements)
unfolding cast resolve settle_parties
cast_frame dispute_id d now reward threshold s = ground arith

-- A property of the store holds after a vote if it holds now and after a vote that is cast.
pub vote_keeps {ℓ} :
    (P : Store → Type ℓ) (dispute_id voter : Id32) (decision : DisputeDecision) (now : ℤ)
    (reward threshold : ℕ) (s : Store)
    → P s
    → ((d : Dispute) (p : Participant)
        → s.disputes dispute_id ≡ some d
        → s.participants voter ≡ some p
        → votable d p voter ≡ true
        → P (cast dispute_id (with_vote d voter decision now) now reward threshold s).1)
    → P (vote dispute_id voter decision now reward threshold s).1
vote_keeps P dispute_id voter decision now reward threshold s same counted =
    elim (vote_cases dispute_id voter decision now reward threshold s) [
      | inl (unchanged, failed) ↦ rw unchanged same
      | inr (d, p, found, registered, able, done) ↦ rw done (counted d p found registered able)
    ]
