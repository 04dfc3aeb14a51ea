-- ===== src/Machine/Execute/Ledger.antt =====
-- The token ledger over every handler (`execute` of crates/rc-state/src/lib.rs): which events a
-- transaction reports, and what they say of the balances.
use routinechain.Base.{
  ℕ, ◌+◌, ℤ, ◌≡◌, ◌≤◌, List, ◌==◌, arith, u64_max, refl, ap, Option-cases, Bool-cases,
  if◌then◌else◌, length, leb, true, inl, inr,
}
use routinechain.Types.Bytes.{Id32, Hash}
use routinechain.Types.State.{Event, Escrow, Dispute}
use routinechain.Types.Transaction.{
  TxPayload, release_escrow, vote_dispute, transfer_rcw, spend_rcw, Transaction, DisputeDecision,
}
use routinechain.Store.{Store, set_nonce, get_nonce}
use routinechain.Machine.Action.{Result, Error, ok, err, is_err}
use routinechain.Machine.Execute.{Settings, dispatch, anchor, execute}
use routinechain.Machine.Execute.Nonce.{execute_accepted, execute_replayed}
use routinechain.Machine.Token.Accounts.{
  Accounts, holding, credits, debits, credits-append, debits-append, transfer-Accounts,
  spend-Accounts,
}
use routinechain.Machine.Participant
use routinechain.Machine.Settlement
use routinechain.Machine.Escrow
use routinechain.Machine.Dispute
use routinechain.Machine.Dispute.Cases.{vote_cases}
use routinechain.Machine.Escrow.Cases.{release_cases}
use native.Mathlib.Decide.{dec_lt}

complete-Accounts :
    (id escrow_id : Id32) (e : Escrow) (evidence_hash : Hash) (now : ℤ) (reward : ℕ) (s : Store)
    → Accounts id s (Escrow.complete escrow_id e evidence_hash now reward s)
unfolding Escrow.complete
complete-Accounts id escrow_id e evidence_hash now reward s = ground arith

refused-Accounts :
    (id : Id32) (s : Store) (r : Result (List Event) × Store)
    → r.1 ≡ s
    → is_err r.0 ≡ true
    → Accounts id s r
refused-Accounts id s (ok events, s') same failed = cc
refused-Accounts id s (err e, s') same failed = ap (holding id) same

settle_parties-Accounts :
    (id winner loser raised_by : Id32) (reward : ℕ) (s : Store)
    → Accounts id s (Dispute.settle_parties winner loser raised_by reward s)
unfolding Dispute.settle_parties
settle_parties-Accounts id winner loser raised_by reward s = ground arith

-- Resolving a dispute: the reward of the winner is the only credit.
resolve-Accounts :
    (id dispute_id : Id32) (d : Dispute) (now : ℤ) (reward : ℕ) (s : Store)
    → Accounts id s (Dispute.resolve dispute_id d now reward s)
unfolding Dispute.resolve
resolve-Accounts id dispute_id d now reward s = elim (Option-cases (s.escrows d.escrow_id)) [
  | inl missing ↦ ground arith
  | inr (e, found) ↦ elim (Bool-cases (Dispute.decide d.votes == 2)) [
    | inl tie ↦ ground arith
    | inr decided ↦
        let buyer_wins = Dispute.decide d.votes == 0 in
        let winner = if buyer_wins then e.buyer else e.seller in
        let loser = if buyer_wins then e.seller else e.buyer in
        grind (
          arith,
          settle_parties-Accounts id winner loser d.raised_by reward s,
          credits-append,
          debits-append,
        )
  ]
]

cast-Accounts :
    (id dispute_id : Id32) (d : Dispute) (now : ℤ) (reward threshold : ℕ) (s : Store)
    → Accounts id s (Dispute.cast dispute_id d now reward threshold s)
unfolding Dispute.cast
cast-Accounts id dispute_id d now reward threshold s =
    elim (Bool-cases (leb threshold (length d.votes))) [
      | inl enough ↦ rw enough (resolve-Accounts id dispute_id d now reward s)
      | inr more ↦ rw more (λ _. refl)
    ]

release-Accounts :
    (id sender escrow_id : Id32) (evidence_hash : Hash) (now : ℤ) (reward : ℕ) (s : Store)
    → Accounts id s (Escrow.release sender escrow_id evidence_hash now reward s)
release-Accounts id sender escrow_id evidence_hash now reward s =
    elim (release_cases sender escrow_id evidence_hash now reward s) [
      | inl (same, failed) ↦ refused-Accounts id s _ same failed
      | inr (e, found, able, done) ↦
          rw done (complete-Accounts id escrow_id e evidence_hash now reward s)
    ]

vote-Accounts :
    (id dispute_id voter : Id32) (decision : DisputeDecision) (now : ℤ) (reward threshold : ℕ)
    (s : Store)
    → Accounts id s (Dispute.vote dispute_id voter decision now reward threshold s)
vote-Accounts id dispute_id voter decision now reward threshold s =
    elim (vote_cases dispute_id voter decision now reward threshold s) [
      | inl (same, failed) ↦ refused-Accounts id s _ same failed
      | inr (d, p, found, registered, able, done) ↦
          rw done (cast-Accounts id dispute_id _ now reward threshold s)
    ]

-- Whatever a payload asks for, the events of its handler account for every owner's holding.
dispatch-Accounts :
    (id : Id32) (cfg : Settings) (sender : Id32) (p : TxPayload) (now : ℤ) (s : Store)
    → Accounts id s (dispatch cfg sender p now s)
unfolding dispatch anchor Participant.register Participant.update Participant.deactivate
    Settlement.record_settlement Settlement.record_rating Escrow.create Escrow.refund Dispute.raise
    Dispute.submit_evidence
dispatch-Accounts id cfg sender (release_escrow escrow_id evidence) now s =
    release-Accounts id sender escrow_id evidence now cfg.reward_config.escrow_completed s
dispatch-Accounts id cfg sender (vote_dispute dispute_id decision) now s =
    vote-Accounts id dispute_id sender decision now cfg.reward_config.dispute_won
      cfg.dispute_vote_threshold s
dispatch-Accounts id cfg sender (transfer_rcw to amount memo) now s =
    transfer-Accounts id sender to amount memo s
dispatch-Accounts id cfg sender (spend_rcw amount purpose) now s =
    spend-Accounts id sender amount purpose s
dispatch-Accounts id cfg sender _ now s = ground arith

-- An accepted transaction changes what an owner holds by the credits less the debits of its
-- events, if the holding and the credits fit in u64; a refused one changes no holding.
pub execute-Accounts :
    (id : Id32) (cfg : Settings) (tx : Transaction) (now : ℤ) (s : Store)
    → Accounts id s (execute cfg tx now s)
execute-Accounts id cfg tx now s = elim (dec_lt (get_nonce tx.sender s) tx.nonce) [
  | yes h ↦
      rw (execute_accepted cfg tx now s h)
        (dispatch-Accounts id cfg tx.sender tx.payload now (set_nonce tx.sender tx.nonce s))
  | no h ↦ rw (execute_replayed cfg tx now s (omega arith)) refl
]

Accounts-ok :
    (id : Id32) (s : Store) (r : Result (List Event) × Store) (events : List Event)
    → Accounts id s r
    → r.0 ≡ ok events
    → holding id s + credits id events ≤ u64_max
    → holding id r.1 + debits id events ≡ holding id s + credits id events
Accounts-ok id s (ok evs, s') events h e fits = ground (arith, h)
Accounts-ok id s (err er, s') events h e fits = cc

Accounts-err :
    (id : Id32) (s : Store) (r : Result (List Event) × Store) (e : Error)
    → Accounts id s r
    → r.0 ≡ err e
    → holding id r.1 ≡ holding id s
Accounts-err id s (ok evs, s') er h e = cc
Accounts-err id s (err e', s') er h e = h

-- When a transaction succeeds, what any owner holds changes by exactly what the reported events
-- credit to it less what they take from it, provided that its old holding and the credits together
-- fit in a u64.
pub events_account :
    (id : Id32) (cfg : Settings) (tx : Transaction) (now : ℤ) (s : Store) (events : List Event)
    → (execute cfg tx now s).0 ≡ ok events
    → holding id s + credits id events ≤ u64_max
    → holding id (execute cfg tx now s).1 + debits id events ≡ holding id s + credits id events
events_account id cfg tx now s events =
    Accounts-ok id s (execute cfg tx now s) events (execute-Accounts id cfg tx now s)

-- When a transaction fails, no owner's holding changes.
failed_moves_nothing :
    (id : Id32) (cfg : Settings) (tx : Transaction) (now : ℤ) (s : Store) (e : Error)
    → (execute cfg tx now s).0 ≡ err e
    → holding id (execute cfg tx now s).1 ≡ holding id s
failed_moves_nothing id cfg tx now s e =
    Accounts-err id s (execute cfg tx now s) e (execute-Accounts id cfg tx now s)
