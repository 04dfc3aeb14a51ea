-- ===== src/Machine/Dispute/Induction.antt =====
-- What each handler of crates/rc-state/src/modules/dispute.rs stores as a dispute, and induction
-- over it: a property of disputes that every stored version keeps.
use routinechain.Base.{
  ℕ, ℤ, ◌≡◌, ◌⊎◌, inl, inr, [], ◌∷◌, ◌++◌, Option, none, some, true, false, arith, length, leb,
  Option-cases, Bool-cases, ◌==◌, ◌||◌, update,
}
use routinechain.Types.Bytes.{Id32, Hash}
use routinechain.Types.Transaction.{DisputeReason, DisputeDecision}
use routinechain.Types.State.{Dispute, Participant, evidence, resolved}
use routinechain.Store.{Store}
use routinechain.Machine.Dispute.Cases.{votable}
use routinechain.Machine.Dispute.{
  with_vote, resolve, settle_parties, cast, decide, raise, submit_evidence, new_dispute,
  takes_evidence,
}

-- What `resolve` stores.
abbrev pub resolved_dispute : Dispute → ℤ → Dispute
resolved_dispute d now = record d {
  state = resolved;
  resolution = some (decide d.votes);
  resolved_at = some now;
}

-- A vote that is cast stores the dispute with it, resolved if enough votes are in; or its escrow
-- is missing and nothing is stored.
pub cast-disputes :
    (dispute_id : Id32) (d : Dispute) (now : ℤ) (reward t : ℕ) (s : Store)
    → let m = (cast dispute_id d now reward t s).1.disputes in
      ((leb t (length d.votes) ≡ false) × (m ≡ update s.disputes dispute_id d))
      ⊎ ((leb t (length d.votes) ≡ true)
          × ((m ≡ s.disputes) ⊎ (m ≡ update s.disputes dispute_id (resolved_dispute d now))))
unfolding cast resolve settle_parties
cast-disputes dispute_id d now reward t s = ground arith

-- Raising a dispute stores a fresh dispute, whatever stood under its id, or stores none.
pub raise-disputes :
    (dispute_id escrow_id raised_by : Id32) (reason : DisputeReason) (evidence_hash : Hash)
    (now : ℤ) (s : Store)
    → let m = (raise dispute_id escrow_id raised_by reason evidence_hash now s).1.disputes in
      (m ≡ s.disputes)
      ⊎ (m
          ≡ update s.disputes dispute_id
              (new_dispute dispute_id escrow_id raised_by reason evidence_hash now))
unfolding raise
raise-disputes dispute_id escrow_id raised_by reason evidence_hash now s = ground arith

-- The dispute with one more piece of evidence.
abbrev pub with_evidence : Dispute → Hash → Dispute
with_evidence d evidence_hash = record d {
  state = evidence;
  evidence_hashes = d.evidence_hashes ++ evidence_hash ∷ [];
}

-- Evidence is added in the phases before the vote, or nothing is stored.
pub submit_evidence-disputes :
    (sender dispute_id : Id32) (evidence_hash : Hash) (s : Store)
    → let m = (submit_evidence sender dispute_id evidence_hash s).1.disputes in
      (m ≡ s.disputes)
      ⊎ ((d : Dispute) × (s.disputes dispute_id ≡ some d)
          × (takes_evidence d.state ≡ true)
          × (m ≡ update s.disputes dispute_id (with_evidence d evidence_hash)))
unfolding submit_evidence
submit_evidence-disputes sender dispute_id evidence_hash s =
    elim (Option-cases (s.disputes dispute_id)) [
      | inl missing ↦ inl (ground arith)
      | inr (d, found) ↦ elim (Bool-cases (takes_evidence d.state)) [
        | inr late ↦ inl (ground arith)
        | inl early ↦ elim (Option-cases (s.escrows d.escrow_id)) [
          | inl missing ↦ inl (ground arith)
          | inr (e, there) ↦ elim (Bool-cases (sender == e.buyer || sender == e.seller)) [
            | inl party ↦ inr (d, found, early, ground arith)
            | inr stranger ↦ inl (ground arith)
          ]
        ]
      ]
    ]

-- A property of the stored disputes.
abbrev pub Holds {ℓ} : (Dispute → Type ℓ) → Option Dispute → Type ℓ
Holds Q none = Unit
Holds Q (some d) = Q d

-- Every version of a dispute that a handler can store at `s`, with threshold `t`, has the property.
pub record IsKept {ℓ} (Q : Dispute → Type ℓ) (t : ℕ) (s : Store) : Type ℓ where
  pub fresh :
      (dispute_id escrow_id raised_by : Id32) (reason : DisputeReason) (evidence_hash : Hash)
      (now : ℤ)
      → Q (new_dispute dispute_id escrow_id raised_by reason evidence_hash now)
  pub evidenced :
      (d : Dispute) (evidence_hash : Hash)
      → takes_evidence d.state ≡ true
      → Q d
      → Q (with_evidence d evidence_hash)
  pub counted :
      (d : Dispute) (p : Participant) (voter : Id32) (decision : DisputeDecision) (now : ℤ)
      → s.participants voter ≡ some p
      → votable d p voter ≡ true
      → leb t (length (with_vote d voter decision now).votes) ≡ false
      → Q d
      → Q (with_vote d voter decision now)
  pub decided :
      (d : Dispute) (p : Participant) (voter : Id32) (decision : DisputeDecision) (now : ℤ)
      → s.participants voter ≡ some p
      → votable d p voter ≡ true
      → leb t (length (with_vote d voter decision now).votes) ≡ true
      → Q d
      → Q (resolved_dispute (with_vote d voter decision now) now)

module _ {ℓ} (Q : Dispute → Type ℓ) where
  update-Holds :
      (m : Id32 → Option Dispute) (k j : Id32) (d : Dispute)
      → Holds Q (m j)
      → Q d
      → Holds Q (update m k d j)
  update-Holds m k j d h q = elim (Bool-cases (k == j)) [
    | inl same ↦ rw same q
    | inr other ↦ rw other h
  ]

  pub same-Holds :
      (m m' : Id32 → Option Dispute) (j : Id32) → m' ≡ m → Holds Q (m j) → Holds Q (m' j)
  same-Holds m m' j same h = rw same h

  pub raise-Holds :
      (t : ℕ) (dispute_id escrow_id raised_by : Id32) (reason : DisputeReason)
      (evidence_hash : Hash) (now : ℤ) (s : Store) (j : Id32)
      → IsKept Q t s
      → Holds Q (s.disputes j)
      → Holds Q ((raise dispute_id escrow_id raised_by reason evidence_hash now s).1.disputes j)
  raise-Holds t dispute_id escrow_id raised_by reason evidence_hash now s j kept h =
      elim (raise-disputes dispute_id escrow_id raised_by reason evidence_hash now s) [
        | inl same ↦ rw same h
        | inr stored ↦ rw stored (
            update-Holds s.disputes dispute_id j _ h
              (kept.fresh dispute_id escrow_id raised_by reason evidence_hash now))
      ]

  pub submit_evidence-Holds :
      (t : ℕ) (sender dispute_id : Id32) (evidence_hash : Hash) (s : Store) (j : Id32)
      → IsKept Q t s
      → Holds Q (s.disputes dispute_id)
      → Holds Q (s.disputes j)
      → Holds Q ((submit_evidence sender dispute_id evidence_hash s).1.disputes j)
  submit_evidence-Holds t sender dispute_id evidence_hash s j kept h hj =
      elim (submit_evidence-disputes sender dispute_id evidence_hash s) [
        | inl same ↦ rw same hj
        | inr (d, found, early, stored) ↦ rw stored (
            update-Holds s.disputes dispute_id j _ hj
              (kept.evidenced d evidence_hash early (rw found at h)))
      ]

  pub cast-Holds :
      (t : ℕ) (dispute_id voter : Id32) (d : Dispute) (p : Participant) (decision : DisputeDecision)
      (now : ℤ) (reward : ℕ) (s : Store) (j : Id32)
      → IsKept Q t s
      → s.participants voter ≡ some p
      → votable d p voter ≡ true
      → Q d
      → Holds Q (s.disputes j)
      → Holds Q ((cast dispute_id (with_vote d voter decision now) now reward t s).1.disputes j)
  cast-Holds t dispute_id voter d p decision now reward s j kept registered able q hj =
      elim (cast-disputes dispute_id (with_vote d voter decision now) now reward t s) [
        | inl (few, stored) ↦ rw stored (
            update-Holds s.disputes dispute_id j _ hj
              (kept.counted d p voter decision now registered able few q))
        | inr (enough, inl missing) ↦ rw missing hj
        | inr (enough, inr stored) ↦ rw stored (
            update-Holds s.disputes dispute_id j _ hj
              (kept.decided d p voter decision now registered able enough q))
      ]
