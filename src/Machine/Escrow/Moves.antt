-- ===== src/Machine/Escrow/Moves.antt =====
-- What each handler of crates/rc-state/src/modules/escrow.rs and dispute.rs does to the escrows.
use routinechain.Machine.Dispute.{is_settled, raise}
use routinechain.Base.{
  refl, ◌⊎◌, inl, inr, Bool-cases, Option-cases, ℕ, ℤ, ◌≡◌, true, some, Option, Bool, arith, ◌==◌,
  not, ◌&&◌, ◌||◌, update, ltb_ℤ,
}
use routinechain.Types.Transaction.{DisputeReason}
use routinechain.Types.Bytes.{Id32, Hash}
use routinechain.Types.State.{released, refunded, disputed, Escrow}
use routinechain.Store.{Store}
use routinechain.Machine.Escrow.{complete, is_open, create, refund}
use routinechain.Machine.Escrow.Lifecycle.{
  release_open, refund_open, dispute_unsettled, Continues, Continues-refl, update-Continues,
  same-Continues, one_step,
}

-- What completing a release leaves alone.
pub complete_frame :
    (escrow_id : Id32) (e : Escrow) (evidence_hash : Hash) (now : ℤ) (reward : ℕ) (s : Store)
    → let s' = (complete escrow_id e evidence_hash now reward s).1 in
      (s'.nonces ≡ s.nonces)
      × (s'.disputes ≡ s.disputes)
      × (s'.anchors ≡ s.anchors)
      × (s'.settlements ≡ s.settlements)
unfolding complete
complete_frame escrow_id e evidence_hash now reward s = ground arith

-- What completing a release leaves alone.
pub complete-escrows :
    (escrow_id : Id32) (e : Escrow) (evidence_hash : Hash) (now : ℤ) (reward : ℕ) (s : Store)
    → let s' = (complete escrow_id e evidence_hash now reward s).1 in
      s'.escrows
      ≡ update s.escrows escrow_id
          (record e { state = released; evidence_hash = some evidence_hash })
unfolding complete
complete-escrows escrow_id e evidence_hash now reward s = ground arith

-- The guards of `refund` on the escrow that it found.
abbrev pub refundable : Escrow → Id32 → ℤ → Bool
refundable e sender now = (sender == e.buyer || ltb_ℤ e.expires_at now) && is_open e.state

-- The guards of `raise` on the escrow that it found.
abbrev pub raisable : Escrow → Id32 → Bool
raisable e raised_by = (raised_by == e.buyer || raised_by == e.seller) && not (is_settled e.state)

-- A write to the escrows that one step explains.
abbrev Moves : (Id32 → Option Escrow) → (Id32 → Option Escrow) → Id32 → Type 0
Moves m m' k =
    (m' ≡ m)
    ⊎ ((e : Escrow) × (e' : Escrow) × (m k ≡ some e)
        × Continues (some e) (some e')
        × (m' ≡ update m k e'))

pub Moves-Continues :
    (m m' : Id32 → Option Escrow) (k j : Id32) → Moves m m' k → Continues (m j) (m' j)
Moves-Continues m m' k j (inl same) = same-Continues m m' j same
Moves-Continues m m' k j (inr (e, e', found, c, moved)) =
    rw moved (update-Continues m k j e e' found c)

-- A refund moves an open escrow to `refunded`, or moves no escrow.
pub refund-Moves :
    (sender escrow_id : Id32) (now : ℤ) (s : Store)
    → Moves s.escrows (refund sender escrow_id now s).1.escrows escrow_id
unfolding refund
refund-Moves sender escrow_id now s = elim (Option-cases (s.escrows escrow_id)) [
  | inl missing ↦ inl (ground arith)
  | inr (e, found) ↦ elim (Bool-cases (refundable e sender now)) [
    | inl able ↦ inr (
      e,
      record e { state = refunded },
      found,
      (refl, refl, refl, refl, refl, one_step (refund_open (ground arith) refl)),
      ground arith,
    )
    | inr unable ↦ inl (ground arith)
  ]
]

-- Raising a dispute moves an escrow that is not settled to `disputed`, or moves no escrow.
pub raise-Moves :
    (dispute_id escrow_id raised_by : Id32) (reason : DisputeReason) (evidence_hash : Hash)
    (now : ℤ) (s : Store)
    → Moves s.escrows
        (raise dispute_id escrow_id raised_by reason evidence_hash now s).1.escrows
        escrow_id
unfolding raise
raise-Moves dispute_id escrow_id raised_by reason evidence_hash now s =
    elim (Option-cases (s.escrows escrow_id)) [
      | inl missing ↦ inl (ground arith)
      | inr (e, found) ↦ elim (Bool-cases (raisable e raised_by)) [
        | inl able ↦ inr (
          e,
          record e { state = disputed; dispute_id = some dispute_id },
          found,
          (refl, refl, refl, refl, refl, one_step (dispute_unsettled (ground arith) refl)),
          ground arith,
        )
        | inr unable ↦ inl (ground arith)
      ]
    ]

pub complete-Continues :
    (escrow_id : Id32) (e : Escrow) (evidence_hash : Hash) (now : ℤ) (reward : ℕ) (s : Store)
    (j : Id32)
    → s.escrows escrow_id ≡ some e
    → is_open e.state ≡ true
    → Continues (s.escrows j) ((complete escrow_id e evidence_hash now reward s).1.escrows j)
complete-Continues escrow_id e evidence_hash now reward s j found opened =
    rw (complete-escrows escrow_id e evidence_hash now reward s) (
      update-Continues s.escrows escrow_id j e _ found
        (refl, refl, refl, refl, refl, one_step (release_open opened refl)))

create_taken :
    (sender escrow_id buyer seller : Id32) (amount : ℕ) (expires_at now : ℤ) (s : Store) (j : Id32)
    (e : Escrow)
    → s.escrows j ≡ some e
    → (create sender escrow_id buyer seller amount expires_at now s).1.escrows j ≡ s.escrows j
unfolding create
create_taken sender escrow_id buyer seller amount expires_at now s j e taken = ground arith

-- A new escrow continues the absence of one, and an escrow that exists is not overwritten.
pub create-Continues :
    (sender escrow_id buyer seller : Id32) (amount : ℕ) (expires_at now : ℤ) (s : Store) (j : Id32)
    → Continues
        (s.escrows j)
        ((create sender escrow_id buyer seller amount expires_at now s).1.escrows j)
create-Continues sender escrow_id buyer seller amount expires_at now s j =
    elim (Option-cases (s.escrows j)) [
      | inl free ↦ rw free tt
      | inr (e, taken) ↦
          rw (create_taken sender escrow_id buyer seller amount expires_at now s j e taken)
            (Continues-refl (s.escrows j))
    ]
