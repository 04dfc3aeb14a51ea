-- ===== src/Machine/Escrow/Cases.antt =====
-- How a release can go: it fails before its first write, or it completes an open escrow.
use routinechain.Base.{
  ℕ, ℤ, ◌≡◌, ◌⊎◌, inl, inr, true, some, ltb_ℤ, ◌==◌, not, ◌&&◌, Bool, arith, Option-cases,
  Bool-cases,
}
use routinechain.Types.Bytes.{Id32, Hash}
use routinechain.Types.State.{Escrow}
use routinechain.Store.{Store}
use routinechain.Machine.Action.{is_err}
use routinechain.Machine.Escrow.{is_open, complete, release}

-- The guards of `release` on the escrow that it found.
abbrev pub releasable : Escrow → Id32 → ℤ → Bool
releasable e sender now = sender == e.buyer && (is_open e.state && not (ltb_ℤ e.expires_at now))

pub release_cases :
    (sender escrow_id : Id32) (evidence_hash : Hash) (now : ℤ) (reward : ℕ) (s : Store)
    → let r = release sender escrow_id evidence_hash now reward s in
      ((r.1 ≡ s) × (is_err r.0 ≡ true))
      ⊎ ((e : Escrow) × (s.escrows escrow_id ≡ some e)
          × (releasable e sender now ≡ true)
          × (r ≡ complete escrow_id e evidence_hash now reward s))
unfolding release
release_cases sender escrow_id evidence_hash now reward s =
    elim (Option-cases (s.escrows escrow_id)) [
      | inl missing ↦ inl (ground arith)
      | inr (e, found) ↦ elim (Bool-cases (releasable e sender now)) [
        | inl able ↦ inr (e, found, able, ground arith)
        | inr unable ↦ inl (ground arith)
      ]
    ]

-- A property of the store holds after a release if it holds now and after a completed one.
pub release_keeps {ℓ} :
    (P : Store → Type ℓ) (sender escrow_id : Id32) (evidence_hash : Hash) (now : ℤ) (reward : ℕ)
    (s : Store)
    → P s
    → ((e : Escrow)
        → s.escrows escrow_id ≡ some e
        → releasable e sender now ≡ true
        → P (complete escrow_id e evidence_hash now reward s).1)
    → P (release sender escrow_id evidence_hash now reward s).1
release_keeps P sender escrow_id evidence_hash now reward s same completed =
    elim (release_cases sender escrow_id evidence_hash now reward s) [
      | inl (unchanged, failed) ↦ rw unchanged same
      | inr (e, found, able, done) ↦ rw done (completed e found able)
    ]
