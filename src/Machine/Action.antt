-- ===== src/Machine/Action.antt =====
-- A handler of crates/rc-state/src: it reads and writes the store and returns `Result<_, String>`.
-- A write stays written when a later step fails. The error texts are constructors, and texts of
-- several handlers that refuse for the same reason share one.
use routinechain.Base.{ℕ, Bool, true, false, Option, none, some}
use routinechain.Store.{Store}
use routinechain.Types.State.{EscrowState}

pub data Error : Type 0 where
  nonce_too_low : (got current : ℕ) → Error
  sender_not_participant participant_exists participant_not_found : Error
  not_buyer escrow_exists escrow_not_found buyer_not_found seller_not_found : Error
  not_releasable not_refundable : (state : EscrowState) → Error
  escrow_expired not_buyer_nor_expired : Error
  not_party escrow_settled dispute_not_found not_in_evidence_phase : Error
  voter_not_registered not_arbiter not_in_voting_phase already_voted : Error
  zero_amount : Error
  insufficient_balance : (have need : ℕ) → Error
  not_platform anchor_exists : Error

pub data Result (A : Type 0) : Type 0 where
  ok : A → Result A
  err : Error → Result A

abbrev pub Action : Type 0 → Type 0
Action A = Store → Result A × Store

module _ {A : Type 0} where
  abbrev pub pure : A → Action A
  pure a s = (ok a, s)

  abbrev pub fail : Error → Action A
  fail e s = (err e, s)

  abbrev pub gets : (Store → A) → Action A
  gets f s = (ok (f s), s)

  -- `.ok_or(e)?`
  abbrev pub ok_or : Option A → Error → Action A
  ok_or none e = fail e
  ok_or (some a) e = pure a

abbrev pub modify : (Store → Store) → Action (Unit {0})
modify f s = (ok tt, f s)

-- `if c { return Err(e) }`
abbrev pub fail_if : Bool → Error → Action (Unit {0})
fail_if true e s = (err e, s)
fail_if false e s = (ok tt, s)

infixl 5 ◌>>=◌ ◌>>◌
abbrev pub ◌>>=◌ : {A B : Type 0} → Action A → (A → Action B) → Action B
◌>>=◌ m f s = let (r, s') = m s in elim r [ ok a ↦ f a s' | err e ↦ (err e, s') ]

abbrev pub ◌>>◌ : {B : Type 0} → Action (Unit {0}) → Action B → Action B
m >> k = m >>= λ _. k

abbrev pub is_err : {A : Type 0} → Result A → Bool
is_err (ok _) = false
is_err (err _) = true
