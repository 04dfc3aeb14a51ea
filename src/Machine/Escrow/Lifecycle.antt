-- ===== src/Machine/Escrow/Lifecycle.antt =====
-- The life of an escrow: the states that the handlers move it through.
use routinechain.Machine.Dispute.{is_settled}
use routinechain.Base.{
  ◌∙◌, refl, sym, ap, inl, inr, Bool-cases, ==_iff, ◌≡◌, true, false, none, some, Option, arith,
  ◌==◌, update,
}
use routinechain.Types.Bytes.{Id32}
use routinechain.Types.State.{EscrowState, released, refunded, disputed, Escrow}
use routinechain.Machine.Escrow.{is_open}

-- One step of an escrow's life, as the handlers make them.
pub data EscrowStep : EscrowState → EscrowState → Type 0 where
  release_open : {a b : EscrowState} → is_open a ≡ true → b ≡ released → EscrowStep a b
  refund_open : {a b : EscrowState} → is_open a ≡ true → b ≡ refunded → EscrowStep a b
  dispute_unsettled : {a b : EscrowState} → is_settled a ≡ false → b ≡ disputed → EscrowStep a b

-- Some number of steps.
pub data EscrowPath (a : EscrowState) : EscrowState → Type 0 where
  stay : EscrowPath a a
  then_step : {b c : EscrowState} → EscrowPath a b → EscrowStep b c → EscrowPath a c

-- Two versions of an escrow: the parties, the amount and the times are fixed, and the state has
-- moved along the steps. An escrow that is not there may appear, and none disappears.
abbrev pub Continues : Option Escrow → Option Escrow → Type 0
Continues none _ = Unit
Continues (some e) none = ⊥
Continues (some e) (some e') =
    (e'.buyer ≡ e.buyer)
    × (e'.seller ≡ e.seller)
    × (e'.amount ≡ e.amount)
    × (e'.created_at ≡ e.created_at)
    × (e'.expires_at ≡ e.expires_at)
    × EscrowPath e.state e'.state

EscrowPath-trans : {a b c : EscrowState} → EscrowPath a b → EscrowPath b c → EscrowPath a c
EscrowPath-trans p stay = p
EscrowPath-trans p (then_step q st) = then_step (EscrowPath-trans p q) st

pub Continues-refl : (o : Option Escrow) → Continues o o
Continues-refl none = tt
Continues-refl (some e) = (refl, refl, refl, refl, refl, stay)

pub Continues-trans : (a b c : Option Escrow) → Continues a b → Continues b c → Continues a c
Continues-trans none b c p q = tt
Continues-trans (some a) none c p q = absurd p
Continues-trans (some a) (some b) none p q = absurd q
Continues-trans (some a) (some b) (some c) p q =
    (q.0 ∙ p.0, q.1 ∙ p.1, q.2 ∙ p.2, q.3 ∙ p.3, q.4 ∙ p.4, EscrowPath-trans p.5 q.5)

-- The state that an escrow is moved to is reached by the step.
pub one_step : {a b : EscrowState} → EscrowStep a b → EscrowPath a b
one_step st = then_step stay st

-- Writing one escrow continues every escrow, if it continues that one.
pub update-Continues :
    (m : Id32 → Option Escrow) (k j : Id32) (e e' : Escrow)
    → m k ≡ some e
    → Continues (some e) (some e')
    → Continues (m j) (update m k e' j)
update-Continues m k j e e' found c = elim (Bool-cases (k == j)) [
  | inl same ↦ rw (same, ap m (sym ((==_iff k j).0 same)) ∙ found) c
  | inr other ↦ rw other (Continues-refl (m j))
]

pub same-Continues : (m m' : Id32 → Option Escrow) (j : Id32) → m' ≡ m → Continues (m j) (m' j)
same-Continues m m' j e = rw e (Continues-refl (m j))

step_of_settled : {a b : EscrowState} → is_settled a ≡ true → ¬ EscrowStep a b
step_of_settled h (release_open o e) = ground arith
step_of_settled h (refund_open o e) = ground arith
step_of_settled h (dispute_unsettled o e) = cc

-- No step leaves a released or refunded escrow.
pub path_of_settled : {a b : EscrowState} → is_settled a ≡ true → EscrowPath a b → b ≡ a
path_of_settled h stay = refl
path_of_settled h (then_step p st) =
    absurd (step_of_settled (ap is_settled (path_of_settled h p) ∙ h) st)

step_of_disputed : {a b : EscrowState} → a ≡ disputed → EscrowStep a b → b ≡ disputed
step_of_disputed h (release_open o e) = ground arith
step_of_disputed h (refund_open o e) = ground arith
step_of_disputed h (dispute_unsettled o e) = e

-- Every step from a disputed escrow leaves it disputed.
pub path_of_disputed : {a b : EscrowState} → a ≡ disputed → EscrowPath a b → b ≡ a
path_of_disputed h stay = refl
path_of_disputed h (then_step p st) = step_of_disputed (path_of_disputed h p ∙ h) st ∙ sym h
