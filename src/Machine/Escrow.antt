-- ===== src/Machine/Escrow.antt =====
-- crates/rc-state/src/modules/escrow.rs: creating, releasing and refunding an escrow.
pub mod Cases
pub mod Lifecycle
pub mod Moves
pub mod Effects
use routinechain.Base.{
  ℕ, ℤ, Bool, true, false, not, ◌&&◌, none, some, List, [], ◌∷◌, ◌++◌, ltb, ◌==◌, if◌then◌else◌,
  ltb_ℤ, saturating_add,
}
use routinechain.Types.Bytes.{Id32, Hash}
use routinechain.Types.State.{
  Participant, EscrowState, created, funded, released, refunded, Escrow, Event,
}
use routinechain.Store.{get_participant, set_participant, get_escrow, set_escrow}
use routinechain.Machine.Action.{
  Action, not_buyer, escrow_exists, escrow_not_found, buyer_not_found, seller_not_found,
  not_releasable, not_refundable, escrow_expired, not_buyer_nor_expired, pure, gets, ok_or, modify,
  fail_if, ◌>>=◌, ◌>>◌,
}
use routinechain.Machine.Participant.{is_some}
use routinechain.Machine.Token.{mint}

-- `state == Created || state == Funded`
abbrev pub is_open : EscrowState → Bool
is_open created = true
is_open funded = true
is_open _ = false

abbrev pub new_escrow : Id32 → Id32 → Id32 → ℕ → ℤ → ℤ → Escrow
new_escrow escrow_id buyer seller amount expires_at timestamp = record {
  id = escrow_id;
  buyer = buyer;
  seller = seller;
  amount = amount;
  state = created;
  created_at = timestamp;
  expires_at = expires_at;
  evidence_hash = none;
  dispute_id = none;
}

unfoldable pub create : Id32 → Id32 → Id32 → Id32 → ℕ → ℤ → ℤ → Action (List Event)
create sender escrow_id buyer seller amount expires_at timestamp = do
  fail_if (not (sender == buyer)) not_buyer
  found ← gets (get_escrow escrow_id)
  fail_if (is_some found) escrow_exists
  as_buyer ← gets (get_participant buyer)
  b ← ok_or as_buyer buyer_not_found
  as_seller ← gets (get_participant seller)
  p ← ok_or as_seller seller_not_found
  modify (set_escrow escrow_id (new_escrow escrow_id buyer seller amount expires_at timestamp))
  pure (Event.escrow_created escrow_id buyer seller amount ∷ [])

-- the buyer's statistics after a release
abbrev pub bought : Participant → ℤ → Participant
bought p timestamp = record p {
  total_tx = saturating_add p.total_tx 1;
  success_tx = saturating_add p.success_tx 1;
  last_activity_at = timestamp;
}

-- the seller's statistics after a release
abbrev pub sold : Participant → ℕ → ℤ → Participant
sold p amount timestamp = record p {
  total_tx = saturating_add p.total_tx 1;
  success_tx = saturating_add p.success_tx 1;
  total_volume = saturating_add p.total_volume amount;
  last_activity_at = timestamp;
}

-- the rewards of both parties, `if reward_amount > 0`
unfoldable pub reward_parties : Id32 → Id32 → ℕ → List Event → Action (List Event)
unfolding mint
reward_parties buyer seller amount events =
    if ltb 0 amount
    then (do
      buyer_rewards ← mint buyer amount "escrow_complete"
      seller_rewards ← mint seller amount "escrow_complete"
      pure ((events ++ buyer_rewards) ++ seller_rewards))
    else pure events

-- the part of `release` after its guards
unfoldable pub complete : Id32 → Escrow → Hash → ℤ → ℕ → Action (List Event)
unfolding reward_parties
complete escrow_id escrow evidence_hash timestamp reward_amount = do
  modify (
      set_escrow escrow_id (record escrow { state = released; evidence_hash = some evidence_hash }))
  as_buyer ← gets (get_participant escrow.buyer)
  buyer ← ok_or as_buyer buyer_not_found
  modify (set_participant escrow.buyer (bought buyer timestamp))
  as_seller ← gets (get_participant escrow.seller)
  seller ← ok_or as_seller seller_not_found
  modify (set_participant escrow.seller (sold seller escrow.amount timestamp))
  reward_parties escrow.buyer escrow.seller reward_amount (Event.escrow_released escrow_id ∷ [])

unfoldable pub release : Id32 → Id32 → Hash → ℤ → ℕ → Action (List Event)
release sender escrow_id evidence_hash timestamp reward_amount = do
  found ← gets (get_escrow escrow_id)
  escrow ← ok_or found escrow_not_found
  fail_if (not (sender == escrow.buyer)) not_buyer
  fail_if (not (is_open escrow.state)) (not_releasable escrow.state)
  fail_if (ltb_ℤ escrow.expires_at timestamp) escrow_expired
  complete escrow_id escrow evidence_hash timestamp reward_amount

unfoldable pub refund : Id32 → Id32 → ℤ → Action (List Event)
refund sender escrow_id timestamp = do
  found ← gets (get_escrow escrow_id)
  escrow ← ok_or found escrow_not_found
  fail_if (not (sender == escrow.buyer) && not (ltb_ℤ escrow.expires_at timestamp))
      not_buyer_nor_expired
  fail_if (not (is_open escrow.state)) (not_refundable escrow.state)
  modify (set_escrow escrow_id (record escrow { state = refunded }))
  as_seller ← gets (get_participant escrow.seller)
  seller ← ok_or as_seller seller_not_found
  modify (
      set_participant escrow.seller (record seller {
        total_tx = saturating_add seller.total_tx 1;
        last_activity_at = timestamp;
      }))
  pure (Event.escrow_refunded escrow_id ∷ [])
