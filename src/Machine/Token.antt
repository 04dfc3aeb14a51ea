-- ===== src/Machine/Token.antt =====
-- crates/rc-state/src/modules/token.rs: minting, transferring and spending RCW tokens.
pub mod Accounts
use routinechain.Base.{ℕ, String, List, [], ◌∷◌, ltb, leb, ◌==◌, if◌then◌else◌, add_u64, sub_u64}
use routinechain.Types.Bytes.{Id32}
use routinechain.Types.State.{RcwBalance, total, Event}
use routinechain.Store.{get_balance, set_balance}
use routinechain.Machine.Action.{
  Action, zero_amount, insufficient_balance, pure, gets, modify, fail_if, ◌>>=◌, ◌>>◌,
}

unfoldable pub mint : Id32 → ℕ → String → Action (List Event)
mint to amount reason = do
  balance ← gets (get_balance to)
  modify (set_balance to (record balance { earned = add_u64 balance.earned amount }))
  pure (Event.rcw_minted to amount reason ∷ [])

-- The deduction that `transfer` and `spend` both spell out: earned tokens go first. It runs after
-- the balance was found to cover the amount.
unfoldable pub deduct : RcwBalance → ℕ → RcwBalance
deduct b amount =
    if leb amount b.earned
    then record b { earned = sub_u64 b.earned amount }
    else record b { earned = 0; purchased = sub_u64 b.purchased (sub_u64 amount b.earned) }

unfoldable pub transfer : Id32 → Id32 → ℕ → String → Action (List Event)
unfolding deduct
transfer from to amount memo = do
  fail_if (amount == 0) zero_amount
  from_balance ← gets (get_balance from)
  fail_if (ltb (total from_balance) amount) (insufficient_balance (total from_balance) amount)
  modify (set_balance from (deduct from_balance amount))
  to_balance ← gets (get_balance to)
  modify (set_balance to (record to_balance { earned = add_u64 to_balance.earned amount }))
  pure (Event.rcw_transferred from to amount ∷ [])

unfoldable pub spend : Id32 → ℕ → String → Action (List Event)
unfolding deduct
spend from amount purpose = do
  fail_if (amount == 0) zero_amount
  balance ← gets (get_balance from)
  fail_if (ltb (total balance) amount) (insufficient_balance (total balance) amount)
  modify (set_balance from (deduct balance amount))
  pure (Event.rcw_spent from amount purpose ∷ [])
