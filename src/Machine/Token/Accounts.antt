-- ===== src/Machine/Token/Accounts.antt =====
-- The token ledger of crates/rc-state/src/modules/token.rs: the events of a handler account for
-- every change of a balance.
use routinechain.Base.{
  ℕ, ◌+◌, ◌≡◌, ◌≤◌, List, [], ◌∷◌, ◌++◌, ◌==◌, if◌then◌else◌, arith, u64_max, String,
}
use routinechain.Types.Bytes.{Id32}
use routinechain.Types.State.{Event, rcw_minted, rcw_transferred, rcw_spent}
use routinechain.Store.{Store, get_balance}
use routinechain.Machine.Action.{Result, ok, err}
use routinechain.Machine.Token.{mint, transfer, spend}

-- What an owner holds, as a number that does not wrap.
abbrev pub holding : Id32 → Store → ℕ
holding id s = (get_balance id s).earned + (get_balance id s).purchased

-- What one event credits to an owner, and what it takes away.
abbrev pub credit : Id32 → Event → ℕ
credit id (rcw_minted to amount _) = if to == id then amount else 0
credit id (rcw_transferred _ to amount) = if to == id then amount else 0
credit id _ = 0

abbrev pub debit : Id32 → Event → ℕ
debit id (rcw_transferred from _ amount) = if from == id then amount else 0
debit id (rcw_spent from amount _) = if from == id then amount else 0
debit id _ = 0

abbrev pub credits : Id32 → List Event → ℕ
credits id [] = 0
credits id (ev ∷ events) = credit id ev + credits id events

abbrev pub debits : Id32 → List Event → ℕ
debits id [] = 0
debits id (ev ∷ events) = debit id ev + debits id events

-- A handler that began at `s`: if it succeeds and the credits fit in u64, the events explain the
-- owner's holding; if it fails, the holding is what it was.
abbrev pub Accounts : Id32 → Store → Result (List Event) × Store → Type 0
Accounts id s (ok events, s') =
    holding id s + credits id events ≤ u64_max
    → holding id s' + debits id events ≡ holding id s + credits id events
Accounts id s (err _, s') = holding id s' ≡ holding id s

pub credits-append :
    (id : Id32) (xs ys : List Event) → credits id (xs ++ ys) ≡ credits id xs + credits id ys
credits-append id [] ys = omega arith
credits-append id (x ∷ xs) ys = omega (arith, credits-append id xs ys)

pub debits-append :
    (id : Id32) (xs ys : List Event) → debits id (xs ++ ys) ≡ debits id xs + debits id ys
debits-append id [] ys = omega arith
debits-append id (x ∷ xs) ys = omega (arith, debits-append id xs ys)

pub mint-Accounts :
    (id to : Id32) (amount : ℕ) (reason : String) (s : Store)
    → Accounts id s (mint to amount reason s)
unfolding mint
mint-Accounts id to amount reason s = ground arith

pub transfer-Accounts :
    (id from to : Id32) (amount : ℕ) (memo : String) (s : Store)
    → Accounts id s (transfer from to amount memo s)
unfolding transfer
transfer-Accounts id from to amount memo s = ground arith

pub spend-Accounts :
    (id from : Id32) (amount : ℕ) (purpose : String) (s : Store)
    → Accounts id s (spend from amount purpose s)
unfolding spend
spend-Accounts id from amount purpose s = ground arith
