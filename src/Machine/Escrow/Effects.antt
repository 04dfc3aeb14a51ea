-- ===== src/Machine/Escrow/Effects.antt =====
-- What a release and a refund bring about (crates/rc-state/src/modules/escrow.rs).
use routinechain.Base.{ℤ, Option, update, if◌then◌else◌, ◌==◌, saturating_add}
use routinechain.Types.Bytes.{Id32}
use routinechain.Types.State.{Escrow, Participant}
use routinechain.Store.{Store}
use routinechain.Machine.Escrow.{bought, sold}

-- what a release writes to the participants: the seller is read after the buyer is written
abbrev pub paid_parties : Escrow → Participant → Participant → ℤ → Store → Id32 → Option Participant
paid_parties e b p now s =
    update (update s.participants e.buyer (bought b now)) e.seller
      (sold (if e.buyer == e.seller then bought b now else p) e.amount now)

-- what a refund does to the seller
abbrev pub missed : Participant → ℤ → Participant
missed p now = record p { total_tx = saturating_add p.total_tx 1; last_activity_at = now }
