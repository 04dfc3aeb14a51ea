-- ===== src/Node/Forged.antt =====
-- Transactions that are not validly signed (crates/rc-node/src/main.rs): the leader executes what
-- other nodes send it, `apply_block` verifies each signature.
use routinechain.Base.{ℤ, ℕ, ◌≡◌, refl, ap, subst, ◌∙◌, false, List, [], ◌∷◌, map, arith, All}
use routinechain.Types.Bytes.{Hash, Signature}
use routinechain.Types.Transaction.{Transaction}
use routinechain.Types.State.{Event}
use routinechain.Types.Block.{Block}
use routinechain.Store.{Store}
use routinechain.External.{External}
use routinechain.Machine.Execute.{Settings, run, execute, check_and_update_nonce}
use routinechain.Machine.Apply.{apply_block, apply_txs, finish, verify_tx_signature}
use routinechain.Machine.Apply.Blocks.{verified, apply_txs-run}
use routinechain.Consensus.{Consensus}
use routinechain.Node.{execute_valid, build_block}

-- Two stores that differ in their blocks at most.
pub record SameRecords (s t : Store) : Type 0 where
  pub participants : s.participants ≡ t.participants
  pub settlements : s.settlements ≡ t.settlements
  pub balances : s.balances ≡ t.balances
  pub escrows : s.escrows ≡ t.escrows
  pub disputes : s.disputes ≡ t.disputes
  pub nonces : s.nonces ≡ t.nonces
  pub anchors : s.anchors ≡ t.anchors

finish-SameRecords :
    (ext : External) (b : Block) (events : List Event) (s : Store)
    → SameRecords (finish ext b events s).1 s
unfolding finish
finish-SameRecords ext b events s = record {
  participants = ground arith;
  settlements = ground arith;
  balances = ground arith;
  escrows = ground arith;
  disputes = ground arith;
  nonces = ground arith;
  anchors = ground arith;
}

none_verified :
    (ext : External) (txs : List Transaction) (now : ℤ)
    → All (λ tx. verify_tx_signature ext tx ≡ false) txs
    → verified ext txs now ≡ []
none_verified ext [] now forged = refl
none_verified ext (tx ∷ txs) now forged =
    rw (forged.0, verified) (none_verified ext txs now forged.1)

-- the same transaction with another signature
abbrev pub re_signed : (Transaction → Signature) → Transaction → Transaction
re_signed f tx = record tx { signature = f tx }

execute-re_signed :
    (cfg : Settings) (f : Transaction → Signature) (tx : Transaction) (now : ℤ) (s : Store)
    → execute cfg (re_signed f tx) now s ≡ execute cfg tx now s
unfolding execute check_and_update_nonce
execute-re_signed cfg f tx now s = refl

-- The execution by the leader does not look at signatures.
execute_valid-re_signed :
    (cfg : Settings) (f : Transaction → Signature) (txs : List Transaction) (now : ℤ) (s : Store)
    → let (valid, events, s') = execute_valid cfg txs now s in
      execute_valid cfg (map (re_signed f) txs) now s ≡ (map (re_signed f) valid, events, s')
unfolding execute_valid
execute_valid-re_signed cfg f [] now s = refl
execute_valid-re_signed cfg f (tx ∷ txs) now s = ground (
  arith,
  execute-re_signed cfg f tx now s,
  execute_valid-re_signed cfg f txs now (execute cfg tx now s).1,
)

-- What holds of all pending transactions holds of the accepted ones.
All-execute_valid :
    (P : Transaction → Type 0) (cfg : Settings) (txs : List Transaction) (now : ℤ) (s : Store)
    → All P txs
    → All P (execute_valid cfg txs now s).0
unfolding execute_valid
All-execute_valid P cfg [] now s h = tt
All-execute_valid P cfg (tx ∷ txs) now s h =
    ground (arith, h.0, All-execute_valid P cfg txs now (execute cfg tx now s).1 h.1)

All-map :
    {A B : Type 0} (P : B → Type 0) (g : A → B) (xs : List A)
    → All (λ x. P (g x)) xs
    → All P (map g xs)
All-map P g [] h = tt
All-map P g (x ∷ xs) h = (h.0, All-map P g xs h.1)

-- A block of invalidly signed transactions leaves a follower's records.
unverified_skipped :
    (ext : External) (cfg : Settings) (b : Block) (s : Store)
    → All (λ tx. verify_tx_signature ext tx ≡ false) b.transactions
    → SameRecords (apply_block ext cfg b s).1 s
unfolding apply_block run
unverified_skipped ext cfg b s none_valid =
    let (events, s') = apply_txs ext cfg b.transactions b.header.timestamp [] s in
    subst (SameRecords (apply_block ext cfg b s).1)
      (apply_txs-run ext cfg b.transactions b.header.timestamp [] s
        ∙ ap (λ l. run cfg l s) (none_verified ext b.transactions b.header.timestamp none_valid))
      (finish-SameRecords ext b events s')

-- The leader does not look at signatures, and a follower does. Replace the signatures of any pending
-- transactions by others of which none is valid: the leader accepts the same transactions and puts
-- them, so signed, into its block, reports the same events and ends with the same store as with the
-- first signatures, while a follower that has the store the leader began with keeps every record as
-- it was.
pub forged_executed_by_leader :
    (ext : External) (cfg : Settings) (c : Consensus) (height : ℕ) (prev : Hash) (now : ℤ)
    (txs : List Transaction) (f : Transaction → Signature) (s : Store)
    → All (λ tx. verify_tx_signature ext (re_signed f tx) ≡ false) txs
    → let (valid, events, s') = execute_valid cfg txs now s in
      let (forged, events', s'') = execute_valid cfg (map (re_signed f) txs) now s in
      let b = build_block ext c height prev now forged s'' in
      (b.transactions ≡ map (re_signed f) valid)
      × (events' ≡ events)
      × (s'' ≡ s')
      × SameRecords (apply_block ext cfg b s).1 s
unfolding build_block
forged_executed_by_leader ext cfg c height prev now txs f s none_valid =
    let (forged, events', s'') = execute_valid cfg (map (re_signed f) txs) now s in
    let same = execute_valid-re_signed cfg f txs now s in
    (
      ap (λ r. r.0) same,
      ap (λ r. r.1) same,
      ap (λ r. r.2) same,
      unverified_skipped ext cfg (build_block ext c height prev now forged s'') s (
          All-execute_valid (λ tx. verify_tx_signature ext tx ≡ false) cfg (map (re_signed f) txs)
            now s (All-map _ (re_signed f) txs none_valid)),
    )
