-- ===== src/Rpc/Included.antt =====
-- From a request to a block: `submit_tx` of crates/rc-rpc/src/lib.rs and the main loop of
-- crates/rc-node/src/main.rs, in a node without peers.
use routinechain.Base.{
  ℤ, ◌+◌, ◌<◌, ◌≡◌, sym, ap, subst, ◌∙◌, String, true, false, none, some, [], ◌∷◌, ◌++◌, is_empty,
  inl, inr, arith, u64_max,
}
use mathlib.Core.Bool.{true≢false}
use routinechain.Types.Transaction.{Transaction}
use routinechain.Types.Block.{Block}
use routinechain.Types.Config.{ConsensusSettings}
use routinechain.External.{Bytes, External}
use routinechain.Store.{Store, get_latest_height}
use routinechain.Store.Disk.{Io}
use routinechain.Machine.Action.{is_err}
use routinechain.Machine.Apply.{verify_tx_signature}
use routinechain.Machine.Execute.{Settings, execute}
use routinechain.Consensus.{Consensus}
use routinechain.Node.{execute_valid}
use routinechain.Node.Loop.{Clock, tick}
use routinechain.Node.Loop.Solo.{idle_node, quiet_round, solo_progress}
use routinechain.Rpc.{SubmitTxRequest, answered, submit_tx}
use routinechain.Rpc.Submit.{first_or, is_json, submitted_signed}

execute_valid_one :
    (cfg : Settings) (tx : Transaction) (now : ℤ) (s : Store)
    → is_err (execute cfg tx now s).0 ≡ false
    → (execute_valid cfg (tx ∷ []) now s).0 ≡ tx ∷ []
unfolding execute_valid
execute_valid_one cfg tx now s accepted = ground (arith, accepted)

-- What a request sends is validly signed.
sent-signed :
    (ext : External) (hex_decode : String → Io Bytes) (req : SubmitTxRequest) (now : ℤ)
    (tx : Transaction)
    → submit_tx ext hex_decode req now true ≡ (answered "Transaction submitted" "accepted", tx ∷ [])
    → verify_tx_signature ext tx ≡ true
sent-signed ext hex_decode req now tx sent = elim (submitted_signed ext hex_decode req now true) [
  | inr (code, refused) ↦ absurd (true≢false (ap (λ r. is_json r.0) (sym sent ∙ refused)))
  | inl (sender, sig, accepted, ok, read, valid) ↦
      subst (λ t. verify_tx_signature ext t ≡ true)
        (ap (λ r. first_or tx r.1) (sym accepted ∙ sent)) valid
]

-- A submitted transaction gets into a block: when a request to a node without peers and with an
-- empty pool is answered with "accepted", the transaction that it sends is validly signed, and if
-- executing it succeeds, the round that takes it ends with the next block stored, which holds it
-- alone, and with an empty pool and nothing pending. The block of the latest height is supposed to be
-- stored, and that height to be below the last u64.
pub submitted_in_block :
    (ext : External) (hex_decode : String → Io Bytes) (req : SubmitTxRequest) (now : ℤ)
    (tx : Transaction) (cfg : Settings) (config : ConsensusSettings) (clock : Clock) (c : Consensus)
    (s : Store) (last : ℤ) (prev : Block)
    → submit_tx ext hex_decode req now true ≡ (answered "Transaction submitted" "accepted", tx ∷ [])
    → c.peers ≡ []
    → c.pending_txs ≡ []
    → s.blocks (get_latest_height s) ≡ some prev
    → get_latest_height s < u64_max
    → is_err (execute cfg tx clock.executed s).0 ≡ false
    → let i = quiet_round ext cfg config clock (tx ∷ []) [] in
      let n' = (tick ext cfg config 0 i (idle_node ext cfg config clock c s last)).1 in
      (b : Block) × (verify_tx_signature ext tx ≡ true)
      × (n'.store.blocks (get_latest_height s + 1) ≡ some b)
      × (get_latest_height n'.store ≡ get_latest_height s + 1)
      × (b.transactions ≡ tx ∷ [])
      × (n'.consensus.pending_txs ≡ [])
      × (n'.pending_block ≡ none)
submitted_in_block ext hex_decode req now tx cfg config clock c s last prev sent alone empty found
      below accepted =
    let one : (execute_valid cfg ((c.pending_txs ++ tx ∷ []) ++ []) clock.executed s).0 ≡ tx ∷ [] =
      ap (λ txs. (execute_valid cfg ((txs ++ tx ∷ []) ++ []) clock.executed s).0) empty
      ∙ execute_valid_one cfg tx clock.executed s accepted in
    let (b, stored, latest, holds, links, drained, idle) =
      solo_progress ext cfg config clock c s last (tx ∷ []) [] prev alone found below
        (ap is_empty one) in
    (b, sent-signed ext hex_decode req now tx sent, stored, latest, holds ∙ one, drained, idle)
