-- ===== src/Node/Blocks.antt =====
-- A leader's block on a follower (crates/rc-node/src/main.rs).
use routinechain.Base.{
  ℕ, ℤ, ◌≡◌, ◌≢◌, ◌<◌, refl, sym, ap, ◌∙◌, true, false, List, [], ◌∷◌, inr, arith, All,
}
use routinechain.Types.Bytes.{Id32, Hash}
use routinechain.Types.Transaction.{Transaction}
use routinechain.Types.Block.{Block}
use routinechain.Store.{Store, put_block, get_nonce, or_zero}
use routinechain.External.{External}
use routinechain.Machine.Action.{is_err}
use routinechain.Machine.Execute.{Settings, execute, run}
use routinechain.Root.{compute_state_root}
use routinechain.Machine.Execute.Nonce.{execute-nonces, execute-other_nonce}
use routinechain.Machine.Apply.{apply_block, apply_txs, finish, verify_tx_signature}
use routinechain.Machine.Apply.Blocks.{verified, block_applied}
use routinechain.Consensus.{Consensus}
use routinechain.Node.{execute_valid, build_block}

-- every transaction at the block's time
abbrev pub at_time : List Transaction → ℤ → List (Transaction × ℤ)
at_time [] now = []
at_time (tx ∷ txs) now = (tx, now) ∷ at_time txs now

pub execute_valid-run :
    (cfg : Settings) (txs : List Transaction) (now : ℤ) (s : Store)
    → (execute_valid cfg txs now s).2 ≡ run cfg (at_time txs now) s
unfolding execute_valid run
execute_valid-run cfg [] now s = refl
execute_valid-run cfg (tx ∷ txs) now s =
    ground (arith, execute_valid-run cfg txs now (execute cfg tx now s).1)

verified-at_time :
    (ext : External) (txs : List Transaction) (now : ℤ)
    → All (λ tx. verify_tx_signature ext tx ≡ true) txs
    → verified ext txs now ≡ at_time txs now
verified-at_time ext [] now a = refl
verified-at_time ext (tx ∷ txs) now a =
    rw (a.0, verified) (ap (λ rest. (tx, now) ∷ rest) (verified-at_time ext txs now a.1))

-- If every transaction that the leader executes is accepted and validly signed, a follower that has
-- the store the leader began with applies the leader's block: it ends with the leader's store, and
-- the block in it.
pub leader_block_applies :
    (ext : External) (cfg : Settings) (c : Consensus) (height : ℕ) (prev : Hash) (now : ℤ)
    (txs : List Transaction) (s : Store)
    → All (λ tx. verify_tx_signature ext tx ≡ true) txs
    → (execute_valid cfg txs now s).0 ≡ txs
    → let (valid, events, s') = execute_valid cfg txs now s in
      let b = build_block ext c height prev now valid s' in
      (apply_block ext cfg b s).1 ≡ put_block b s'
unfolding build_block
leader_block_applies ext cfg c height prev now txs s signed accepted =
    let (valid, events, s') = execute_valid cfg txs now s in
    let b = build_block ext c height prev now valid s' in
    let same : run cfg (verified ext valid now) s ≡ s' =
      ap (λ l. run cfg (verified ext l now) s) accepted
      ∙ ap (λ l. run cfg l s) (verified-at_time ext txs now signed)
      ∙ sym (execute_valid-run cfg txs now s) in
    ap (λ r. r.1) (block_applied ext cfg b s (inr (ap (compute_state_root ext) same)))
    ∙ ap (put_block b) same

apply_block-nonces :
    (ext : External) (cfg : Settings) (b : Block) (s : Store)
    → (apply_block ext cfg b s).1.nonces
      ≡ (apply_txs ext cfg b.transactions b.header.timestamp [] s).1.nonces
unfolding apply_block finish
apply_block-nonces ext cfg b s = ground arith

execute_valid_two :
    (cfg : Settings) (bad good : Transaction) (now : ℤ) (s : Store)
    → is_err (execute cfg bad now s).0 ≡ true
    → is_err (execute cfg good now (execute cfg bad now s).1).0 ≡ false
    → (execute_valid cfg (bad ∷ good ∷ []) now s).0 ≡ good ∷ []
unfolding execute_valid
execute_valid_two cfg bad good now s rejected accepted = ground (arith, rejected, accepted)

leader_nonce :
    (cfg : Settings) (bad good : Transaction) (now : ℤ) (s : Store)
    → bad.sender ≢ good.sender
    → get_nonce bad.sender s < bad.nonce
    → get_nonce bad.sender (run cfg (at_time (bad ∷ good ∷ []) now) s) ≡ bad.nonce
unfolding run
leader_nonce cfg bad good now s ne fresh =
    execute-other_nonce cfg good now (execute cfg bad now s).1 bad.sender ne
    ∙ rw (execute-nonces cfg bad now s fresh) (ground arith)

follower_nonce :
    (ext : External) (cfg : Settings) (tx : Transaction) (now : ℤ) (s : Store) (id : Id32)
    → id ≢ tx.sender
    → get_nonce id (apply_txs ext cfg (tx ∷ []) now [] s).1 ≡ get_nonce id s
unfolding apply_txs
follower_nonce ext cfg tx now s id ne = ground (arith, execute-other_nonce cfg tx now s id ne)

-- A leader drops a rejected transaction from its block and keeps its nonce: if the first of two
-- pending transactions of different senders has a new nonce and is rejected, and the second is
-- accepted, the block holds the second alone, the leader has recorded the nonce of the first, and a
-- follower that has the store the leader began with ends with the old nonce, the lower one.
pub rejected_nonce_diverges :
    (ext : External) (cfg : Settings) (c : Consensus) (height : ℕ) (prev : Hash) (now : ℤ)
    (bad good : Transaction) (s : Store)
    → bad.sender ≢ good.sender
    → get_nonce bad.sender s < bad.nonce
    → is_err (execute cfg bad now s).0 ≡ true
    → is_err (execute cfg good now (execute cfg bad now s).1).0 ≡ false
    → let (valid, events, s') = execute_valid cfg (bad ∷ good ∷ []) now s in
      let b = build_block ext c height prev now valid s' in
      (b.transactions ≡ good ∷ [])
      × (get_nonce bad.sender s' ≡ bad.nonce)
      × (get_nonce bad.sender (apply_block ext cfg b s).1 ≡ get_nonce bad.sender s)
unfolding build_block
rejected_nonce_diverges ext cfg c height prev now bad good s ne fresh rejected accepted =
    let (valid, events, s') = execute_valid cfg (bad ∷ good ∷ []) now s in
    let b = build_block ext c height prev now valid s' in
    let alone = execute_valid_two cfg bad good now s rejected accepted in
    (
      alone,
      ap (get_nonce bad.sender) (execute_valid-run cfg (bad ∷ good ∷ []) now s)
          ∙ leader_nonce cfg bad good now s ne fresh,
      ap (λ m. or_zero (m bad.sender)) (apply_block-nonces ext cfg b s)
          ∙ ap (λ txs. get_nonce bad.sender (apply_txs ext cfg txs now [] s).1) alone
          ∙ follower_nonce ext cfg good now s bad.sender ne,
    )
