-- ===== src/Node/Production.antt =====
-- `produce` as a whole: steps 7 and 8 of the main loop of crates/rc-node/src/main.rs.
use routinechain.Base.{
  ℕ, ℤ, ◌≡◌, refl, sym, ap, ◌∙◌, true, none, some, List, [], inl, inr, arith, All, Bool-cases,
  Option-cases, add_u64, sub_u64, u64_max, ◌<◌, ◌≢◌, ◌+◌, subst,
}
use mathlib.Core.List.{Permᴰ}
use routinechain.Types.Transaction.{Transaction}
use routinechain.Types.Block.{Block, NodeSignature}
use routinechain.Store.{Store, put_block, get_latest_height}
use routinechain.External.{External}
use routinechain.Machine.Execute.{Settings}
use routinechain.Machine.Apply.{apply_block, verify_tx_signature}
use routinechain.Consensus.{Consensus, node_ids, leader_for_height_round, is_leader}
use routinechain.Consensus.Signing.{
  block_header_hash, verify_and_sign, first_signature_ok, signature_by,
}
use routinechain.Types.Bytes.{Hash}
use routinechain.Consensus.Leader.{leader_agreed}
use routinechain.Consensus.Proposals.{Knows, signed_when, peer_key}
use routinechain.Node.{execute_valid, build_block, produce, handle_proposal}
use routinechain.Node.Blocks.{leader_block_applies}

pub produced :
    (ext : External) (cfg : Settings) (now : ℤ) (c c' : Consensus) (s s' : Store) (b : Block)
    → produce ext cfg now c s ≡ (some b, c', s')
    → let (valid, events, after) = execute_valid cfg c.pending_txs now s in
      (prev : Block) × (is_leader c (add_u64 (get_latest_height s) 1) ≡ true)
      × (s.blocks (sub_u64 (add_u64 (get_latest_height s) 1) 1) ≡ some prev)
      × (s' ≡ after)
      × (b
          ≡ build_block ext
              (record c { pending_txs = [] })
              (add_u64 (get_latest_height s) 1)
              (block_header_hash ext prev.header)
              now
              valid
              after)
unfolding produce
produced ext cfg now c c' s s' b made =
    let height = add_u64 (get_latest_height s) 1 in
    elim (Option-cases (s.blocks (sub_u64 height 1))) [
      | inl missing ↦ absurd (ground (arith, made))
      | inr (prev, found) ↦ elim (Bool-cases (is_leader c height)) [
        | inr other ↦ absurd (ground (arith, made))
        | inl leads ↦ (prev, leads, found, ground (arith, made), ground (arith, made))
      ]
    ]

built_signed :
    (ext : External) (c f : Consensus) (height : ℕ) (prev : Hash) (now : ℤ) (txs : List Transaction)
    (after : Store)
    → is_leader c height ≡ true
    → Permᴰ (node_ids c) (node_ids f)
    → c.round ≡ f.round
    → c.node_id ≢ f.node_id
    → Knows ext f c
    → let b = build_block ext (record c { pending_txs = [] }) height prev now txs after in
      verify_and_sign ext f b prev ≡ some (signature_by ext f b.header)
unfolding build_block first_signature_ok
built_signed ext c f height prev now txs after leads p same ne (key, found, signs) =
    let b = build_block ext (record c { pending_txs = [] }) height prev now txs after in
    signed_when ext f b prev
      (ground (
        arith,
        leads,
        ap (leader_for_height_round c height) same,
        leader_agreed c f height f.round p,
      ))
      refl (rw (first_signature_ok, build_block, peer_key f c.node_id key ne found) (signs _)) refl

handled :
    (ext : External) (cfg : Settings) (f : Consensus) (b prev : Block) (sig : NodeSignature)
    (s : Store)
    → b.header.height ≢ 0
    → s.blocks b.header.height ≡ none
    → s.blocks (sub_u64 b.header.height 1) ≡ some prev
    → verify_and_sign ext f b (block_header_hash ext prev.header) ≡ some sig
    → handle_proposal ext cfg f b s ≡ (some sig, (apply_block ext cfg b s).1)
unfolding handle_proposal
handled ext cfg f b prev sig s above free found signed = ground (arith, free, found, signed)

-- A leader that produces a block from pending transactions that are all validly signed and all
-- accepted has it signed and applied by any follower with the same store, the same nodes and round,
-- and another id, that knows the leader under a key it signs for: the follower ends with the
-- leader's store and the block in it. The chain is supposed to end at the latest height, below the
-- end of u64.
pub produced_block_applies :
    (ext : External) (cfg : Settings) (now : ℤ) (c c' f : Consensus) (s s' : Store) (b : Block)
    → produce ext cfg now c s ≡ (some b, c', s')
    → All (λ tx. verify_tx_signature ext tx ≡ true) c.pending_txs
    → (execute_valid cfg c.pending_txs now s).0 ≡ c.pending_txs
    → get_latest_height s < u64_max
    → s.blocks (get_latest_height s + 1) ≡ none
    → Permᴰ (node_ids c) (node_ids f)
    → c.round ≡ f.round
    → c.node_id ≢ f.node_id
    → Knows ext f c
    → handle_proposal ext cfg f b s ≡ (some (signature_by ext f b.header), put_block b s')
unfolding build_block
produced_block_applies ext cfg now c c' f s s' b made signed accepted below free p same ne knows =
    let (valid, events, after) = execute_valid cfg c.pending_txs now s in
    let (prev, leads, found, end, built) = produced ext cfg now c c' s s' b made in
    let height = add_u64 (get_latest_height s) 1 in
    let hash = block_header_hash ext prev.header in
    let b' = build_block ext (record c { pending_txs = [] }) height hash now valid after in
    let next : height ≡ get_latest_height s + 1 = omega arith in
    let taken = subst (λ k. s.blocks k ≡ none) (sym next) free in
    let sig = built_signed ext c f height hash now valid after leads p same ne knows in
    let done =
      leader_block_applies ext cfg (record c { pending_txs = [] }) height hash now c.pending_txs s
        signed accepted in
    subst
      (λ x. handle_proposal ext cfg f x s ≡ (some (signature_by ext f x.header), put_block x s'))
      (sym built)
      (subst
        (λ x.
          handle_proposal ext cfg f b' s ≡ (some (signature_by ext f b'.header), put_block b' x))
        (sym end)
        (handled ext cfg f b' prev (signature_by ext f b'.header) s (omega arith) taken found sig
          ∙ ap (λ x. (some (signature_by ext f b'.header), x)) done))
