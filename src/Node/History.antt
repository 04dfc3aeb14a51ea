-- ===== src/Node/History.antt =====
-- The chain that a follower has: `handle_proposal` of crates/rc-node/src/main.rs.
use routinechain.Base.{
  ℕ, ◌≡◌, ◌⊎◌, inl, inr, subst, ap, List, ◌∙◌, none, some, false, [], arith, ◌==◌, Bool-cases,
  Option-cases, update, sub_u64,
}
use routinechain.Types.State.{Event}
use routinechain.Types.Block.{Block, NodeSignature}
use routinechain.Store.{Store, put_block}
use routinechain.External.{External}
use routinechain.Machine.Execute.{Settings}
use routinechain.Machine.Execute.Chain.{chain, run-chain}
use routinechain.Machine.Apply.{apply_txs, finish, apply_block}
use routinechain.Machine.Apply.Blocks.{apply_txs-run}
use routinechain.Consensus.{Consensus}
use routinechain.Consensus.Signing.{block_header_hash, verify_and_sign}
use routinechain.Node.{handle_proposal}

finish-chain :
    (ext : External) (b : Block) (events : List Event) (s : Store)
    → (chain (finish ext b events s).1 ≡ chain s)
      ⊎ (chain (finish ext b events s).1 ≡ chain (put_block b s))
unfolding finish
finish-chain ext b events s = ground arith

-- Applying a block writes it at its height, as the latest one, or writes no block.
pub apply_block-chain :
    (ext : External) (cfg : Settings) (b : Block) (s : Store)
    → (chain (apply_block ext cfg b s).1 ≡ chain s)
      ⊎ (chain (apply_block ext cfg b s).1 ≡ chain (put_block b s))
unfolding apply_block
apply_block-chain ext cfg b s =
    let r = apply_txs ext cfg b.transactions b.header.timestamp [] s in
    let after = chain (finish ext b r.0 r.1).1 in
    subst (λ m. (after ≡ m) ⊎ (after ≡ (update m.0 b.header.height b, some b.header.height)))
      (ap chain (apply_txs-run ext cfg b.transactions b.header.timestamp [] s) ∙ run-chain cfg _ s)
      (finish-chain ext b r.0 r.1)

-- What a proposal can do: nothing; or its height was free and above zero, the block before it is
-- stored, the follower has signed it against the hash of that block's header, and applied it.
pub proposal_cases :
    (ext : External) (cfg : Settings) (c : Consensus) (b : Block) (s : Store)
    → let r = handle_proposal ext cfg c b s in
      (r ≡ (none, s))
      ⊎ ((prev : Block) × (sig : NodeSignature) × ((b.header.height == 0) ≡ false)
          × (s.blocks b.header.height ≡ none)
          × (s.blocks (sub_u64 b.header.height 1) ≡ some prev)
          × (verify_and_sign ext c b (block_header_hash ext prev.header) ≡ some sig)
          × (r ≡ (some sig, (apply_block ext cfg b s).1)))
unfolding handle_proposal
proposal_cases ext cfg c b s = elim (Option-cases (s.blocks (sub_u64 b.header.height 1))) [
  | inl missing ↦ inl (ground arith)
  | inr (prev, found) ↦
      elim (Option-cases (verify_and_sign ext c b (block_header_hash ext prev.header))) [
        | inl refused ↦ inl (ground arith)
        | inr (sig, signed) ↦ elim (Bool-cases (b.header.height == 0)) [
          | inl first ↦ inl (ground arith)
          | inr above ↦ elim (Option-cases (s.blocks b.header.height)) [
            | inr taken ↦ inl (ground arith)
            | inl free ↦ inr (prev, sig, above, free, found, signed, ground arith)
          ]
        ]
      ]
]

kept_where_free :
    (s s' : Store) (b old : Block) (j : ℕ)
    → (chain s' ≡ chain s) ⊎ (chain s' ≡ chain (put_block b s))
    → s.blocks b.header.height ≡ none
    → s.blocks j ≡ some old
    → s'.blocks j ≡ some old
kept_where_free s s' b old j (inl same) free there = ap (λ c. c.0 j) same ∙ there
kept_where_free s s' b old j (inr written) free there = ap (λ c. c.0 j) written ∙ ground arith

-- A follower never replaces a block of its chain: a stored block is still stored, unchanged, after
-- any proposal.
pub stored_block_kept :
    (ext : External) (cfg : Settings) (c : Consensus) (b old : Block) (s : Store) (height : ℕ)
    → s.blocks height ≡ some old
    → (handle_proposal ext cfg c b s).1.blocks height ≡ some old
stored_block_kept ext cfg c b old s height there = elim (proposal_cases ext cfg c b s) [
  | inl same ↦ ap (λ r. r.1.blocks height) same ∙ there
  | inr (prev, sig, above, free, found, signed, applied) ↦
      ap (λ r. r.1.blocks height) applied
      ∙ kept_where_free s (apply_block ext cfg b s).1 b old height (apply_block-chain ext cfg b s)
          free there
]
