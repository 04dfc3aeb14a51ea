-- ===== src/Node/Chain.antt =====
-- The blocks of a node as a chain: what storing a block, a proposal and a leader's block keep of it
-- (crates/rc-node/src/main.rs).
use routinechain.Base.{
  ℕ, suc, ℤ, ◌+◌, ◌^◌, ◌≤◌, ◌<◌, ◌≡◌, inl, inr, sym, ap, subst, ◌∙◌, Bool-cases, Option, none, some,
  ◌==◌, arith, sub_u64, false, List, false,
}
use native.Mathlib.Decide.{dec_lt}
use routinechain.Types.Bytes.{Hash, Id32}
use routinechain.Types.Transaction.{Transaction}
use routinechain.Types.Block.{Block, NodeSignature, genesis}
use routinechain.Store.{Store, or_zero, put_block, get_latest_height, empty}
use routinechain.External.{External}
use routinechain.Machine.Execute.{Settings}
use routinechain.Machine.Execute.Chain.{chain, run-chain}
use routinechain.Consensus.{Consensus}
use routinechain.Consensus.Signing.{block_header_hash, verify_and_sign}
use routinechain.Node.{handle_proposal, execute_valid}
use routinechain.Node.Blocks.{execute_valid-run, at_time}
use routinechain.Node.History.{apply_block-chain, proposal_cases}

-- The block can follow the latest one: its height is the next, and it names the latest one's hash.
pub record Extends (ext : External) (b : Block) (c : (ℕ → Option Block) × Option ℕ) : Type 0 where
  pub next_height : b.header.height ≡ or_zero c.1 + 1
  pub previous : Block
  pub found : c.0 (or_zero c.1) ≡ some previous
  pub links : b.header.prev_hash ≡ block_header_hash ext previous.header

-- Each height up to the latest has a block of that height, none above has one, and each block names
-- the hash of the one before it.
pub record IsChainOf (ext : External) (c : (ℕ → Option Block) × Option ℕ) : Type 0 where
  pub stored : (k : ℕ) → k ≤ or_zero c.1 → (b : Block) × (c.0 k ≡ some b) × (b.header.height ≡ k)
  pub linked :
      (k : ℕ) (b prev : Block)
      → c.0 (suc k) ≡ some b
      → c.0 k ≡ some prev
      → b.header.prev_hash ≡ block_header_hash ext prev.header
  pub free : (k : ℕ) → or_zero c.1 < k → c.0 k ≡ none

abbrev pub IsChain : External → Store → Type 0
IsChain ext s = IsChainOf ext (chain s)

some_injective : {A : Type 0} (a b : A) → some a ≡ some b → a ≡ b
some_injective a b e = cc

stored_below :
    (ext : External) (s : Store) (b : Block) (k : ℕ)
    → IsChain ext s
    → Extends ext b (chain s)
    → k ≤ b.header.height
    → (b' : Block) × ((put_block b s).blocks k ≡ some b') × (b'.header.height ≡ k)
stored_below ext s b k h e le = elim (Bool-cases (b.header.height == k)) [
  | inl here ↦ (b, ground (arith, here), ground (arith, here))
  | inr below ↦
      let (b', there, at) = h.stored k (ground (arith, below, e.next_height)) in
      (b', rw below there, at)
]

linked_last :
    (ext : External) (s : Store) (b b' prev : Block)
    → Extends ext b (chain s)
    → some b ≡ some b'
    → s.blocks (get_latest_height s) ≡ some prev
    → b'.header.prev_hash ≡ block_header_hash ext prev.header
linked_last ext s b b' prev e same latest =
    ap (λ x. x.header.prev_hash) (sym (some_injective b b' same))
    ∙ e.links
    ∙ ap (λ x. block_header_hash ext x.header) (some_injective _ _ (sym e.found ∙ latest))

linked_below :
    (ext : External) (s : Store) (b : Block) (k : ℕ) (b' prev : Block)
    → IsChain ext s
    → Extends ext b (chain s)
    → (put_block b s).blocks (suc k) ≡ some b'
    → (put_block b s).blocks k ≡ some prev
    → b'.header.prev_hash ≡ block_header_hash ext prev.header
linked_below ext s b k b' prev h e above below = elim (Bool-cases (b.header.height == suc k)) [
  | inl last ↦
      let top : k ≡ get_latest_height s = ground (arith, last, e.next_height) in
      linked_last ext s b b' prev e (ground (arith, above, last))
        (subst (λ j. s.blocks j ≡ some prev) top (ground (arith, below, last)))
  | inr other ↦ elim (Bool-cases (b.header.height == k)) [
    | inl beyond ↦
        absurd
          (ground (arith, above, other, h.free (suc k) (ground (arith, beyond, e.next_height))))
    | inr inside ↦ h.linked k b' prev (ground (arith, above, other)) (ground (arith, below, inside))
  ]
]

-- A block that can follow the latest one is stored as the next of the chain.
pub put_block-IsChain :
    (ext : External) (s : Store) (b : Block)
    → IsChain ext s
    → Extends ext b (chain s)
    → IsChain ext (put_block b s)
put_block-IsChain ext s b h e = record {
  stored = λ k le. stored_below ext s b k h e le;
  linked = λ k b' prev above below. linked_below ext s b k b' prev h e above below;
  free = λ k lt. ground (arith, h.free k (ground (arith, lt, e.next_height)), lt);
}

signed_links :
    (ext : External) (c : Consensus) (b : Block) (prev : Hash) (sig : NodeSignature)
    → verify_and_sign ext c b prev ≡ some sig
    → b.header.prev_hash ≡ prev
unfolding verify_and_sign
signed_links ext c b prev sig signed = ground (arith, signed)

above_latest :
    (ext : External) (s : Store) (k : ℕ)
    → IsChain ext s
    → s.blocks k ≡ none
    → get_latest_height s < k
above_latest ext s k h free = elim (dec_lt (get_latest_height s) k) [
  | yes lt ↦ lt
  | no ge ↦ let (b, there, at) = h.stored k (omega arith) in absurd (cc (there, free))
]

not_above :
    (ext : External) (s : Store) (k : ℕ) (b : Block)
    → IsChain ext s
    → s.blocks k ≡ some b
    → k ≤ get_latest_height s
not_above ext s k b h there = elim (dec_lt (get_latest_height s) k) [
  | yes lt ↦ absurd (cc (there, h.free k lt))
  | no ge ↦ omega arith
]

proposal-Extends :
    (ext : External) (c : Consensus) (b prev : Block) (sig : NodeSignature) (s : Store)
    → IsChain ext s
    → b.header.height < 2 ^ 64
    → (b.header.height == 0) ≡ false
    → s.blocks b.header.height ≡ none
    → s.blocks (sub_u64 b.header.height 1) ≡ some prev
    → verify_and_sign ext c b (block_header_hash ext prev.header) ≡ some sig
    → Extends ext b (chain s)
proposal-Extends ext c b prev sig s h fits above free found signed =
    let below : sub_u64 b.header.height 1 + 1 ≡ b.header.height = ground (arith, above) in
    let over = above_latest ext s b.header.height h free in
    let under = not_above ext s (sub_u64 b.header.height 1) prev h found in
    let next : sub_u64 b.header.height 1 ≡ get_latest_height s = omega arith in
    record {
      next_height = omega arith;
      previous = prev;
      found = subst (λ k. s.blocks k ≡ some prev) next found;
      links = signed_links ext c b _ sig signed;
    }

-- A proposal keeps the chain.
pub handle_proposal-IsChain :
    (ext : External) (cfg : Settings) (c : Consensus) (b : Block) (s : Store)
    → b.header.height < 2 ^ 64
    → IsChain ext s
    → IsChain ext (handle_proposal ext cfg c b s).1
handle_proposal-IsChain ext cfg c b s fits h = elim (proposal_cases ext cfg c b s) [
  | inl same ↦ subst (λ r. IsChain ext r.1) (sym same) h
  | inr (prev, sig, above, free, found, signed, applied) ↦
      subst (λ r. IsChain ext r.1) (sym applied)
        (elim (apply_block-chain ext cfg b s) [
          | inl refused ↦ subst (IsChainOf ext) (sym refused) h
          | inr kept ↦ subst (IsChainOf ext) (sym kept) (
              put_block-IsChain ext s b h
                (proposal-Extends ext c b prev sig s h fits above free found signed))
        ])
]

-- Executing transactions keeps the chain.
pub execute_valid-chain :
    (cfg : Settings) (txs : List Transaction) (now : ℤ) (s : Store)
    → chain (execute_valid cfg txs now s).2 ≡ chain s
execute_valid-chain cfg txs now s =
    ap chain (execute_valid-run cfg txs now s) ∙ run-chain cfg (at_time txs now) s

-- A store that holds the genesis block alone is a chain.
pub genesis-IsChain :
    (ext : External) (timestamp : ℤ) (node_id : Id32)
    → IsChain ext (put_block (genesis timestamp node_id) empty)
genesis-IsChain ext timestamp node_id = record {
  stored = λ k le. (genesis timestamp node_id, ground (arith, le), omega (arith, le));
  linked = λ k b prev above below. absurd (ground (arith, above));
  free = λ k lt. ground (arith, lt);
}
