-- ===== src/Consensus/TwoSigners.antt =====
-- The signatures of a proposer and of one follower: `is_finalized` of crates/rc-consensus/src/lib.rs
-- where two signatures are asked for.
use routinechain.Base.{◌≡◌, ◌≢◌, refl, sym, ap, ◌∙◌, true, false, some, [], ◌∷◌, ◌++◌, arith}
use routinechain.Types.Block.{Block, BlockHeader}
use routinechain.External.{External}
use routinechain.Consensus.{Consensus}
use routinechain.Consensus.Signing.{
  signer_key, signature_by, count_signer, unique_signers, is_finalized,
}
use routinechain.Consensus.Finality.{sig_counts, count_signer_lem}
use routinechain.Consensus.Proposals.{Signs, Knows, known_key}

module _ (ext : External) where
  self_key : (c : Consensus) → signer_key c c.node_id ≡ some c.node_id
  self_key c = ground arith

  own_counts :
      (c : Consensus) (h : BlockHeader)
      → Signs ext c.private_key c.node_id
      → sig_counts ext c h (signature_by ext c h) ≡ true
  own_counts c h own = rw (sig_counts, self_key c) (own _)

  peer_counts :
      (c f : Consensus) (h : BlockHeader)
      → c.node_id ≢ f.node_id
      → Knows ext c f
      → sig_counts ext c h (signature_by ext f h) ≡ true
  peer_counts c f h ne (key, found, signs) =
      rw (sig_counts, known_key c f.node_id key (λ e. ne (sym e)) found) (signs _)

  -- A block with the signature of the proposer alone has one signer.
  one_signer :
      (c : Consensus) (b : Block)
      → Signs ext c.private_key c.node_id
      → b.signatures ≡ signature_by ext c b.header ∷ []
      → unique_signers ext c b.header b.signatures [] ≡ c.node_id ∷ []
  unfolding unique_signers
  one_signer c b own sigs = rw sigs (
      count_signer_lem ext c b.header (signature_by ext c b.header) []
      ∙ rw (own_counts c b.header own) refl)

  -- With the signature of a known peer it has two.
  two_signers :
      (c f : Consensus) (b : Block)
      → Signs ext c.private_key c.node_id
      → c.node_id ≢ f.node_id
      → Knows ext c f
      → b.signatures ≡ signature_by ext c b.header ∷ []
      → unique_signers ext c b.header (b.signatures ++ signature_by ext f b.header ∷ []) []
        ≡ c.node_id ∷ f.node_id ∷ []
  unfolding unique_signers
  two_signers c f b own ne known sigs =
      ap (λ xs. unique_signers ext c b.header (xs ++ signature_by ext f b.header ∷ []) []) sigs
      ∙ ap (count_signer ext c b.header (signature_by ext f b.header)) (
          count_signer_lem ext c b.header (signature_by ext c b.header) []
          ∙ rw (own_counts c b.header own) refl)
      ∙ count_signer_lem ext c b.header (signature_by ext f b.header) (c.node_id ∷ [])
      ∙ ground (arith, peer_counts c f b.header ne known)

  pub one_of_two :
      (c : Consensus) (b : Block)
      → Signs ext c.private_key c.node_id
      → b.signatures ≡ signature_by ext c b.header ∷ []
      → c.min_signatures ≡ 2
      → is_finalized ext c b ≡ false
  unfolding is_finalized
  one_of_two c b own sigs min = rw (is_finalized, one_signer c b own sigs, min) refl

  pub two_of_two :
      (c f : Consensus) (b : Block)
      → Signs ext c.private_key c.node_id
      → c.node_id ≢ f.node_id
      → Knows ext c f
      → b.signatures ≡ signature_by ext c b.header ∷ []
      → c.min_signatures ≡ 2
      → is_finalized ext c
          (record b { signatures = b.signatures ++ signature_by ext f b.header ∷ [] })
        ≡ true
  unfolding is_finalized
  two_of_two c f b own ne known sigs min =
      rw (is_finalized, two_signers c f b own ne known sigs, min) refl
