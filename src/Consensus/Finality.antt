-- ===== src/Consensus/Finality.antt =====
-- Which signers count: `is_finalized` of crates/rc-consensus/src/lib.rs.
use routinechain.Base.{
  ◌+◌, ◌≤◌, ◌≡◌, refl, sym, subst, ap, append_assoc, ◌∙◌, none, some, true, false, List, [], ◌∷◌,
  ◌++◌, arith, ◌==◌, ◌&&◌, ◌||◌, Bool, contains, contains-append, IsDistinct, IsDistinct-snoc,
  length, length-append, if◌then◌else◌, All, map,
}
use routinechain.Types.Bytes.{Id32}
use routinechain.Types.Block.{Block, BlockHeader, NodeSignature}
use routinechain.External.{External, verify}
use routinechain.Consensus.{Consensus}
use routinechain.Consensus.Signing.{
  signer_key, set_remove, count_signer, unique_signers, is_finalized,
}

-- A signature counts if it is valid by the key of its signer, or its signer has no key.
abbrev pub sig_counts : External → Consensus → BlockHeader → NodeSignature → Bool
sig_counts ext c h sig = elim (signer_key c sig.node_id) [
  | none ↦ true
  | some key ↦ verify ext (ext.encode_header h) sig.signature key
]

-- Some signature of the node counts.
abbrev pub has_signed : External → Consensus → BlockHeader → Id32 → List NodeSignature → Bool
has_signed ext c h id [] = false
has_signed ext c h id (sig ∷ sigs) =
    sig.node_id == id && sig_counts ext c h sig || has_signed ext c h id sigs

set_remove_new :
    (xs : List Id32) (a : Id32) → contains xs a ≡ false → set_remove a (xs ++ a ∷ []) ≡ xs
set_remove_new [] a h = ground arith
set_remove_new (x ∷ xs) a h = ground (arith, set_remove_new xs a)

pub count_signer_lem :
    (ext : External) (c : Consensus) (h : BlockHeader) (sig : NodeSignature) (set : List Id32)
    → count_signer ext c h sig set ≡ (
        if contains set sig.node_id
        then set
        else if sig_counts ext c h sig
        then set ++ sig.node_id ∷ []
        else set)
unfolding count_signer
count_signer_lem ext c h sig set = ground (arith, set_remove_new set sig.node_id)

count_signer-IsDistinct :
    (ext : External) (c : Consensus) (h : BlockHeader) (sig : NodeSignature) (set : List Id32)
    → IsDistinct set
    → IsDistinct (count_signer ext c h sig set)
count_signer-IsDistinct ext c h sig set d =
    rw (count_signer_lem ext c h sig set) (ground (arith, d, IsDistinct-snoc set sig.node_id d))

contains-count_signer :
    (ext : External) (c : Consensus) (h : BlockHeader) (sig : NodeSignature) (set : List Id32)
    (id : Id32)
    → contains (count_signer ext c h sig set) id
      ≡ (contains set id || sig.node_id == id && sig_counts ext c h sig)
contains-count_signer ext c h sig set id =
    rw (count_signer_lem ext c h sig set)
      (ground (arith, contains-append set (sig.node_id ∷ []) id))

unique_signers-IsDistinct :
    (ext : External) (c : Consensus) (h : BlockHeader) (sigs : List NodeSignature) (set : List Id32)
    → IsDistinct set
    → IsDistinct (unique_signers ext c h sigs set)
unfolding unique_signers
unique_signers-IsDistinct ext c h [] set d = d
unique_signers-IsDistinct ext c h (sig ∷ sigs) set d =
    unique_signers-IsDistinct ext c h sigs _ (count_signer-IsDistinct ext c h sig set d)

contains-unique_signers :
    (ext : External) (c : Consensus) (h : BlockHeader) (sigs : List NodeSignature) (set : List Id32)
    (id : Id32)
    → contains (unique_signers ext c h sigs set) id
      ≡ (contains set id || has_signed ext c h id sigs)
unfolding unique_signers
contains-unique_signers ext c h [] set id = ground arith
contains-unique_signers ext c h (sig ∷ sigs) set id =
    contains-unique_signers ext c h sigs (count_signer ext c h sig set) id
    ∙ rw (contains-count_signer ext c h sig set id) (ground arith)

-- The signers that `is_finalized` counts for a block are all different, and a node is one of them if
-- and only if one of its signatures on the block is valid by its key or it has no key.
pub signers_counted :
    (ext : External) (c : Consensus) (b : Block) (id : Id32)
    → IsDistinct (unique_signers ext c b.header b.signatures [])
      × (contains (unique_signers ext c b.header b.signatures []) id
          ≡ has_signed ext c b.header id b.signatures)
signers_counted ext c b id = (
  unique_signers-IsDistinct ext c b.header b.signatures [] tt,
  contains-unique_signers ext c b.header b.signatures [] id,
)

-- No signer has a key.
abbrev pub AreUnknown : Consensus → List NodeSignature → Type 0
AreUnknown c sigs = All (λ sig. signer_key c sig.node_id ≡ none) sigs

new_in_middle :
    (xs : List Id32) (a : Id32) (ys : List Id32) → IsDistinct (xs ++ a ∷ ys) → contains xs a ≡ false
new_in_middle [] a ys d = refl
new_in_middle (x ∷ xs) a ys d =
    ground (arith, contains-append xs (a ∷ ys) x, new_in_middle xs a ys d.1)

unknown_counted :
    (ext : External) (c : Consensus) (h : BlockHeader) (sigs : List NodeSignature) (set : List Id32)
    → IsDistinct (set ++ map (λ sig. sig.node_id) sigs)
    → AreUnknown c sigs
    → length (unique_signers ext c h sigs set) ≡ length set + length sigs
unfolding unique_signers
unknown_counted ext c h [] set d u = omega arith
unknown_counted ext c h (sig ∷ sigs) set d u =
    let new = new_in_middle set sig.node_id _ d in
    let step : count_signer ext c h sig set ≡ set ++ sig.node_id ∷ [] =
      count_signer_lem ext c h sig set ∙ rw (new, sig_counts, u.0) refl in
    ap (λ s. length (unique_signers ext c h sigs s)) step
    ∙ unknown_counted ext c h sigs (set ++ sig.node_id ∷ [])
        (subst IsDistinct (sym (append_assoc set (sig.node_id ∷ []) _)) d) u.1
    ∙ omega (arith, length-append set (sig.node_id ∷ []))

-- A block is final by signatures of nobody: any signatures at all under different unknown ids, as
-- many of them as the number of signatures that is asked for, make `is_finalized` true.
pub unknown_signers_finalize :
    (ext : External) (c : Consensus) (b : Block)
    → IsDistinct (map (λ sig. sig.node_id) b.signatures)
    → AreUnknown c b.signatures
    → c.min_signatures ≤ length b.signatures
    → is_finalized ext c b ≡ true
unfolding is_finalized
unknown_signers_finalize ext c b d u enough =
    ground (arith, unknown_counted ext c b.header b.signatures [] d u)
