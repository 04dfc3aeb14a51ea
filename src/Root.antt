-- ===== src/Root.antt =====
-- `Store::compute_state_root` of crates/rc-store/src/lib.rs: one hash over all state records.
use routinechain.Base.{Bool, true, false, ◌&&◌, List, [], ◌∷◌, ◌++◌, ◌==◌, if◌then◌else◌}
use routinechain.Types.Bytes.{Hash}
use routinechain.Store.{Store}
use routinechain.External.{Bytes, External}

-- the key prefixes, as ASCII codes
abbrev pub prefix_participant : Bytes
prefix_participant = b'p' ∷ b'r' ∷ b't' ∷ b'/' ∷ []

abbrev pub prefix_settlement : Bytes
prefix_settlement = b's' ∷ b't' ∷ b'l' ∷ b'/' ∷ []

abbrev pub prefix_balance : Bytes
prefix_balance = b'b' ∷ b'a' ∷ b'l' ∷ b'/' ∷ []

abbrev pub prefix_escrow : Bytes
prefix_escrow = b'e' ∷ b's' ∷ b'c' ∷ b'/' ∷ []

abbrev pub prefix_dispute : Bytes
prefix_dispute = b'd' ∷ b's' ∷ b'p' ∷ b'/' ∷ []

abbrev pub prefix_nonce : Bytes
prefix_nonce = b'n' ∷ b'n' ∷ b'c' ∷ b'/' ∷ []

abbrev pub prefix_anchor : Bytes
prefix_anchor = b'a' ∷ b'n' ∷ b'c' ∷ b'/' ∷ []

-- `STATE_PREFIXES`: blocks and the latest height are not among them
abbrev pub state_prefixes : List Bytes
state_prefixes =
    prefix_participant ∷ prefix_settlement ∷ prefix_balance ∷ prefix_escrow ∷ prefix_dispute
    ∷ prefix_nonce ∷ prefix_anchor ∷ []

-- `key.starts_with(prefix)`
abbrev pub starts_with : Bytes → Bytes → Bool
starts_with key [] = true
starts_with [] (b ∷ prefix) = false
starts_with (k ∷ key) (b ∷ prefix) = k == b && starts_with key prefix

-- The inner loop: what the hasher is fed for one prefix. It breaks at the first other key.
unfoldable pub prefix_chunk : Bytes → List (Bytes × Bytes) → Bytes
prefix_chunk prefix [] = []
prefix_chunk prefix ((key, value) ∷ entries) =
    let rest = prefix_chunk prefix entries in
    if starts_with key prefix then key ++ (value ++ rest) else []

-- The outer loop.
unfoldable pub state_bytes : External → List Bytes → Store → Bytes
unfolding prefix_chunk
state_bytes ext [] s = []
state_bytes ext (prefix ∷ prefixes) s =
    prefix_chunk prefix (ext.iterate prefix s) ++ state_bytes ext prefixes s

unfoldable pub compute_state_root : External → Store → Hash
unfolding state_bytes
compute_state_root ext s = ext.hash (state_bytes ext state_prefixes s)
