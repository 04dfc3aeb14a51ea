-- ===== src/Tests/World.antt =====
-- Concrete inputs: a buyer, a seller and an arbiter, an escrow between the first two, a dispute.
use routinechain.Base.{ℕ, ◌+◌, ◌%◌, ℤ, pos, List, [], ◌∷◌, ◌++◌, some, true, ◌==◌}
use routinechain.Types.Bytes.{Id32, Hash, empty_hash, default_signature}
use routinechain.Types.Transaction.{
  TxPayload, register_participant, create_escrow, raise_dispute, vote_dispute, record_rating,
  anchor_merkle_root, transfer_rcw, release_escrow, Transaction, ParticipantType, DisputeReason,
  DisputeDecision,
}
use routinechain.Types.State.{
  Participant, Escrow, released, disputed, Dispute, DisputeVote, AnchorRecord,
}
use routinechain.Machine.Escrow.{new_escrow}
use routinechain.Machine.Dispute.{new_dispute, with_vote}
use routinechain.Machine.Dispute.Induction.{resolved_dispute}
use routinechain.Types.Block.{Block, BlockHeader}
use routinechain.Types.Config.{default_node_config}
use routinechain.Store.{Store, empty}
use routinechain.External.{Bytes, External}
use routinechain.Machine.Execute.{
  Settings, new_settings, with_dispute_threshold, with_platform_keys,
}
use routinechain.Machine.Participant.{new_participant}

abbrev pub cfg : Settings
cfg =
    with_platform_keys (with_dispute_threshold (new_settings default_node_config.rcw.rewards) 1)
      (9 ∷ [])

abbrev pub tx_of : TxPayload → Id32 → ℕ → Transaction
tx_of payload sender nonce = record {
  payload = payload;
  sender = sender;
  signature = default_signature;
  timestamp = pos 5;
  nonce = nonce;
}

abbrev pub register_buyer : Transaction
register_buyer = tx_of (register_participant 1 ParticipantType.buyer "b") 1 1

abbrev pub register_seller : Transaction
register_seller = tx_of (register_participant 2 ParticipantType.seller "s") 2 1

abbrev pub register_arbiter : Transaction
register_arbiter = tx_of (register_participant 31 ParticipantType.arbiter "a") 31 1

abbrev pub open_escrow : Transaction
open_escrow = tx_of (create_escrow 10 1 2 500 (pos 100)) 1 2

abbrev pub raise_it : Transaction
raise_it = tx_of (raise_dispute 20 10 DisputeReason.damaged 7) 1 3

abbrev pub vote_it : Transaction
vote_it = tx_of (vote_dispute 20 DisputeDecision.favor_buyer) 31 2

abbrev pub rate_seller : Transaction
rate_seller = tx_of (record_rating 2 500 true) 1 4

abbrev pub anchor_it : Transaction
anchor_it = tx_of (anchor_merkle_root 77 5 3 1 3) 9 1

-- more than the buyer holds
abbrev pub overdraw : Transaction
overdraw = tx_of (transfer_rcw 2 1000 "") 1 9

-- the three participants and the escrow
abbrev pub opened : List (Transaction × ℤ)
opened =
    (register_buyer, pos 1)
    ∷ (register_seller, pos 1)
    ∷ (register_arbiter, pos 1)
    ∷ (open_escrow, pos 2)
    ∷ []

-- with a resolved dispute
abbrev pub judged : List (Transaction × ℤ)
judged = opened ++ (raise_it, pos 3) ∷ (vote_it, pos 4) ∷ []

abbrev pub release_it : Transaction
release_it = tx_of (release_escrow 10 7) 1 3

abbrev pub transfer_it : Transaction
transfer_it = tx_of (transfer_rcw 2 40 "") 1 1

-- the escrow as it was created, and what became of it
abbrev pub fresh_escrow : Escrow
fresh_escrow = new_escrow 10 1 2 500 (pos 100) (pos 2)

abbrev pub disputed_escrow : Escrow
disputed_escrow = record fresh_escrow { state = disputed; dispute_id = some 20 }

abbrev pub released_escrow : Escrow
released_escrow = record fresh_escrow { state = released; evidence_hash = some 7 }

-- the dispute that the arbiter decided
abbrev pub judged_dispute : Dispute
judged_dispute =
    resolved_dispute
      (with_vote (new_dispute 20 10 1 DisputeReason.damaged 7 (pos 3)) 31
        DisputeDecision.favor_buyer (pos 4))
      (pos 4)

abbrev pub anchor_record : AnchorRecord
anchor_record = record {
  batch_id = 77;
  merkle_root = 5;
  entry_count = 3;
  from_entry_id = 1;
  to_entry_id = 3;
  anchored_at = pos 1;
}

abbrev pub vote_of : Id32 → ℕ → DisputeVote
vote_of voter code = record { voter = voter; decision = code; voted_at = pos 0 }

-- a participant with 120 transactions, 110 of them successful
abbrev pub veteran : ℕ → ℕ → Participant
veteran rating_sum rating_count = record (new_participant 1 ParticipantType.seller "" (pos 0)) {
  total_tx = 120;
  success_tx = 110;
  rating_sum = rating_sum;
  rating_count = rating_count;
}

-- a store in which the buyer holds 30 earned and 50 purchased tokens
abbrev pub funded_store : Store
funded_store = record empty {
  balances = λ j. some (record { owner = 1; earned = 30; purchased = 50 });
}

-- every participant is registered, and the escrow is open
abbrev pub registered_store : Store
registered_store = record empty {
  participants = λ j. some (new_participant j ParticipantType.buyer "" (pos 0));
  escrows = λ j. some fresh_escrow;
}

-- concrete stand-ins for the external crates: every signature is valid but the sender 0's, a hash
-- is the sum of the bytes, and the database iterates over nothing
abbrev pub sum : Bytes → ℕ
sum [] = 3
sum (b ∷ bytes) = b + sum bytes

abbrev pub ext : External
ext = record {
  encode_payload = λ p. some (1 ∷ []);
  encode_header = λ h. h.height ∷ h.prev_hash ∷ [];
  encode_transactions = λ txs. [];
  verifying_key = λ k. some k;
  verifies = λ key bytes sig. sig.bytes == 0;
  public_key = λ secret. secret % 10;
  sign = λ bytes secret. default_signature;
  hash = sum;
  iterate = λ prefix s. [];
}

abbrev pub header_of : ℕ → Hash → BlockHeader
header_of height root = record {
  height = height;
  prev_hash = empty_hash;
  timestamp = pos 6;
  tx_count = 1;
  tx_hash = empty_hash;
  state_root = root;
  proposer = 1;
}

abbrev pub block_of : ℕ → Hash → Block
block_of height root = record {
  header = header_of height root;
  transactions = register_buyer ∷ register_seller ∷ [];
  signatures = [];
}
