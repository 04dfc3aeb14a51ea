-- ===== src/Tests/Messages.antt =====
-- Messages between nodes, and requests to the RPC server.
use routinechain.Base.{
  ℕ, String, ◌≡◌, refl, arith, true, false, some, List, [], ◌∷◌, pos, to_be_bytes, ◌==◌,
  if◌then◌else◌, zero, suc, none, Option,
}
use Prim.Native.Nat.{Ordering}
use Prim.Native.String.{compare}
use routinechain.Types.Bytes.{default_signature}
use routinechain.Types.Transaction.{Transaction, transfer_rcw}
use routinechain.External.{Bytes}
use routinechain.Store.{empty, set_nonce}
use routinechain.Store.Disk.{Io, done, Codec, id_bytes}
use routinechain.Machine.Apply.{verify_tx_signature}
use routinechain.Machine.Execute.{execute, dispatch}
use routinechain.Consensus.{ConsensusMessage, view_change}
use routinechain.Types.Transaction.{register_participant, ParticipantType}
use routinechain.Types.Block.{Block, genesis}
use routinechain.Types.Config.{default_node_config}
use routinechain.Store.{Store, put_block, get_latest_height}
use routinechain.Consensus.{Consensus, new_consensus}
use routinechain.Node.Loop.{Clock, tick}
use routinechain.Node.Loop.Solo.{idle_node, quiet_round}
use routinechain.Rpc.Included.{submitted_in_block}
use routinechain.Rpc
use routinechain.Rpc.{SubmitTxRequest, answered, hex_to_id, hex_to_signature}
use routinechain.Rpc.Submit.{requested, replay_accepted}
use routinechain.Tests.World.{cfg, ext}

abbrev pub vote : ConsensusMessage
vote = view_change 4 1 3

-- an encoding that knows one message
abbrev pub of_vote : Codec ConsensusMessage
of_vote = record { serialize = λ _. done (8 ∷ 4 ∷ []); deserialize = λ _. done vote }

abbrev pub take_exact : ℕ → Bytes → Option (Bytes × Bytes)
take_exact zero stream = some ([], stream)
take_exact (suc n) [] = none
take_exact (suc n) (b ∷ stream) = elim (take_exact n stream) [
  | none ↦ none
  | some (bytes, rest) ↦ some (b ∷ bytes, rest)
]

-- a request in hex: the sender's key and a signature
abbrev transfer_request : SubmitTxRequest
transfer_request = record {
  payload = transfer_rcw 2 40 "";
  sender = "01";
  signature = "00";
  nonce = 1;
}

abbrev hex_decode : String → Io Bytes
hex_decode hex = elim (compare hex "01") [
  | Ordering.eq ↦ done (id_bytes 1)
  | _ ↦ done (to_be_bytes 64 0)
]

abbrev sent_tx : Transaction
sent_tx = requested transfer_request 1 default_signature (pos 7)

abbrev again : Transaction
again = record sent_tx { nonce = 5; timestamp = pos 9 }

replay_accepted_example :
    (Rpc.submit_tx ext hex_decode (record transfer_request { nonce = 5 }) (pos 9) true
      ≡ (answered "Transaction submitted" "accepted", again ∷ []))
    × (execute cfg again (pos 9) empty
        ≡ dispatch cfg 1 (transfer_rcw 2 40 "") (pos 9) (set_nonce 1 5 empty))
unfolding Rpc.submit_tx hex_to_id to_be_bytes hex_to_signature routinechain.External.verify
    routinechain.Base.from_be_bytes
replay_accepted_example =
    replay_accepted ext cfg hex_decode transfer_request (pos 7) (pos 9) sent_tx 5 empty refl
      (omega arith)

-- a request to register, and the node that gets it
abbrev register_request : SubmitTxRequest
register_request = record transfer_request {
  payload = register_participant 1 ParticipantType.buyer "b";
}

abbrev registration : Transaction
registration = requested register_request 1 default_signature (pos 7)

abbrev at_eight : Clock
at_eight = record {
  finalized = pos 8;
  aged = pos 8;
  elapsed = pos 8;
  changed = pos 8;
  executed = pos 8;
  stored = pos 8;
}

abbrev started : Store
started = put_block (genesis (pos 0) 1) empty

abbrev lone : Consensus
lone = new_consensus 1 11 [] 1

submitted_in_block_example :
    let settings = default_node_config.consensus in
    let i = quiet_round ext cfg settings at_eight (registration ∷ []) [] in
    let n' =
      (tick ext cfg settings 0 i (idle_node ext cfg settings at_eight lone started (pos 0))).1 in
    (b : Block) × (verify_tx_signature ext registration ≡ true)
    × (n'.store.blocks 1 ≡ some b)
    × (get_latest_height n'.store ≡ 1)
    × (b.transactions ≡ registration ∷ [])
    × (n'.consensus.pending_txs ≡ [])
    × (n'.pending_block ≡ none)
unfolding Rpc.submit_tx hex_to_id to_be_bytes hex_to_signature routinechain.External.verify
    routinechain.Base.from_be_bytes execute dispatch
    routinechain.Machine.Execute.check_and_update_nonce routinechain.Machine.Participant.register
submitted_in_block_example =
    submitted_in_block ext hex_decode register_request (pos 7) registration cfg
      default_node_config.consensus at_eight lone started (pos 0) (genesis (pos 0) 1) refl refl refl
      refl (omega arith) refl
