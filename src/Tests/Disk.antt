-- ===== src/Tests/Disk.antt =====
-- A database in memory, the store on it, and what the RPC server reads from it.
use routinechain.Base.{ℕ, String, ◌≡◌, refl, arith, none, some, List, [], ◌∷◌, pos, All}
use routinechain.Types.Block.{genesis}
use routinechain.Types.Transaction.{ParticipantType}
use routinechain.Types.State.{Participant, RcwBalance, SettlementRecord}
use routinechain.Machine.Participant.{new_participant}
use routinechain.External.{Bytes}
use routinechain.Store.Disk.{Io, done, failed, Database, Codec, Codecs, id_bytes}
use routinechain.Store.Disk
use routinechain.Store.Disk.Contents.{Contents, written, written_all, Reliable}
use routinechain.Store.Disk.Writes.{
  Write, block_write, participant_write, balance_write, nonce_write, disk_writes, Fits, IsLossless,
}
use routinechain.Store.Disk.Refines.{writes_read_back}
use routinechain.Store.Disk.Batch.{StoreBatch, new_batch, commit_batch}
use routinechain.Store.Disk.Batch.Commit.{batch_writes, commit_as_writes}
use routinechain.Rpc
use routinechain.Rpc.{Floats, Reply, answered, status, not_found, trust_score_response}
use routinechain.Rpc.Lookups.{lookups_answer, balance_reply}
use routinechain.Tests.World.{fresh_escrow, judged_dispute, anchor_record}

abbrev memory : Database
memory = record {
  Db = Contents;
  get = λ m key. done (m key);
  put = λ m key value. done (written key value m);
  write = λ m puts. done (written_all puts m);
}

abbrev memory_is_reliable : Reliable memory
memory_is_reliable = record {
  contents = λ m. m;
  get_contents = λ m key. refl;
  put_contents = λ m key value. (written key value m, refl, refl);
  write_contents = λ m puts. (written_all puts m, refl, refl);
}

-- an encoding of a single value
abbrev only : {A : Type 0} → A → Codec A
only a = record { serialize = λ _. done (1 ∷ []); deserialize = λ _. done a }

abbrev seller : Participant
seller = new_participant 1 ParticipantType.seller "s" (pos 3)

abbrev tokens : RcwBalance
tokens = record { owner = 1; earned = 30; purchased = 50 }

abbrev settlement : SettlementRecord
settlement = record {
  record_id = 4;
  participant_id = 9;
  gross_amount = 100;
  platform_fee = 3;
  net_amount = 97;
  currency = 1;
  settled_at = pos 3;
  recorded_at = pos 4;
}

abbrev pub codecs : Codecs
codecs = record {
  block = only (genesis (pos 0) 1);
  participant = only seller;
  settlement = only settlement;
  balance = only tokens;
  escrow = only fresh_escrow;
  dispute = only judged_dispute;
  anchor = only anchor_record;
}

-- a participant with a nonce
abbrev known : List Write
known = participant_write 1 seller ∷ balance_write 1 tokens ∷ nonce_write 1 7 ∷ []

abbrev started : List Write
started = block_write (genesis (pos 0) 1) ∷ known

-- their encodings are read back, and their keys fit
abbrev known_lossless : All (IsLossless codecs) known
known_lossless = (((1 ∷ []), refl, refl), (((1 ∷ []), refl, refl), (tt, tt)))

abbrev started_lossless : All (IsLossless codecs) started
started_lossless = (((1 ∷ []), refl, refl), known_lossless)

abbrev started_fits : All Fits started
started_fits = (omega arith, (omega arith, (omega arith, ((omega arith, omega arith), tt))))

writes_read_back_example :
    (db' : Contents) × (disk_writes memory codecs started (λ _. none) ≡ done db')
    × (Disk.get_participant memory codecs 1 db' ≡ done (some seller))
    × (Disk.get_settlement memory codecs 1 db' ≡ done none)
    × (Disk.get_balance memory codecs 1 db' ≡ done tokens)
    × (Disk.get_escrow memory codecs 1 db' ≡ done none)
    × (Disk.get_dispute memory codecs 1 db' ≡ done none)
    × (Disk.get_anchor memory codecs 1 db' ≡ done none)
    × (Disk.get_nonce memory codecs 1 db' ≡ 7)
    × (Disk.get_block memory codecs 0 db' ≡ done (some (genesis (pos 0) 1)))
    × (Disk.get_latest_height memory codecs db' ≡ 0)
writes_read_back_example =
    writes_read_back memory codecs memory_is_reliable (λ _. none) started 1 0 refl started_lossless
      started_fits (omega arith) (omega arith)

commit_as_writes_example :
    (b : StoreBatch) × (db' : Contents) × (db'' : Contents) × (batch_writes codecs known
        (tt, (tt, (tt, tt)))
        new_batch
      ≡ done b)
    × (commit_batch memory b (λ _. none) ≡ done db')
    × (disk_writes memory codecs known (λ _. none) ≡ done db'')
    × (db' ≡ db'')
commit_as_writes_example =
    commit_as_writes memory codecs memory_is_reliable known (tt, (tt, (tt, tt))) (λ _. none)
      known_lossless

-- numbers in the place of floats, and a hex decoder that knows one id
abbrev pub numbers : Floats
numbers = record { Float = ℕ; of_nat = λ n. n; div = λ a b. a; mul = λ a b. a }

abbrev pub hex_of_one : String → Io Bytes
hex_of_one _ = done (id_bytes 1)

lookups_answer_example :
    (db' : Contents) × (disk_writes memory codecs started (λ _. none) ≡ done db')
    × (Rpc.get_participant memory codecs hex_of_one "01" db' ≡ answered "ok" seller)
    × (Rpc.get_trust_score memory codecs hex_of_one numbers "01" db'
        ≡ answered "ok" (trust_score_response numbers "01" seller))
    × (Rpc.get_settlement memory codecs hex_of_one "01" db' ≡ status not_found)
    × (Rpc.get_escrow memory codecs hex_of_one "01" db' ≡ status not_found)
    × (Rpc.get_dispute memory codecs hex_of_one "01" db' ≡ status not_found)
    × (Rpc.get_anchor memory codecs hex_of_one "01" db' ≡ status not_found)
    × (Rpc.get_balance memory codecs hex_of_one "01" db' ≡ balance_reply "01" tokens)
    × (Rpc.get_block memory codecs 0 db' ≡ answered "ok" (genesis (pos 0) 1))
lookups_answer_example =
    lookups_answer memory codecs memory_is_reliable hex_of_one numbers (λ _. none) started "01" 1 0
      refl started_lossless started_fits refl (omega arith) (omega arith)
