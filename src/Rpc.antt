-- ===== src/Rpc.antt =====
-- The HTTP handlers of crates/rc-rpc/src/lib.rs, over the database that the node writes. Routing,
-- JSON and CORS are axum's; the decoding of hex and the floats are parameters.
pub mod Lookups
pub mod Submit
pub mod Failures
pub mod Included
use routinechain.Base.{
  ℕ, ℤ, String, Bool, true, false, Option, none, some, List, [], ◌∷◌, ◌==◌, ltb, if◌then◌else◌,
  length, from_be_bytes,
}
use routinechain.Types.Bytes.{Id32, Signature}
use routinechain.Types.Transaction.{TxPayload, Transaction}
use routinechain.Types.State.{
  Participant, RcwBalance, total, Escrow, Dispute, SettlementRecord, AnchorRecord,
}
use routinechain.Types.Score.{compute_trust_score}
use routinechain.Types.Block.{Block}
use routinechain.External.{Bytes, External, verify}
use routinechain.Store.Disk
use routinechain.Store.Disk.{Io, done, failed, ◌>>=◌, Database, Codecs}

-- `ApiResponse`; its field `data` is `value` here
pub record ApiResponse (T : Type 0) : Type 0 where
  pub result : Bool
  pub message : String
  pub value : Option T

-- the codes of axum's `StatusCode` that the handlers return
pub data StatusCode : Type 0 where
  bad_request : StatusCode
  unauthorized : StatusCode
  not_found : StatusCode
  internal_server_error : StatusCode

-- `Result<Json<ApiResponse<T>>, StatusCode>`
pub data Reply (T : Type 0) : Type 0 where
  json : ApiResponse T → Reply T
  status : StatusCode → Reply T

pub record BalanceResponse : Type 0 where
  pub owner : String
  pub earned : ℕ
  pub purchased : ℕ
  pub total : ℕ

pub record StatusResponse : Type 0 where
  pub chain : String
  pub latest_height : ℕ
  pub version : String

pub record SubmitTxRequest : Type 0 where
  pub payload : TxPayload
  pub sender : String
  pub signature : String
  pub nonce : ℕ

-- f64: the conversion from u64 or u16, and the two operations that the handlers use. `0.0` and
-- `100.0` are conversions of 0 and 100.
pub record Floats : Type 1 where
  pub Float : Type 0
  pub of_nat : ℕ → Float
  pub div : Float → Float → Float
  pub mul : Float → Float → Float

pub record TrustScoreResponse (F : Floats) : Type 0 where
  pub participant_id : String
  pub score : F.Float
  pub total_tx : ℕ
  pub success_tx : ℕ
  pub success_rate : F.Float
  pub dispute_count : ℕ
  pub dispute_rate : F.Float
  pub avg_rating : F.Float
  pub total_volume : ℕ
  pub registered_at : ℤ
  pub last_activity_at : ℤ

-- `CARGO_PKG_VERSION`
abbrev pub pkg_version : String
pkg_version = "0.1.0"

-- the response of success
abbrev pub answered : {T : Type 0} → String → T → Reply T
answered message value = json (record { result = true; message = message; value = some value })

-- `match .. { Ok(Some(x)) => Ok(..), _ => Err(NOT_FOUND) }`
unfoldable pub reply_found : {T : Type 0} → Io (Option T) → Reply T
reply_found (done (some x)) = answered "ok" x
reply_found (done none) = status not_found
reply_found (failed _) = status not_found

-- `hex_to_id`; `hex::decode` is a parameter of all that reads an id
unfoldable pub hex_to_id : (String → Io Bytes) → String → Io Id32
hex_to_id hex_decode hex = do
  bytes ← hex_decode hex
  if length bytes == 32 then done (from_be_bytes 0 bytes) else failed "ID must be 32 bytes"

-- `hex_to_id(..).map_err(|_| BAD_REQUEST)?`
unfoldable pub with_id : {T : Type 0} → (String → Io Bytes) → String → (Id32 → Reply T) → Reply T
with_id hex_decode hex k = elim (hex_to_id hex_decode hex) [
  | failed _ ↦ status bad_request
  | done id ↦ k id
]

-- the signature from its 64 bytes in hex
unfoldable pub hex_to_signature : (String → Io Bytes) → String → Option Signature
hex_to_signature hex_decode hex = elim (hex_decode hex) [
  | failed _ ↦ none
  | done bytes ↦
      if length bytes == 64 then some (record { bytes = from_be_bytes 0 bytes }) else none
]

-- `amount as f64 / whole as f64 * 100.0`, and 0.0 of nothing
unfoldable pub rate : (F : Floats) → (amount whole : ℕ) → F.Float
rate F amount whole =
    if ltb 0 whole
    then F.mul (F.div (F.of_nat amount) (F.of_nat whole)) (F.of_nat 100)
    else F.of_nat 0

-- the response on a participant
unfoldable pub trust_score_response : (F : Floats) → String → Participant → TrustScoreResponse F
trust_score_response F id p = record {
  participant_id = id;
  score = F.div (F.of_nat (compute_trust_score p)) (F.of_nat 100);
  total_tx = p.total_tx;
  success_tx = p.success_tx;
  success_rate = rate F p.success_tx p.total_tx;
  dispute_count = p.dispute_count;
  dispute_rate = rate F p.dispute_count p.total_tx;
  avg_rating =
      if ltb 0 p.rating_count
      then F.div (F.div (F.of_nat p.rating_sum) (F.of_nat p.rating_count)) (F.of_nat 100)
      else F.of_nat 0;
  total_volume = p.total_volume;
  registered_at = p.registered_at;
  last_activity_at = p.last_activity_at;
}

-- what `get_trust_score` makes of the read
unfoldable pub trust_reply :
    (F : Floats) → String → Io (Option Participant) → Reply (TrustScoreResponse F)
trust_reply F hex (failed _) = status internal_server_error
trust_reply F hex (done none) = status not_found
trust_reply F hex (done (some p)) = answered "ok" (trust_score_response F hex p)

module _ (D : Database) (codecs : Codecs) where
  unfoldable pub get_status : D.Db → ApiResponse StatusResponse
  get_status db = record {
    result = true;
    message = "ok";
    value = some (record {
      chain = "routinechain";
      latest_height = Disk.get_latest_height D codecs db;
      version = pkg_version;
    });
  }

  unfoldable pub get_block : ℕ → D.Db → Reply Block
  get_block height db = reply_found (Disk.get_block D codecs height db)

  module _ (hex_decode : String → Io Bytes) where
    unfoldable pub get_participant : String → D.Db → Reply Participant
    get_participant hex db =
        with_id hex_decode hex (λ id. reply_found (Disk.get_participant D codecs id db))

    unfoldable pub get_trust_score : (F : Floats) → String → D.Db → Reply (TrustScoreResponse F)
    get_trust_score F hex db =
        with_id hex_decode hex (λ id. trust_reply F hex (Disk.get_participant D codecs id db))

    unfoldable pub get_settlement : String → D.Db → Reply SettlementRecord
    get_settlement hex db =
        with_id hex_decode hex (λ id. reply_found (Disk.get_settlement D codecs id db))

    unfoldable pub get_escrow : String → D.Db → Reply Escrow
    get_escrow hex db = with_id hex_decode hex (λ id. reply_found (Disk.get_escrow D codecs id db))

    unfoldable pub get_dispute : String → D.Db → Reply Dispute
    get_dispute hex db =
        with_id hex_decode hex (λ id. reply_found (Disk.get_dispute D codecs id db))

    unfoldable pub get_anchor : String → D.Db → Reply AnchorRecord
    get_anchor hex db = with_id hex_decode hex (λ id. reply_found (Disk.get_anchor D codecs id db))

    unfoldable pub get_balance : String → D.Db → Reply BalanceResponse
    get_balance hex db = with_id hex_decode hex (λ id. elim (Disk.get_balance D codecs id db) [
      | failed _ ↦ status internal_server_error
      | done bal ↦ answered "ok" (record {
        owner = hex;
        earned = bal.earned;
        purchased = bal.purchased;
        total = total bal;
      })
    ])

module _ (ext : External) (hex_decode : String → Io Bytes) where
  -- `submit_tx`: the reply, and what is sent to the node's channel, whose receiver may be gone
  unfoldable pub submit_tx : SubmitTxRequest → ℤ → Bool → Reply String × List Transaction
  submit_tx req now receiver_alive = elim (hex_to_id hex_decode req.sender) [
    | failed _ ↦ (status bad_request, [])
    | done sender ↦ elim (hex_to_signature hex_decode req.signature) [
      | none ↦ (status bad_request, [])
      | some signature ↦ elim (ext.encode_payload req.payload) [
        | none ↦ (status bad_request, [])
        | some payload_bytes ↦
            if verify ext payload_bytes signature sender
            then (if receiver_alive
                then (
                  answered "Transaction submitted" "accepted",
                  record {
                    payload = req.payload;
                    sender = sender;
                    signature = signature;
                    timestamp = now;
                    nonce = req.nonce;
                  }
                      ∷ [],
                )
                else (status internal_server_error, []))
            else (status unauthorized, [])
      ]
    ]
  ]
