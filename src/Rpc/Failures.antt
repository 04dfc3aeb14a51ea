-- ===== src/Rpc/Failures.antt =====
-- What the GET handlers of crates/rc-rpc/src/lib.rs answer when the database fails.
use routinechain.Base.{ℕ, ◌≡◌, refl, ap, String, true, some}
use routinechain.External.{Bytes}
use routinechain.Types.Bytes.{Id32}
use routinechain.Store.Disk
use routinechain.Store.Disk.{Io, done, failed, Database, Codec, Codecs, get_state}
use routinechain.Rpc.{
  Reply, StatusCode, status, not_found, bad_request, internal_server_error, Floats, reply_found,
  trust_reply, hex_to_id, with_id, ApiResponse, StatusResponse, pkg_version,
}
use routinechain.Rpc

-- the refusal of a lookup: 400 of what is no id, and otherwise the code
abbrev pub refusal : {T : Type 0} → (String → Io Bytes) → String → StatusCode → Reply T
refusal hex_decode hex code = elim (hex_to_id hex_decode hex) [
  | failed _ ↦ status bad_request
  | done _ ↦ status code
]

-- the response of `get_status` at a height
abbrev pub status_at : ℕ → ApiResponse StatusResponse
status_at height = record {
  result = true;
  message = "ok";
  value = some (record { chain = "routinechain"; latest_height = height; version = pkg_version });
}

refused :
    {T : Type 0} (r : Io Id32) (code : StatusCode) (k : Id32 → Reply T)
    → ((id : Id32) → k id ≡ status code)
    → elim r [ failed _ ↦ status bad_request | done id ↦ k id ]
      ≡ elim r [ failed _ ↦ status bad_request | done _ ↦ status code ]
refused (failed _) code k h = refl
refused (done id) code k h = h id

module _ (D : Database) (codecs : Codecs) (db : D.Db) (e : String)
    (fails : (key : Bytes) → D.get db key ≡ failed e) where
  get_state-failed :
      {A : Type 0} (c : Codec A) (prefix key : Bytes)
      → get_state D codecs c prefix key db ≡ failed e
  unfolding get_state
  get_state-failed c prefix key = rw (get_state, fails) refl

  not_found-failed :
      {A : Type 0} (c : Codec A) (prefix key : Bytes)
      → reply_found (get_state D codecs c prefix key db) ≡ status not_found
  unfolding reply_found
  not_found-failed c prefix key = ap reply_found (get_state-failed c prefix key)

-- A database that fails every read, and the answers for any id: 400 where the text is no id; for the
-- participant, the settlement, the escrow, the dispute and the anchor otherwise 404, as if there were
-- none; for the trust score and the balance 500. Every block is answered with 404, and the status
-- tells height 0.
pub failures_answered :
    (D : Database) (codecs : Codecs) (hex_decode : String → Io Bytes) (F : Floats) (db : D.Db)
    (e hex : String) (height : ℕ)
    → ((key : Bytes) → D.get db key ≡ failed e)
    → (Rpc.get_participant D codecs hex_decode hex db ≡ refusal hex_decode hex not_found)
      × (Rpc.get_settlement D codecs hex_decode hex db ≡ refusal hex_decode hex not_found)
      × (Rpc.get_escrow D codecs hex_decode hex db ≡ refusal hex_decode hex not_found)
      × (Rpc.get_dispute D codecs hex_decode hex db ≡ refusal hex_decode hex not_found)
      × (Rpc.get_anchor D codecs hex_decode hex db ≡ refusal hex_decode hex not_found)
      × (Rpc.get_trust_score D codecs hex_decode F hex db
          ≡ refusal hex_decode hex internal_server_error)
      × (Rpc.get_balance D codecs hex_decode hex db ≡ refusal hex_decode hex internal_server_error)
      × (Rpc.get_block D codecs height db ≡ status not_found)
      × (Rpc.get_status D codecs db ≡ status_at 0)
unfolding Rpc.get_participant Rpc.get_trust_score Rpc.get_settlement Rpc.get_escrow Rpc.get_dispute
    Rpc.get_anchor Rpc.get_balance Rpc.get_block Rpc.get_status with_id Disk.get_participant
    Disk.get_settlement Disk.get_escrow Disk.get_dispute Disk.get_anchor Disk.get_balance
    Disk.get_block Disk.get_latest_height trust_reply reply_found Disk.decoded_u64
failures_answered D codecs hex_decode F db e hex height fails =
    let r = hex_to_id hex_decode hex in
    (
      refused r not_found _ (λ id. not_found-failed D codecs db e fails _ _ _),
      refused r not_found _ (λ id. not_found-failed D codecs db e fails _ _ _),
      refused r not_found _ (λ id. not_found-failed D codecs db e fails _ _ _),
      refused r not_found _ (λ id. not_found-failed D codecs db e fails _ _ _),
      refused r not_found _ (λ id. not_found-failed D codecs db e fails _ _ _),
      refused r internal_server_error _
          (λ id. ap (trust_reply F hex) (get_state-failed D codecs db e fails _ _ _)),
      refused r internal_server_error _
          (λ id. rw (get_state-failed D codecs db e fails _ _ _) refl),
      rw (fails _) refl,
      rw (fails _) refl,
    )
