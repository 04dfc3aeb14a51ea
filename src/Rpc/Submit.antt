-- ===== src/Rpc/Submit.antt =====
-- What `submit_tx` of crates/rc-rpc/src/lib.rs lets through.
use routinechain.Base.{
  ℕ, ℤ, ◌≡◌, ◌⊎◌, inl, inr, refl, ap, ◌∙◌, String, Bool, true, false, some, List, [], ◌∷◌,
  Bool-cases, Option-cases, arith, sym, ◌<◌,
}
use mathlib.Core.Bool.{true≢false}
use routinechain.Types.Bytes.{Id32, Signature}
use routinechain.Types.Transaction.{Transaction}
use routinechain.External.{Bytes, External, verify}
use routinechain.Machine.Apply.{verify_tx_signature}
use routinechain.Store.Disk.{Io, done, failed}
use routinechain.Machine.Execute.{Settings, execute, dispatch}
use routinechain.Machine.Execute.Nonce.{execute_accepted}
use routinechain.Store.{Store, get_nonce, set_nonce}
use routinechain.Rpc.{
  json, SubmitTxRequest, Reply, StatusCode, answered, status, bad_request, unauthorized,
  internal_server_error, hex_to_id, hex_to_signature, submit_tx,
}

-- the transaction that a request asks for
abbrev pub requested : SubmitTxRequest → Id32 → Signature → ℤ → Transaction
requested req sender signature now = record {
  payload = req.payload;
  sender = sender;
  signature = signature;
  timestamp = now;
  nonce = req.nonce;
}

Io-cases : {A : Type 0} (r : Io A) → ((a : A) × (r ≡ done a)) ⊎ ((e : String) × (r ≡ failed e))
Io-cases (done a) = inl (a, refl)
Io-cases (failed e) = inr (e, refl)

pub submitted_signed :
    (ext : External) (hex_decode : String → Io Bytes) (req : SubmitTxRequest) (now : ℤ)
    (alive : Bool)
    → ((sender : Id32) × (sig : Signature) × (submit_tx ext hex_decode req now alive
          ≡ (answered "Transaction submitted" "accepted", requested req sender sig now ∷ []))
        × (hex_to_id hex_decode req.sender ≡ done sender)
        × (hex_to_signature hex_decode req.signature ≡ some sig)
        × (verify_tx_signature ext (requested req sender sig now) ≡ true))
      ⊎ ((code : StatusCode) × (submit_tx ext hex_decode req now alive ≡ (status code, [])))
unfolding submit_tx verify_tx_signature
submitted_signed ext hex_decode req now alive = elim (Io-cases (hex_to_id hex_decode req.sender)) [
  | inr (e, bad) ↦ inr (bad_request, rw (submit_tx, bad) refl)
  | inl (sender, ok) ↦ elim (Option-cases (hex_to_signature hex_decode req.signature)) [
    | inl bad ↦ inr (bad_request, rw (submit_tx, ok, bad) refl)
    | inr (sig, read) ↦ elim (Option-cases (ext.encode_payload req.payload)) [
      | inl bad ↦ inr (bad_request, rw (submit_tx, ok, read, bad) refl)
      | inr (bytes, encoded) ↦ elim (Bool-cases (verify ext bytes sig sender)) [
        | inr invalid ↦ inr (unauthorized, rw (submit_tx, ok, read, encoded, invalid) refl)
        | inl valid ↦ elim (Bool-cases alive) [
          | inr gone ↦
              inr (internal_server_error, rw (submit_tx, ok, read, encoded, valid, gone) refl)
          | inl there ↦ inl (
            sender,
            sig,
            rw (submit_tx, ok, read, encoded, valid, there) refl,
            ok,
            read,
            rw (verify_tx_signature, encoded, valid) refl,
          )
        ]
      ]
    ]
  ]
]

accepted_when :
    (ext : External) (hex_decode : String → Io Bytes) (req : SubmitTxRequest) (now : ℤ)
    (sender : Id32) (sig : Signature)
    → hex_to_id hex_decode req.sender ≡ done sender
    → hex_to_signature hex_decode req.signature ≡ some sig
    → verify_tx_signature ext (requested req sender sig now) ≡ true
    → submit_tx ext hex_decode req now true
      ≡ (answered "Transaction submitted" "accepted", requested req sender sig now ∷ [])
unfolding submit_tx verify_tx_signature
accepted_when ext hex_decode req now sender sig ok read valid =
    elim (Option-cases (ext.encode_payload req.payload)) [
      | inl bad ↦ absurd (ground (arith, bad, valid))
      | inr (bytes, encoded) ↦ elim (Bool-cases (verify ext bytes sig sender)) [
        | inl good ↦ rw (submit_tx, ok, read, encoded, good) refl
        | inr bad ↦ absurd (ground (arith, encoded, bad, valid))
      ]
    ]

abbrev pub first_or : Transaction → List Transaction → Transaction
first_or tx [] = tx
first_or _ (tx ∷ _) = tx

abbrev pub is_json : {T : Type 0} → Reply T → Bool
is_json (json _) = true
is_json (status _) = false

-- Neither the nonce nor the time is signed: if a request is accepted and sends a transaction, the
-- same request with any other nonce, at any time, is accepted too, its signature unchanged, and a
-- state machine whose recorded nonce of the sender is below the new one executes it like the first.
pub replay_accepted :
    (ext : External) (cfg : Settings) (hex_decode : String → Io Bytes) (req : SubmitTxRequest)
    (now later : ℤ) (tx : Transaction) (nonce : ℕ) (s : Store)
    → submit_tx ext hex_decode req now true ≡ (answered "Transaction submitted" "accepted", tx ∷ [])
    → get_nonce tx.sender s < nonce
    → let again = record tx { nonce = nonce; timestamp = later } in
      (submit_tx ext hex_decode (record req { nonce = nonce }) later true
        ≡ (answered "Transaction submitted" "accepted", again ∷ []))
      × (execute cfg again later s
          ≡ dispatch cfg tx.sender tx.payload later (set_nonce tx.sender nonce s))
unfolding verify_tx_signature
replay_accepted ext cfg hex_decode req now later tx nonce s sent fresh =
    elim (submitted_signed ext hex_decode req now true) [
      | inr (code, refused) ↦ absurd (true≢false (ap (λ r. is_json r.0) (sym sent ∙ refused)))
      | inl (sender, sig, accepted, ok, read, valid) ↦
          let same : tx ≡ requested req sender sig now =
            ap (λ r. first_or tx r.1) (sym sent ∙ accepted) in
          (
            accepted_when ext hex_decode (record req { nonce = nonce }) later sender sig ok read
                  valid
                ∙ ap
                    (λ t. (
                      answered "Transaction submitted" "accepted",
                      record t { nonce = nonce; timestamp = later } ∷ [],
                    ))
                    (sym same),
            execute_accepted cfg (record tx { nonce = nonce; timestamp = later }) later s fresh,
          )
    ]
