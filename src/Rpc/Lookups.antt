-- ===== src/Rpc/Lookups.antt =====
-- What the GET handlers of crates/rc-rpc/src/lib.rs answer about the chain.
use routinechain.Base.{
  ℕ, ◌^◌, ◌<◌, ◌≡◌, refl, ap, ◌∙◌, String, Option, none, some, List, All, from_be_bytes-to_be_bytes,
  length-to_be_bytes,
}
use routinechain.Types.Bytes.{Id32}
use routinechain.Types.State.{RcwBalance, total, Participant}
use routinechain.External.{Bytes}
use routinechain.Store
use routinechain.Store.{Store, empty}
use routinechain.Store.Disk.{Io, done, Database, Codecs, id_bytes}
use routinechain.Store.Disk.Contents.{Reliable}
use routinechain.Store.Disk.Writes.{Write, Fits, IsLossless, disk_writes, store_writes}
use routinechain.Store.Disk.Refines.{writes_read_back}
use routinechain.Rpc.{
  Reply, StatusCode, answered, status, not_found, bad_request, BalanceResponse, Floats,
  TrustScoreResponse, trust_score_response, trust_reply, reply_found, hex_to_id, with_id,
}
use routinechain.Rpc

-- what is answered on a record that the chain has or has not
abbrev pub lookup_reply : {A T : Type 0} → (A → T) → Option A → Reply T
lookup_reply f none = status not_found
lookup_reply f (some a) = answered "ok" (f a)

reply_found-done :
    {T : Type 0} (r : Io (Option T)) (o : Option T)
    → r ≡ done o
    → reply_found r ≡ lookup_reply (λ a. a) o
unfolding reply_found
reply_found-done r none e = ap reply_found e
reply_found-done r (some a) e = ap reply_found e

trust_reply-done :
    (F : Floats) (hex : String) (r : Io (Option Participant)) (o : Option Participant)
    → r ≡ done o
    → trust_reply F hex r ≡ lookup_reply (trust_score_response F hex) o
unfolding trust_reply
trust_reply-done F hex r none e = ap (trust_reply F hex) e
trust_reply-done F hex r (some p) e = ap (trust_reply F hex) e

hex_to_id-id_bytes :
    (hex_decode : String → Io Bytes) (hex : String) (id : Id32)
    → hex_decode hex ≡ done (id_bytes id)
    → id < 256 ^ 32
    → hex_to_id hex_decode hex ≡ done id
unfolding hex_to_id
hex_to_id-id_bytes hex_decode hex id spelled fits =
    rw (hex_to_id, spelled, length-to_be_bytes 32 id, from_be_bytes-to_be_bytes 32 id fits) refl

with_id-done :
    {T : Type 0} (hex_decode : String → Io Bytes) (hex : String) (id : Id32) (k : Id32 → Reply T)
    → hex_to_id hex_decode hex ≡ done id
    → with_id hex_decode hex k ≡ k id
unfolding with_id
with_id-done hex_decode hex id k e = rw (with_id, e) refl

-- what is answered on tokens
abbrev pub balance_reply : String → RcwBalance → Reply BalanceResponse
balance_reply hex bal =
    answered "ok"
      (record { owner = hex; earned = bal.earned; purchased = bal.purchased; total = total bal })

-- In a database that does not fail, that began empty, and whose encodings are read back, after any
-- writes, the lookups answer by what the columns hold after the same writes, for an id that is given
-- by its 32 bytes in hex, and any height: the participant, the settlement, the escrow, the dispute,
-- the anchor and the block, and for the trust score the response on the participant, each with 404
-- if there is none; for the balance the record of the owner, and 0 tokens if there is none.
pub lookups_answer :
    (D : Database) (codecs : Codecs) (reliable : Reliable D) (hex_decode : String → Io Bytes)
    (F : Floats) (db : D.Db) (ws : List Write) (hex : String) (id height : ℕ)
    → reliable.contents db ≡ (λ _. none)
    → All (IsLossless codecs) ws
    → All Fits ws
    → hex_decode hex ≡ done (id_bytes id)
    → id < 256 ^ 32
    → height < 256 ^ 8
    → let s = store_writes ws empty in
      (db' : D.Db) × (disk_writes D codecs ws db ≡ done db')
      × (Rpc.get_participant D codecs hex_decode hex db'
          ≡ lookup_reply (λ p. p) (Store.get_participant id s))
      × (Rpc.get_trust_score D codecs hex_decode F hex db'
          ≡ lookup_reply (trust_score_response F hex) (Store.get_participant id s))
      × (Rpc.get_settlement D codecs hex_decode hex db'
          ≡ lookup_reply (λ r. r) (Store.get_settlement id s))
      × (Rpc.get_escrow D codecs hex_decode hex db' ≡ lookup_reply (λ e. e) (Store.get_escrow id s))
      × (Rpc.get_dispute D codecs hex_decode hex db'
          ≡ lookup_reply (λ d. d) (Store.get_dispute id s))
      × (Rpc.get_anchor D codecs hex_decode hex db' ≡ lookup_reply (λ a. a) (Store.get_anchor id s))
      × (Rpc.get_balance D codecs hex_decode hex db' ≡ balance_reply hex (Store.get_balance id s))
      × (Rpc.get_block D codecs height db' ≡ lookup_reply (λ b. b) (Store.get_block height s))
unfolding Rpc.get_participant Rpc.get_trust_score Rpc.get_settlement Rpc.get_escrow Rpc.get_dispute
    Rpc.get_anchor Rpc.get_balance Rpc.get_block
lookups_answer D codecs reliable hex_decode F db ws hex id height fresh l fits spelled hid hh =
    let (db', ok, p, s, bal, e, d, a, n, b, latest) =
      writes_read_back D codecs reliable db ws id height fresh l fits hid hh in
    let named = hex_to_id-id_bytes hex_decode hex id spelled hid in
    (
      db',
      ok,
      with_id-done hex_decode hex id _ named ∙ reply_found-done _ _ p,
      with_id-done hex_decode hex id _ named ∙ trust_reply-done F hex _ _ p,
      with_id-done hex_decode hex id _ named ∙ reply_found-done _ _ s,
      with_id-done hex_decode hex id _ named ∙ reply_found-done _ _ e,
      with_id-done hex_decode hex id _ named ∙ reply_found-done _ _ d,
      with_id-done hex_decode hex id _ named ∙ reply_found-done _ _ a,
      with_id-done hex_decode hex id _ named ∙ rw bal refl,
      reply_found-done _ _ b,
    )
