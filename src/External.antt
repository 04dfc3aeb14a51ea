-- ===== src/External.antt =====
-- What the chain takes from outside: bincode's encodings, ed25519 and blake3 as
-- crates/rc-crypto/src/lib.rs wraps them, and RocksDB's iterator. A byte string is the list of its
-- bytes.
use routinechain.Base.{ℕ, Bool, false, Option, none, some, List}
use mathlib.Core.List.{flatten}
use routinechain.Types.Bytes.{Id32, Hash, Signature}
use routinechain.Types.Transaction.{TxPayload, Transaction}
use routinechain.Types.Block.{BlockHeader}
use routinechain.Store.{Store}

abbrev pub Bytes : Type 0
Bytes = List ℕ

-- The operations of the external crates.
pub record External : Type 0 where
  -- `bincode::serialize`, which may fail on a payload
  pub encode_payload : TxPayload → Option Bytes
  -- `bincode::serialize(..).expect(..)`
  pub encode_header : BlockHeader → Bytes
  pub encode_transactions : List Transaction → Bytes
  -- `VerifyingKey::from_bytes`
  pub verifying_key : Id32 → Option ℕ
  -- `VerifyingKey::verify`
  pub verifies : ℕ → Bytes → Signature → Bool
  -- `SigningKey::from_bytes(..).verifying_key().to_bytes()`
  pub public_key : ℕ → Id32
  -- `SigningKey::from_bytes(..).sign(..)`
  pub sign : Bytes → ℕ → Signature
  -- `blake3::hash`; a `Hasher` that is updated with chunks hashes the bytes of all of them
  pub hash : Bytes → Hash
  -- `db.iterator(IteratorMode::From(prefix, Forward)).flatten()`: the entries of the database from
  -- the prefix on, in the order of their keys
  pub iterate : Bytes → Store → List (Bytes × Bytes)

module _ (ext : External) where
  -- `rc_crypto::verify`
  unfoldable pub verify : Bytes → Signature → Id32 → Bool
  verify bytes signature public_key = elim (ext.verifying_key public_key) [
    | none ↦ false
    | some key ↦ ext.verifies key bytes signature
  ]

  -- `rc_crypto::hash_concat`
  unfoldable pub hash_concat : List Bytes → Hash
  hash_concat chunks = ext.hash (flatten chunks)

  -- `rc_crypto::generate_keypair`; the secret bytes that `SigningKey::generate` draws are an argument
  unfoldable pub generate_keypair : ℕ → Id32 × ℕ
  generate_keypair secret = (ext.public_key secret, secret)
