-- ===== src/Types/Bytes.antt =====
-- crates/rc-types/src/lib.rs: the byte strings of fixed length.
use routinechain.Base.{
  ℕ, ◌<◌, ◌^◌, ◌≡◌, refl, Option, none, some, List, ◌==◌, if◌then◌else◌, length, to_be_bytes,
  from_be_bytes, length-to_be_bytes, from_be_bytes-to_be_bytes,
}

-- `Id`, `[u8; 32]`, by its value as a big-endian number
abbrev pub Id32 : Type 0
Id32 = ℕ

abbrev pub Hash : Type 0
Hash = ℕ

abbrev pub empty_hash : Hash
empty_hash = 0

-- `[u8; 64]`, by its value as a big-endian number
pub record Signature : Type 0 where
  pub bytes : ℕ

abbrev pub default_signature : Signature
default_signature = record { bytes = 0 }

-- serde for `Signature`: the 64 bytes, and an error on any other number of bytes
unfoldable pub serialize : Signature → List ℕ
serialize sig = to_be_bytes 64 sig.bytes

unfoldable pub deserialize : List ℕ → Option Signature
deserialize bytes =
    if length bytes == 64 then some (record { bytes = from_be_bytes 0 bytes }) else none

-- A signature is read back from what is written of it.
pub deserialize-serialize :
    (sig : Signature) → sig.bytes < 256 ^ 64 → deserialize (serialize sig) ≡ some sig
unfolding deserialize serialize
deserialize-serialize sig fits =
    rw
      (
        deserialize,
        serialize,
        length-to_be_bytes 64 sig.bytes,
        from_be_bytes-to_be_bytes 64 sig.bytes fits,
      )
      refl
