-- ===== src/Store/Disk/Contents.antt =====
-- What the store relies on: a database that does not fail and keeps what is put, and encodings that
-- are read back. The contents of a database are a function from keys to values.
use routinechain.Base.{
  ℕ, ◌^◌, ◌<◌, ◌≡◌, refl, ◌∙◌, false, Option, some, List, [], ◌∷◌, ◌++◌, ◌==◌, bytes_eq,
  to_be_bytes, bytes_eq-to_be_bytes, if◌then◌else◌, arith, update, Bool-cases, inl, inr,
}
use routinechain.External.{Bytes}
use routinechain.Store.Disk.{done, Database, Codec, decoded}

abbrev pub Contents : Type 0
Contents = Bytes → Option Bytes

abbrev pub written : Bytes → Bytes → Contents → Contents
written key value m j = if bytes_eq key j then some value else m j

abbrev pub written_all : List (Bytes × Bytes) → Contents → Contents
written_all [] m = m
written_all ((key, value) ∷ puts) m = written_all puts (written key value m)

-- A database without failures. A batch is written as a whole, its puts in order.
pub record Reliable (D : Database) : Type 0 where
  pub contents : D.Db → Contents
  pub get_contents : (db : D.Db) (key : Bytes) → D.get db key ≡ done (contents db key)
  pub put_contents :
      (db : D.Db) (key value : Bytes)
      → (db' : D.Db) × (D.put db key value ≡ done db')
        × (contents db' ≡ written key value (contents db))
  pub write_contents :
      (db : D.Db) (puts : List (Bytes × Bytes))
      → (db' : D.Db) × (D.write db puts ≡ done db')
        × (contents db' ≡ written_all puts (contents db))

-- The value is serialized, and deserialized to itself.
abbrev pub RoundTrips : {A : Type 0} → Codec A → A → Type 0
RoundTrips c a = (bytes : Bytes) × (c.serialize a ≡ done bytes) × (c.deserialize bytes ≡ done a)

-- The entries under a prefix, with keys of `k` bytes, are the values of a function.
abbrev pub Column : {A : Type 0} → ℕ → Codec A → Bytes → Contents → (ℕ → Option A) → Type 0
Column k c prefix m f =
    (n : ℕ) → n < 256 ^ k → decoded c (m (prefix ++ to_be_bytes k n)) ≡ done (f n)

bytes_eq-append_left : (p xs ys : Bytes) → bytes_eq (p ++ xs) (p ++ ys) ≡ bytes_eq xs ys
bytes_eq-append_left [] xs ys = refl
bytes_eq-append_left (x ∷ p) xs ys = ground (arith, bytes_eq-append_left p xs ys)

pub same_key :
    (k : ℕ) (prefix : Bytes) (a b : ℕ)
    → a < 256 ^ k
    → b < 256 ^ k
    → bytes_eq (prefix ++ to_be_bytes k a) (prefix ++ to_be_bytes k b) ≡ (a == b)
same_key k prefix a b ha hb = bytes_eq-append_left prefix _ _ ∙ bytes_eq-to_be_bytes k a b ha hb

pub Column-written :
    {A : Type 0} (k : ℕ) (c : Codec A) (prefix : Bytes) (m : Contents) (f : ℕ → Option A) (key : ℕ)
    (a : A) (bytes : Bytes)
    → key < 256 ^ k
    → c.deserialize bytes ≡ done a
    → Column k c prefix m f
    → Column k c prefix (written (prefix ++ to_be_bytes k key) bytes m) (update f key a)
unfolding decoded
Column-written k c prefix m f key a bytes fits read h n hn = elim (Bool-cases (key == n)) [
  | inl same ↦ rw (same_key k prefix key n fits hn, same, decoded, read) refl
  | inr other ↦ rw (same_key k prefix key n fits hn, other) (h n hn)
]

pub Column-other :
    {A : Type 0} (k : ℕ) (c : Codec A) (prefix : Bytes) (m : Contents) (f : ℕ → Option A)
    (key bytes : Bytes)
    → ((n : ℕ) → bytes_eq key (prefix ++ to_be_bytes k n) ≡ false)
    → Column k c prefix m f
    → Column k c prefix (written key bytes m) f
Column-other k c prefix m f key bytes other h n hn = rw (other n) (h n hn)
