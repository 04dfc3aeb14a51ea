-- ===== src/Node/Files/KeyFile.antt =====
-- The key file: what `load_or_generate_keypair` and `keygen` of crates/rc-node/src/main.rs write to
-- it and read from it.
use routinechain.Base.{
  ℕ, String, ◌<◌, ◌^◌, ◌≡◌, ◌≢◌, refl, sym, ap, subst, ◌∙◌, none, some, List, [], ◌∷◌, Option-cases,
  inl, inr, length-to_be_bytes, from_be_bytes-to_be_bytes, arith,
}
use routinechain.Types.Bytes.{Id32}
use routinechain.External.{External, generate_keypair}
use routinechain.Store.Disk.{Io, done, failed, id_bytes}
use routinechain.Node.Files.{
  load_config, Files, Formats, keypair_of, parse_keypair, key_data, stored_keypair,
  load_or_generate_keypair, keygen,
}

-- What is relied on of the file system: a text that was written is read, and the other files stay.
pub record KeepsFiles (files : Files) : Type 0 where
  pub read_written :
      (fs : files.Fs) (path text : String)
      → (files.write fs path text).0 ≡ done tt
      → files.read_to_string (files.write fs path text).1 path ≡ done text
  pub others_kept :
      (fs : files.Fs) (path other text : String)
      → other ≢ path
      → files.read_to_string (files.write fs path text).1 other ≡ files.read_to_string fs other

-- What is relied on of serde_json and hex at one keypair: its bytes are read back from their hex, and
-- the texts of an object from what is printed of it.
pub record ReadsBack (formats : Formats) (public_key private_key : ℕ) : Type 0 where
  pub object_read :
      let a = formats.hex_encode (id_bytes public_key) in
      let b = formats.hex_encode (id_bytes private_key) in
      (json : formats.Value) × (formats.from_str
          (formats.to_string_pretty (formats.object (("public_key", a) ∷ ("private_key", b) ∷ [])))
        ≡ done json)
      × (formats.as_str json "public_key" ≡ some a)
      × (formats.as_str json "private_key" ≡ some b)
  pub public_read :
      formats.hex_decode (formats.hex_encode (id_bytes public_key)) ≡ done (id_bytes public_key)
  pub private_read :
      formats.hex_decode (formats.hex_encode (id_bytes private_key)) ≡ done (id_bytes private_key)

keypair_of_bytes :
    (a b : ℕ)
    → a < 256 ^ 32
    → b < 256 ^ 32
    → keypair_of (done (id_bytes a)) (done (id_bytes b)) ≡ some (a, b)
unfolding keypair_of
keypair_of_bytes a b ha hb =
    rw
      (
        keypair_of,
        length-to_be_bytes 32 a,
        length-to_be_bytes 32 b,
        from_be_bytes-to_be_bytes 32 a ha,
        from_be_bytes-to_be_bytes 32 b hb,
      )
      refl

-- A key file gives back the keypair that it was written for.
parse_keypair-key_data :
    (formats : Formats) (a b : ℕ)
    → ReadsBack formats a b
    → a < 256 ^ 32
    → b < 256 ^ 32
    → parse_keypair formats (key_data formats (a, b)) ≡ some (a, b)
unfolding parse_keypair key_data
parse_keypair-key_data formats a b back ha hb =
    let (json, read, public, private) = back.object_read in
    rw (parse_keypair, key_data, read, public, private, back.public_read, back.private_read)
      (keypair_of_bytes a b ha hb)

module _ (ext : External) (files : Files) (formats : Formats) (keeps : KeepsFiles files)
    (secret : ℕ) (back : ReadsBack formats (ext.public_key secret) secret)
    (fits : secret < 256 ^ 32) (public_fits : ext.public_key secret < 256 ^ 32) where
  abbrev pub new_key_file : String
  new_key_file = key_data formats (generate_keypair ext secret)

  pub stored_when_written :
      (path : String) (fs : files.Fs)
      → (files.write fs path new_key_file).0 ≡ done tt
      → stored_keypair ext files formats path (files.write fs path new_key_file).1
        ≡ some (generate_keypair ext secret)
  unfolding stored_keypair generate_keypair
  stored_when_written path fs written =
      rw (stored_keypair, keeps.read_written fs path new_key_file written)
        (parse_keypair-key_data formats (ext.public_key secret) secret back public_fits fits)

  pub loaded_when_stored :
      (secret' : ℕ) (path : String) (fs : files.Fs) (pair : Id32 × ℕ)
      → stored_keypair ext files formats path fs ≡ some pair
      → load_or_generate_keypair ext files formats secret' path fs ≡ (pair, fs)
  unfolding load_or_generate_keypair
  loaded_when_stored secret' path fs pair there = rw (load_or_generate_keypair, there) refl

  pub generated_when_missing :
      (path : String) (fs : files.Fs)
      → stored_keypair ext files formats path fs ≡ none
      → load_or_generate_keypair ext files formats secret path fs
        ≡ (generate_keypair ext secret, (files.write fs path new_key_file).1)
  unfolding load_or_generate_keypair
  generated_when_missing path fs missing = rw (load_or_generate_keypair, missing) refl

  -- Another run finds the same keypair, and leaves the files.
  abbrev pub IsFound : ℕ → String → (Id32 × ℕ) × files.Fs → Type 0
  IsFound secret' path r = load_or_generate_keypair ext files formats secret' path r.1 ≡ r

  pub keypair_kept :
      (secret' : ℕ) (path : String) (fs : files.Fs)
      → (files.write fs path new_key_file).0 ≡ done tt
      → IsFound secret' path (load_or_generate_keypair ext files formats secret path fs)
  keypair_kept secret' path fs written =
      elim (Option-cases (stored_keypair ext files formats path fs)) [
        | inl missing ↦
            subst (IsFound secret' path) (sym (generated_when_missing path fs missing))
              (loaded_when_stored secret' path _ _ (stored_when_written path fs written))
        | inr (pair, there) ↦
            subst (IsFound secret' path) (sym (loaded_when_stored secret path fs pair there))
              (loaded_when_stored secret' path fs pair there)
      ]

  -- Writing the key leaves every other file.
  pub config_kept :
      (path key_path : String) (fs : files.Fs)
      → path ≢ key_path
      → load_config ext files formats path
          (load_or_generate_keypair ext files formats secret key_path fs).1
        ≡ load_config ext files formats path fs
  unfolding load_config
  config_kept path key_path fs other =
      elim (Option-cases (stored_keypair ext files formats key_path fs)) [
        | inl missing ↦
            ap (λ r. load_config ext files formats path r.1)
              (generated_when_missing key_path fs missing)
            ∙ rw (load_config, keeps.others_kept fs key_path path new_key_file other) refl
        | inr (pair, there) ↦
            ap (λ r. load_config ext files formats path r.1)
              (loaded_when_stored secret key_path fs pair there)
      ]

-- `expect` on a write: it went well if the result is no failure.
succeeded :
    (r : Io Unit) (printed lines : List String)
    → elim r [ failed _ ↦ failed "Failed to write key file" | done _ ↦ done printed ] ≡ done lines
    → r ≡ done tt
succeeded (done tt) printed lines e = refl
succeeded (failed _) printed lines e = absurd (ground (arith, e))

-- A key file that `keygen` writes is the one that a node loads: if it succeeds, a start that reads
-- that file, whatever it would draw, has the keypair that `keygen` generated, and leaves the files.
pub keygen_loaded :
    (ext : External) (files : Files) (formats : Formats) (secret drawn : ℕ) (path : String)
    (fs fs' : files.Fs) (lines : List String)
    → KeepsFiles files
    → ReadsBack formats (ext.public_key secret) secret
    → secret < 256 ^ 32
    → ext.public_key secret < 256 ^ 32
    → keygen ext files formats secret path fs ≡ (done lines, fs')
    → load_or_generate_keypair ext files formats drawn path fs' ≡ (generate_keypair ext secret, fs')
unfolding keygen
keygen_loaded ext files formats secret drawn path fs fs' lines keeps back fits public_fits ran =
    let pair = generate_keypair ext secret in
    let out = files.write fs path (key_data formats pair) in
    let left : out.1 ≡ fs' = ap (λ r. r.1) ran in
    subst (λ x. load_or_generate_keypair ext files formats drawn path x ≡ (pair, x)) left
      (loaded_when_stored ext files formats keeps secret back fits public_fits drawn path out.1 pair
        (stored_when_written ext files formats keeps secret back fits public_fits path fs
          (succeeded out.0 _ lines (ap (λ r. r.0) ran))))
