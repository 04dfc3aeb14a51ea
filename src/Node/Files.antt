-- ===== src/Node/Files.antt =====
-- The files and the command line of crates/rc-node/src/main.rs: the configuration, the key file, and
-- what each command does before the loop. The file system, JSON, YAML, hex, HTTP and the opening of a
-- database are parameters; printed lines are a result.
pub mod KeyFile
use Prim.Native.String.{◌++◌}
use routinechain.Base.{
  ℕ, ℤ, String, Option, none, some, List, [], ◌∷◌, ◌==◌, ◌&&◌, if◌then◌else◌, length, from_be_bytes,
}
use routinechain.Types.Bytes.{Id32}
use routinechain.Types.Config.{NodeConfig, default_node_config}
use routinechain.Store.{Store}
use routinechain.External.{Bytes, External, generate_keypair}
use routinechain.Store.Disk.{Io, done, failed, id_bytes}
use routinechain.Node.Start.{Started, start_node}

-- `std::fs`: what a read gives, and what a write answers and leaves
pub record Files : Type 1 where
  pub Fs : Type 0
  pub read_to_string : Fs → String → Io String
  pub write : Fs → String → String → Io Unit × Fs

-- The formats of the files: serde_json's values, hex, and the two parsers of a configuration.
pub record Formats : Type 1 where
  pub Value : Type 0
  pub from_str : String → Io Value
  -- `json[name].as_str()`
  pub as_str : Value → String → Option String
  -- `serde_json::json!({..})` of texts
  pub object : List (String × String) → Value
  -- `serde_json::to_string_pretty(..).unwrap()`
  pub to_string_pretty : Value → String
  pub hex_decode : String → Io Bytes
  pub hex_encode : Bytes → String
  pub config_from_yaml : String → Io NodeConfig
  pub config_from_json : String → Io NodeConfig

abbrev pub unwrap_or_default : Option String → String
unwrap_or_default none = ""
unwrap_or_default (some s) = s

-- the keypair that both decoded texts spell, if they are of 32 bytes
unfoldable pub keypair_of : Io Bytes → Io Bytes → Option (Id32 × ℕ)
keypair_of (done pub_bytes) (done priv_bytes) =
    if length pub_bytes == 32 && length priv_bytes == 32
    then some (from_be_bytes 0 pub_bytes, from_be_bytes 0 priv_bytes)
    else none
keypair_of (done _) (failed _) = none
keypair_of (failed _) _ = none

module _ (formats : Formats) where
  -- the keypair that the text of a key file holds
  unfoldable pub parse_keypair : String → Option (Id32 × ℕ)
  parse_keypair contents = elim (formats.from_str contents) [
    | failed _ ↦ none
    | done json ↦
        keypair_of (formats.hex_decode (unwrap_or_default (formats.as_str json "public_key")))
          (formats.hex_decode (unwrap_or_default (formats.as_str json "private_key")))
  ]

  -- the text of a key file
  unfoldable pub key_data : Id32 × ℕ → String
  key_data (public_key, private_key) = formats.to_string_pretty (
      formats.object (
        ("public_key", formats.hex_encode (id_bytes public_key))
        ∷ ("private_key", formats.hex_encode (id_bytes private_key))
        ∷ []))

module _ (ext : External) (files : Files) (formats : Formats) where
  -- the keypair that the key file holds, if there is one
  unfoldable pub stored_keypair : String → files.Fs → Option (Id32 × ℕ)
  stored_keypair path fs = elim (files.read_to_string fs path) [
    | failed _ ↦ none
    | done contents ↦ parse_keypair formats contents
  ]

  -- The bytes that would be drawn for a new key are an argument. A failed write is only logged.
  unfoldable pub load_or_generate_keypair : ℕ → String → files.Fs → (Id32 × ℕ) × files.Fs
  load_or_generate_keypair secret path fs = elim (stored_keypair path fs) [
    | some pair ↦ (pair, fs)
    | none ↦
        let pair = generate_keypair ext secret in
        (pair, (files.write fs path (key_data formats pair)).1)
  ]

  -- `keygen`: what is printed, unless the file cannot be written
  unfoldable pub keygen : ℕ → String → files.Fs → Io (List String) × files.Fs
  keygen secret output fs =
      let (public_key, private_key) = generate_keypair ext secret in
      let (written, fs') = files.write fs output (key_data formats (public_key, private_key)) in
      (
        elim written [
          | failed _ ↦ failed "Failed to write key file"
          | done _ ↦ done (
              "Keypair generated:"
              ∷ ("  Public key:  " ++ formats.hex_encode (id_bytes public_key))
              ∷ ("  Private key: " ++ formats.hex_encode (id_bytes private_key))
              ∷ ("  Saved to:    " ++ output)
              ∷ [])
        ],
        fs',
      )

  -- the configuration of the file, as YAML or else as JSON, or the defaults
  unfoldable pub load_config : String → files.Fs → NodeConfig
  load_config config_path fs = elim (files.read_to_string fs config_path) [
    | failed _ ↦ default_node_config
    | done config_str ↦ elim (formats.config_from_yaml config_str) [
      | done config ↦ config
      | failed _ ↦ elim (formats.config_from_json config_str) [
        | done config ↦ config
        | failed _ ↦ default_node_config
      ]
    ]
  ]

  -- `start_node` from the path of its configuration to its loop, unless the database cannot be opened
  unfoldable pub launch :
      (String → Io Store) → ℕ → ℤ → ℤ → String → files.Fs → Io (NodeConfig × Started) × files.Fs
  launch open_store secret genesis_time loop_time config_path fs =
      let config = load_config config_path fs in
      elim (open_store config.node.data_path) [
        | failed _ ↦ (failed "Failed to open database", fs)
        | done store ↦
            let ((public_key, private_key), fs') =
              load_or_generate_keypair secret config.node.private_key_path fs in
            (
              done (
                config,
                start_node formats.hex_decode config public_key private_key genesis_time loop_time
                    store,
              ),
              fs',
            )
      ]
