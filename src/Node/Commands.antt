-- ===== src/Node/Commands.antt =====
-- The command line of crates/rc-node/src/main.rs: the commands with their defaults, and what `main`
-- does with each. Reading the arguments is clap's, the request to a node reqwest's.
use Prim.Native.String.{◌++◌}
use routinechain.Base.{ℕ, ℤ, String, List}
use routinechain.Types.Config.{NodeConfig}
use routinechain.Store.{Store}
use routinechain.External.{External}
use routinechain.Store.Disk.{Io, done, failed}
use routinechain.Node.Start.{Started}
use routinechain.Node.Files.{Files, Formats, keygen as make_key, launch}

pub data Commands : Type 0 where
  start : (config : String) → Commands
  keygen : (output : String) → Commands
  status : (rpc : String) → Commands

-- the commands with their default values
abbrev pub default_start : Commands
default_start = start "config.yml"

abbrev pub default_keygen : Commands
default_keygen = keygen "validator.key"

abbrev pub default_status : Commands
default_status = status "http://localhost:26657"

-- a line on the standard output, or on the standard error
pub data Printed : Type 0 where
  println : String → Printed
  eprintln : String → Printed

-- `status`: `reqwest::get`, and of a response `text()`
unfoldable pub show_status : (String → Io (Io String)) → String → Printed
show_status http_get rpc = elim (http_get (rpc ++ "/status")) [
  | done (done body) ↦ println body
  | done (failed _) ↦ println ""
  | failed e ↦ eprintln ("Failed to connect to " ++ (rpc ++ (": " ++ e)))
]

-- what a command comes to: a node that enters its loop, printed lines, or a panic
pub data Outcome : Type 0 where
  running : NodeConfig → Started → Outcome
  finished : List String → Outcome
  answered : Printed → Outcome
  panicked : String → Outcome

module _ (ext : External) (files : Files) (formats : Formats) where
  -- `main`; the drawn key, the clock, the opening of a database and the request are arguments
  unfoldable pub main :
      (String → Io Store)
      → (String → Io (Io String))
      → ℕ
      → ℤ
      → ℤ
      → Commands
      → files.Fs
      → Outcome × files.Fs
  main open_store http_get secret genesis_time loop_time (start config) fs =
      let (result, fs') =
        launch ext files formats open_store secret genesis_time loop_time config fs in
      (elim result [ done (loaded, node) ↦ running loaded node | failed e ↦ panicked e ], fs')
  main open_store http_get secret genesis_time loop_time (keygen output) fs =
      let (result, fs') = make_key ext files formats secret output fs in
      (elim result [ done lines ↦ finished lines | failed e ↦ panicked e ], fs')
  main open_store http_get secret genesis_time loop_time (status rpc) fs =
      (answered (show_status http_get rpc), fs)
