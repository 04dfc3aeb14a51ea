-- ===== src/Tests/Files.antt =====
-- A node on a small file system.
use Prim.Native.Nat.{Ordering}
use Prim.Native.String.{compare}
use text.Mathlib.TextEquality.{path_by_compare}
use text.Mathlib.TextPositions.{compare_refl}
use routinechain.Base.{String, ◌≡◌, ◌≢◌, refl, sym, subst, ap, ◌∙◌, Option, none, some, arith, pos}
use routinechain.Types.Config.{NodeConfig, default_node_config}
use routinechain.Store.{empty}
use routinechain.External.{generate_keypair}
use routinechain.Store.Disk.{Io, done, failed, id_bytes}
use routinechain.Node.Start.{Started}
use routinechain.Node.Files.{Files, Formats, load_or_generate_keypair, keygen, load_config, launch}
use routinechain.Node.Files.KeyFile.{KeepsFiles, ReadsBack, keygen_loaded}
use routinechain.Node.Restart.{same_node}
use routinechain.Tests.World.{ext}

abbrev read_text : Option String → Io String
read_text none = failed "no such file"
read_text (some text) = done text

-- the text at a path after a write
abbrev put_text : Ordering → String → Option String → Option String
put_text Ordering.eq text old = some text
put_text Ordering.lt text old = old
put_text Ordering.gt text old = old

abbrev files : Files
files = record {
  Fs = String → Option String;
  read_to_string = λ fs path. read_text (fs path);
  write = λ fs path text. (done tt, λ other. put_text (compare other path) text (fs other));
}

put_text-other :
    (o : Ordering) (other path text : String) (old : Option String)
    → compare other path ≡ o
    → other ≢ path
    → put_text o text old ≡ old
put_text-other Ordering.lt other path text old e ne = refl
put_text-other Ordering.eq other path text old e ne = absurd (ne (path_by_compare other path e))
put_text-other Ordering.gt other path text old e ne = refl

files-KeepsFiles : KeepsFiles files
files-KeepsFiles = record {
  read_written =
      λ fs path text ok. ap (λ o. read_text (put_text o text (fs path))) (compare_refl path);
  others_kept = λ fs path other text ne.
      ap read_text (put_text-other (compare other path) other path text (fs other) refl ne);
}

-- formats that know one key, 5, whose public key is 5
abbrev formats : Formats
formats = record {
  Value = Unit;
  from_str = λ text. elim (compare text "{05}") [
    | Ordering.eq ↦ done tt
    | Ordering.lt ↦ failed "no JSON"
    | Ordering.gt ↦ failed "no JSON"
  ];
  as_str = λ json name. some "05";
  object = λ fields. tt;
  to_string_pretty = λ json. "{05}";
  hex_decode = λ hex. done (id_bytes 5);
  hex_encode = λ bytes. "05";
  config_from_yaml = λ text. failed "no YAML";
  config_from_json = λ text. failed "no JSON";
}

formats-ReadsBack : ReadsBack formats 5 5
formats-ReadsBack = record {
  object_read = (tt, refl, refl, refl);
  public_read = refl;
  private_read = refl;
}

abbrev no_files : String → Option String
no_files _ = none

IsEq : Ordering → Type 0
IsEq Ordering.eq = Unit
IsEq Ordering.lt = ⊥
IsEq Ordering.gt = ⊥

different_paths : "config.yml" ≢ default_node_config.node.private_key_path
unfolding IsEq
different_paths e = subst IsEq (sym (compare_refl "config.yml") ∙ ap (compare "config.yml") e) tt

same_node_example :
    let (first, fs) =
      launch ext files formats (λ _. done empty) 5 (pos 0) (pos 1) "config.yml" no_files in
    (a : Started) × (b : Started) × (config : NodeConfig) × (first ≡ done (config, a))
    × (launch ext files formats (λ _. done empty) 6 (pos 2) (pos 3) "config.yml" fs
        ≡ (done (config, b), fs))
    × (b.state.consensus ≡ a.state.consensus)
    × (b.settings ≡ a.settings)
    × (b.peer_count ≡ a.peer_count)
unfolding load_config
same_node_example =
    same_node ext files formats (λ _. done empty) (λ _. done empty) 5 6 (pos 0) (pos 1) (pos 2)
      (pos 3) "config.yml" no_files empty empty files-KeepsFiles formats-ReadsBack (omega arith)
      (omega arith) different_paths refl refl refl

keygen_loaded_example :
    load_or_generate_keypair ext files formats 6 "validator.key"
      (keygen ext files formats 5 "validator.key" no_files).1
    ≡ (generate_keypair ext 5, (keygen ext files formats 5 "validator.key" no_files).1)
unfolding keygen generate_keypair
keygen_loaded_example =
    keygen_loaded ext files formats 5 6 "validator.key" no_files
      (keygen ext files formats 5 "validator.key" no_files).1 _ files-KeepsFiles formats-ReadsBack
      (omega arith) (omega arith) refl
