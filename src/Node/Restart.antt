-- ===== src/Node/Restart.antt =====
-- A node that is started twice: `start_node` of crates/rc-node/src/main.rs up to its loop, over the
-- files that the first start leaves.
use routinechain.Base.{ℕ, ℤ, String, ◌<◌, ◌^◌, ◌≡◌, ◌≢◌, refl, sym, ap, ◌∙◌}
use routinechain.Types.Bytes.{Id32}
use routinechain.Types.Config.{NodeConfig}
use routinechain.Store.{Store}
use routinechain.External.{External, generate_keypair}
use routinechain.Store.Disk.{Io, done, failed}
use routinechain.Node.Start.{Started, start_node}
use routinechain.Node.Files.{
  Files, Formats, key_data, load_or_generate_keypair, load_config, launch,
}
use routinechain.Node.Files.KeyFile.{KeepsFiles, ReadsBack, keypair_kept, config_kept}

module _ (ext : External) (files : Files) (formats : Formats) where
  launched :
      (open_store : String → Io Store) (drawn : ℕ) (genesis_time loop_time : ℤ) (path : String)
      (fs fs' : files.Fs) (config : NodeConfig) (pair : Id32 × ℕ) (store : Store)
      → load_config ext files formats path fs ≡ config
      → open_store config.node.data_path ≡ done store
      → load_or_generate_keypair ext files formats drawn config.node.private_key_path fs
        ≡ (pair, fs')
      → launch ext files formats open_store drawn genesis_time loop_time path fs ≡ (
        done (
          config,
          start_node formats.hex_decode config pair.0 pair.1 genesis_time loop_time store,
        ),
        fs',
      )
  unfolding launch
  launched open_store drawn genesis_time loop_time path fs fs' config pair store read opened
        loaded =
      let out = λ (r : (Id32 × ℕ) × files.Fs).
        let o : Io (NodeConfig × Started) × files.Fs = (
          done (
            config,
            start_node formats.hex_decode config r.0.0 r.0.1 genesis_time loop_time store,
          ),
          r.1,
        ) in
        o in
      ap
        (λ (c : NodeConfig). elim (open_store c.node.data_path) [
          | failed _ ↦
              let o : Io (NodeConfig × Started) × files.Fs =
                (failed "Failed to open database", fs) in
              o
          | done store' ↦
              let r = load_or_generate_keypair ext files formats drawn c.node.private_key_path fs in
              (
                done (c, start_node formats.hex_decode c r.0.0 r.0.1 genesis_time loop_time store'),
                r.1,
              )
        ])
        read
      ∙ (rw opened refl ∙ ap out loaded)

-- A node keeps its identity over restarts: a node that is started on the files that its first start
-- left, with the same path of its configuration, starts with the same configuration, the same id, key,
-- peers and settings, and leaves the files as they are; whether the first start found a keypair or
-- wrote the one it drew, the two databases open, and whatever would be drawn the second time. The
-- configuration is supposed not to be in the key file, and the key file to be writable.
pub same_node :
    (ext : External) (files : Files) (formats : Formats)
    (open_first open_second : String → Io Store) (secret drawn : ℕ) (g1 l1 g2 l2 : ℤ)
    (path : String) (fs : files.Fs) (s1 s2 : Store)
    → KeepsFiles files
    → ReadsBack formats (ext.public_key secret) secret
    → secret < 256 ^ 32
    → ext.public_key secret < 256 ^ 32
    → path ≢ (load_config ext files formats path fs).node.private_key_path
    → (files.write fs
        (load_config ext files formats path fs).node.private_key_path
        (key_data formats (generate_keypair ext secret))).0
      ≡ done tt
    → open_first (load_config ext files formats path fs).node.data_path ≡ done s1
    → open_second (load_config ext files formats path fs).node.data_path ≡ done s2
    → let (first, fs') = launch ext files formats open_first secret g1 l1 path fs in
      (a : Started) × (b : Started) × (config : NodeConfig) × (first ≡ done (config, a))
      × (launch ext files formats open_second drawn g2 l2 path fs' ≡ (done (config, b), fs'))
      × (b.state.consensus ≡ a.state.consensus)
      × (b.settings ≡ a.settings)
      × (b.peer_count ≡ a.peer_count)
unfolding start_node
same_node ext files formats open_first open_second secret drawn g1 l1 g2 l2 path fs s1 s2 keeps back
      fits public_fits other written opened1 opened2 =
    let config = load_config ext files formats path fs in
    let key_path = config.node.private_key_path in
    let (pair, fs') = load_or_generate_keypair ext files formats secret key_path fs in
    let first =
      launched ext files formats open_first secret g1 l1 path fs fs' config pair s1 refl opened1
        refl in
    let second =
      launched ext files formats open_second drawn g2 l2 path fs' fs' config pair s2
        (config_kept ext files formats keeps secret back fits public_fits path key_path fs other)
        opened2
        (keypair_kept ext files formats keeps secret back fits public_fits drawn key_path fs
          written) in
    (
      start_node formats.hex_decode config pair.0 pair.1 g1 l1 s1,
      start_node formats.hex_decode config pair.0 pair.1 g2 l2 s2,
      config,
      ap (λ r. r.0) first,
      ap (λ r. launch ext files formats open_second drawn g2 l2 path r.1) first
          ∙ (second
              ∙ ap
                  (λ (left : files.Fs).
                    let o : Io (NodeConfig × Started) × files.Fs = (
                      done (config, start_node formats.hex_decode config pair.0 pair.1 g2 l2 s2),
                      left,
                    ) in
                    o)
                  (sym (ap (λ r. r.1) first))),
      refl,
      refl,
      refl,
    )
