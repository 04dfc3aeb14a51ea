-- ===== src/Types/Config.antt =====
-- crates/rc-types/src/config.rs: the node's configuration, and the defaults that it falls back to.
use routinechain.Base.{ℕ, String, List, []}

pub record DisputeSettings : Type 0 where
  pub vote_threshold : ℕ

pub record NodeSettings : Type 0 where
  pub id : String
  pub data_path : String
  pub private_key_path : String

pub record ConsensusSettings : Type 0 where
  pub block_time_ms : ℕ
  pub min_signatures : ℕ
  pub listen_address : String
  pub view_change_timeout_ms : ℕ

pub record PeerConfig : Type 0 where
  pub id : String
  pub address : String
  pub public_key : String

pub record RpcSettings : Type 0 where
  pub address : String

pub record RewardConfig : Type 0 where
  pub settlement_recorded : ℕ
  pub escrow_completed : ℕ
  pub trust_90_monthly : ℕ
  pub rating_submitted : ℕ
  pub dispute_won : ℕ
  pub referral : ℕ

pub record RcwSettings : Type 0 where
  pub rewards : RewardConfig

pub record NodeConfig : Type 0 where
  pub node : NodeSettings
  pub consensus : ConsensusSettings
  pub peers : List PeerConfig
  pub rpc : RpcSettings
  pub rcw : RcwSettings
  pub dispute : DisputeSettings
  pub platform_keys : List String

-- `DisputeSettings::default`
abbrev pub default_dispute_settings : DisputeSettings
default_dispute_settings = record { vote_threshold = 3 }

-- `NodeConfig::default`
abbrev pub default_node_config : NodeConfig
default_node_config = record {
  node = record {
    id = "node-1";
    data_path = "/var/lib/rcw";
    private_key_path = "/etc/rcw/validator.key";
  };
  consensus = record {
    block_time_ms = 1000;
    min_signatures = 3;
    listen_address = "0.0.0.0:26656";
    view_change_timeout_ms = 5000;
  };
  peers = [];
  rpc = record { address = "0.0.0.0:26657" };
  rcw = record {
    rewards = record {
      settlement_recorded = 5;
      escrow_completed = 20;
      trust_90_monthly = 100;
      rating_submitted = 2;
      dispute_won = 50;
      referral = 50;
    };
  };
  dispute = default_dispute_settings;
  platform_keys = [];
}
