-- ===== src/Config.antt =====
-- cmd/dstest/config/config.go: the configuration that the components read. Counts and ports are
-- natural numbers. A value of a `Params` map is one that the decoder of the file produces; `F` is the
-- type of its floating-point numbers, and the null value is left out.
pub mod Paths
use dstest.Prelude.{ℕ, ℤ, List}
use dstest.Prelude.Text.{Text}

pub data Value (F : Type 0) : Type 0 where
  int : ℤ → Value F
  float : F → Value F
  text : Text → Value F
  compound : Value F

abbrev pub Params : Type 0 → Type 0
Params F = List (Text × Value F)

pub record TestConfig : Type 0 where
  pub name : Text
  pub experiments : ℕ
  pub iterations : ℕ
  pub wait_duration : ℕ
  pub startup_duration : ℕ

pub record SchedulerConfig (F : Type 0) : Type 0 where
  pub type : Text
  pub steps : ℕ
  pub client_requests : ℕ
  pub seed : ℤ
  pub params : Params F

pub record NetworkConfig : Type 0 where
  pub base_replica_port : ℕ
  pub base_interceptor_port : ℕ
  pub protocol : Text
  pub message_type : Text

pub record FaultEntry (F : Type 0) : Type 0 where
  pub type : Text
  pub params : Params F

pub record FaultConfig (F : Type 0) : Type 0 where
  pub faults : List (FaultEntry F)

pub record ProcessConfig : Type 0 where
  pub num_replicas : ℕ
  pub timeout : ℕ
  pub output_dir : Text
  pub replica_script : Text
  pub client_scripts : List Text
  pub clean_script : Text
  pub replica_params : List Text

pub record Config (F : Type 0) : Type 0 where
  pub test_config : TestConfig
  pub scheduler_config : SchedulerConfig F
  pub network_config : NetworkConfig
  pub fault_config : FaultConfig F
  pub process_config : ProcessConfig
