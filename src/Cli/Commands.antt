-- ===== src/Cli/Commands.antt =====
-- src/cli.rs and src/main.rs: the commands, with the chains and the services that they work on.
use substra_tee_node_pre.Base.{◌≡◌, ◌≢◌, ◌⊎◌, Bool, Option, List, [], String}
use substra_tee_node_pre.Base.Outcome.{Outcome, ok, void}
use substra_tee_node_pre.Base.Exec.{Exec, pure, lift, ◌>>◌}
use substra_tee_node_pre.ChainSpec.{ChainSpec, load_spec}
use substra_tee_node_pre.ChainSpec.Primitives.{Keys}
use substra_tee_node_pre.Service.{fresh, new_full_start, new_full}
use substra_tee_node_pre.Service.Light.{new_light}
use substra_tee_node_pre.Service.Crates.{ServiceCrates}
use substra_tee_node_pre.Cli.{Effect, First, run_node}
use substra_tee_node_pre.Cli.Node.{NodeLibs}
use substra_tee_node_pre.Cli.Running.{Ended}

pub record VersionInfo : Type 0 where
  pub name : String
  pub commit : String
  pub version : String
  pub executable_name : String
  pub author : String
  pub description : String
  pub support_url : String

-- The `VersionInfo` of `main`; the build puts in the commit and the version.
abbrev pub version_info : (commit version : String) → VersionInfo
version_info commit version = record {
  name = "Substrate Node";
  commit = commit;
  version = version;
  executable_name = "substratee-node";
  author = "Supercomputing Systems AG";
  description = "substratee-node";
  support_url = "support.anonymous.an";
}

-- `ParseAndPrepare` of substrate_cli
pub data ParseAndPrepare (Command : Type 0) : Type 0 where
  run_node_command build_spec export_blocks import_blocks purge_chain revert_chain :
      Command → ParseAndPrepare Command
  custom_command : ParseAndPrepare Command

module _ (K : Keys) (C : ServiceCrates) where
  -- substrate_cli, tokio and ctrlc. `load` finds a chain by its name.
  pub record SubstrateCli : Type 1 where
    pub Command : Type 0
    pub parse_and_prepare : VersionInfo → String → List String → ParseAndPrepare Command
    pub is_light : C.Config → Bool
    pub new_runtime : Outcome (Unit {0})
    -- ctrlc
    pub set_handler : Bool
    -- `cmd.run(load, exit, f)` of the `run` command calls `f` on a configuration and ends as it
    -- does, or fails without a call.
    pub run_prepared :
        Command
        → (String → Outcome (Option (ChainSpec K)))
        → (C.Config → Exec (List Effect) (Unit {0}))
        → Exec (List Effect) (Unit {0})
    pub run_prepared-calls :
        (c : Command) (load : String → Outcome (Option (ChainSpec K)))
        (f : C.Config → Exec (List Effect) (Unit {0})) (es : List Effect)
        → (((run_prepared c load f es).0 ≢ ok tt) × ((run_prepared c load f es).1 ≡ es))
          ⊎ ((config : C.Config) × (run_prepared c load f es ≡ f config es))
    pub run_build_spec : Command → (String → Outcome (Option (ChainSpec K))) → Outcome (Unit {0})
    pub run_purge_chain : Command → (String → Outcome (Option (ChainSpec K))) → Outcome (Unit {0})
    -- `cmd.run_with_builder(f, load)` of the other three
    pub run_with_builder :
        Command
        → (C.Config → Outcome C.Builder)
        → (String → Outcome (Option (ChainSpec K)))
        → Outcome (Unit {0})

  module _ (P : SubstrateCli) where
    -- `service::new_light` and `service::new_full`, for the closure of the `run` command
    abbrev pub node_libs : NodeLibs
    node_libs = record {
      Config = C.Config;
      is_light = P.is_light;
      new_runtime = P.new_runtime;
      set_handler = P.set_handler;
      new_light = λ config. void (new_light C config);
      new_full = λ config. void (new_full C config (fresh C)).0;
    }

    -- `|config| Ok(new_full_start!(config).0)`
    abbrev pub builder_of : C.Config → Outcome C.Builder
    builder_of config = (new_full_start C config (fresh C)).0

    pub run_command : ParseAndPrepare P.Command → First → Exec (List Effect) (Unit {0})
    run_command (run_node_command cmd) first =
        P.run_prepared cmd (load_spec K) (λ config. run_node node_libs config first)
    run_command (build_spec cmd) first = lift (P.run_build_spec cmd (load_spec K))
    run_command (export_blocks cmd) first = lift (P.run_with_builder cmd builder_of (load_spec K))
    run_command (import_blocks cmd) first = lift (P.run_with_builder cmd builder_of (load_spec K))
    run_command (purge_chain cmd) first = lift (P.run_purge_chain cmd (load_spec K))
    run_command (revert_chain cmd) first = lift (P.run_with_builder cmd builder_of (load_spec K))
    run_command custom_command first = pure tt

    pub run : List String → VersionInfo → First → Exec (List Effect) (Unit {0})
    unfolding run_command
    run args version first = do
      run_command (P.parse_and_prepare version "substrate-node" args) first
      pure tt

    -- `main` of src/main.rs
    pub main : (commit version : String) → List String → First → Exec (List Effect) (Unit {0})
    unfolding run
    main commit version args first = run args (version_info commit version) first

    -- A program that ran no node, or that ran one.
    pub data Ran (first : First) (r : Outcome (Unit {0}) × List Effect) : Type 0 where
      no_node : r.1 ≡ [] → Ran first r
      node : (config : C.Config) → Ended node_libs config first r → Ran first r
