-- ===== src/Cli/Node.antt =====
-- What src/cli.rs uses of substrate_service, tokio and src/service.rs. An error is its message.
use substra_tee_node_pre.Base.{Bool}
use substra_tee_node_pre.Base.Outcome.{Outcome}

pub record NodeLibs : Type 1 where
  pub Config : Type 0
  -- `config.roles == ServiceRoles::LIGHT`
  pub is_light : Config → Bool
  -- `Runtime::new()`
  pub new_runtime : Outcome (Unit {0})
  -- `service::new_light` and `service::new_full`
  pub new_light : Config → Outcome (Unit {0})
  pub new_full : Config → Outcome (Unit {0})
  -- Whether `ctrlc::set_handler` sets the handler; it fails, for one, where there is one already.
  pub set_handler : Bool
