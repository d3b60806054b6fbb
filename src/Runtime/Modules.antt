-- ===== src/Runtime/Modules.antt =====
-- runtime/src/lib.rs: the modules that `construct_runtime!` puts together, and how the `Trait`
-- implementations wire them to each other.
use substra_tee_node_pre.Base.{
  ℕ, ◌*◌, ◌/◌, Bool, true, false, ◌&&◌, ◌||◌, List, [], ◌∷◌, Option, none, some,
}
use substra_tee_node_pre.Runtime.Constants.{runtime_slot_duration}

pub data ModuleName : Type 0 where
  system timestamp aura grandpa indices balances transaction_payment sudo substratee_registry
        randomness_collective_flip :
      ModuleName

-- What the runtime takes from a module. `Config<T>` and `Event<T>` are the generic forms;
-- `standard` is `default`, the macro's usual parts.
pub data ModulePart : Type 0 where
  module_part call_part storage_part config_part config_of_runtime event_part event_of_runtime
        error_part inherent_part standard :
      ModulePart
  inherent_after : ModuleName → ModulePart

pub record ModuleRow : Type 0 where
  pub name : ModuleName
  pub parts : List ModulePart

-- A module without a list of parts has the usual ones.
unfoldable pub runtime_modules : List ModuleRow
runtime_modules =
    record {
      name = system;
      parts = module_part ∷ call_part ∷ storage_part ∷ config_part ∷ event_part ∷ [];
    }
    ∷ record {
      name = timestamp;
      parts = module_part ∷ call_part ∷ storage_part ∷ inherent_part ∷ [];
    }
    ∷ record {
      name = aura;
      parts = module_part ∷ config_of_runtime ∷ inherent_after timestamp ∷ [];
    }
    ∷ record {
      name = grandpa;
      parts = module_part ∷ call_part ∷ storage_part ∷ config_part ∷ event_part ∷ [];
    }
    ∷ record { name = indices; parts = standard ∷ config_of_runtime ∷ [] }
    ∷ record { name = balances; parts = standard ∷ error_part ∷ [] }
    ∷ record { name = transaction_payment; parts = module_part ∷ storage_part ∷ [] }
    ∷ record { name = sudo; parts = standard ∷ [] }
    ∷ record {
      name = substratee_registry;
      parts = module_part ∷ call_part ∷ storage_part ∷ event_of_runtime ∷ [];
    }
    ∷ record {
      name = randomness_collective_flip;
      parts = module_part ∷ call_part ∷ storage_part ∷ [];
    }
    ∷ []

abbrev pub is_registry : ModuleName → Bool
is_registry substratee_registry = true
is_registry _ = false

-- The usual parts have a `Config<T>`.
abbrev pub configures : List ModulePart → Bool
configures [] = false
configures (config_part ∷ ps) = true
configures (config_of_runtime ∷ ps) = true
configures (standard ∷ ps) = true
configures (_ ∷ ps) = configures ps

-- The registry has an entry in the genesis configuration.
unfoldable pub registry_configured : List ModuleRow → Bool
registry_configured [] = false
registry_configured (r ∷ rs) = (is_registry r.name && configures r.parts) || registry_configured rs

-- `impl system::Trait for Runtime`, on the `parameter_types!` before it; `Lookup` is a module, and
-- the ratio is in percent.
pub record SystemTrait (Version : Type 0) : Type 0 where
  pub lookup : ModuleName
  pub block_hash_count : ℕ
  pub maximum_block_weight : ℕ
  pub maximum_block_length : ℕ
  pub available_block_ratio : ℕ
  pub version : Version

abbrev pub system_trait : {Version : Type 0} → Version → SystemTrait Version
system_trait version = record {
  lookup = indices;
  block_hash_count = 250;
  maximum_block_weight = 1_000_000;
  maximum_block_length = 5 * 1024 * 1024;
  available_block_ratio = 75;
  version = version;
}

-- The hint for an index, which is a type, is left out.
pub record IndicesTrait : Type 0 where
  pub is_dead_account : ModuleName

abbrev pub indices_trait : IndicesTrait
indices_trait = record { is_dead_account = balances }

pub record TimestampTrait : Type 0 where
  pub on_timestamp_set : ModuleName
  pub minimum_period : ℕ

abbrev pub timestamp_trait : TimestampTrait
timestamp_trait = record { on_timestamp_set = aura; minimum_period = runtime_slot_duration / 2 }

-- `none` is `()`, which does nothing.
pub record BalancesTrait : Type 0 where
  pub on_free_balance_zero : Option ModuleName
  pub on_new_account : Option ModuleName
  pub dust_removal : Option ModuleName
  pub transfer_payment : Option ModuleName
  pub existential_deposit : ℕ
  pub transfer_fee : ℕ
  pub creation_fee : ℕ

abbrev pub balances_trait : BalancesTrait
balances_trait = record {
  on_free_balance_zero = none;
  on_new_account = some indices;
  dust_removal = none;
  transfer_payment = none;
  existential_deposit = 500;
  transfer_fee = 0;
  creation_fee = 0;
}

-- The conversion of weights to fees, which is a type, is left out.
pub record TransactionPaymentTrait : Type 0 where
  pub currency : ModuleName
  pub on_transaction_payment : Option ModuleName
  pub transaction_base_fee : ℕ
  pub transaction_byte_fee : ℕ
  pub fee_multiplier_update : Option ModuleName

abbrev pub transaction_payment_trait : TransactionPaymentTrait
transaction_payment_trait = record {
  currency = balances;
  on_transaction_payment = none;
  transaction_base_fee = 0;
  transaction_byte_fee = 1;
  fee_multiplier_update = none;
}

-- `SignedExtra`, in the order in which the extensions check a transaction
pub data SignedExtension : Type 0 where
  check_version check_genesis check_era check_nonce check_weight charge_transaction_payment :
      SignedExtension

abbrev pub signed_extra : List SignedExtension
signed_extra =
    check_version ∷ check_genesis ∷ check_era ∷ check_nonce ∷ check_weight
    ∷ charge_transaction_payment ∷ []

-- `SessionKeys` of `impl_opaque_keys!`: the runtime_modules whose keys a session has
abbrev pub session_keys : List ModuleName
session_keys = aura ∷ grandpa ∷ []

-- The values of the `Trait` implementations. Those of Aura, GRANDPA, Sudo and the registry set only
-- types.
pub record RuntimeConfig (Version : Type 0) : Type 0 where
  pub system : SystemTrait Version
  pub indices : IndicesTrait
  pub timestamp : TimestampTrait
  pub balances : BalancesTrait
  pub transaction_payment : TransactionPaymentTrait
  pub extensions : List SignedExtension

abbrev pub runtime_config : {Version : Type 0} → Version → RuntimeConfig Version
runtime_config version = record {
  system = system_trait version;
  indices = indices_trait;
  timestamp = timestamp_trait;
  balances = balances_trait;
  transaction_payment = transaction_payment_trait;
  extensions = signed_extra;
}
