-- ===== src/Runtime/Constants.antt =====
-- runtime/src/lib.rs: the constants of the runtime.
use substra_tee_node_pre.Base.{ℕ, ◌*◌, ◌/◌, ◌%◌, ◌^◌, String}

abbrev pub millisecs_per_block : ℕ
millisecs_per_block = 6000

abbrev pub runtime_slot_duration : ℕ
runtime_slot_duration = millisecs_per_block

-- Time units as numbers of blocks; a block number is a `u32`.
abbrev pub minutes : ℕ
minutes = 60_000 / (millisecs_per_block % 2 ^ 32)

abbrev pub hours : ℕ
hours = minutes * 60 % 2 ^ 32

abbrev pub days : ℕ
days = hours * 24 % 2 ^ 32

-- `apis` is a list that `impl_runtime_apis!` makes.
pub record RuntimeVersion (Apis : Type 0) : Type 0 where
  pub spec_name : String
  pub impl_name : String
  pub authoring_version : ℕ
  pub spec_version : ℕ
  pub impl_version : ℕ
  pub apis : Apis

abbrev pub version_with : {Apis : Type 0} → Apis → RuntimeVersion Apis
version_with runtime_api_versions = record {
  spec_name = "node";
  impl_name = "test-node";
  authoring_version = 1;
  spec_version = 1;
  impl_version = 1;
  apis = runtime_api_versions;
}

-- `can_author_with` is a set of the versions to author with.
pub record NativeVersion (Apis CanAuthorWith : Type 0) : Type 0 where
  pub runtime_version : RuntimeVersion Apis
  pub can_author_with : CanAuthorWith

abbrev pub native_version :
    {Apis CanAuthorWith : Type 0} → Apis → CanAuthorWith → NativeVersion Apis CanAuthorWith
native_version runtime_api_versions default_authors = record {
  runtime_version = version_with runtime_api_versions;
  can_author_with = default_authors;
}
