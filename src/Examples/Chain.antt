-- ===== src/Examples/Chain.antt =====
-- A chain for the tests: accounts and shards are numbers, an origin is an account or nobody.
use substra_tee_node_pre.Base.{
  ℕ, refl, Option, none, some, List, [], ◌∷◌, ◌++◌, Bytes, replicate, ℕ_discrete, bytes_of,
}
use substra_tee_node_pre.Base.Outcome.{Outcome, ok, err}
use substra_tee_node_pre.Storage.{assoc_map, assoc_linked_map}
use substra_tee_node_pre.HostCalls.Certificate.{prime256v1_oid, ns_cmt_oid}
use substra_tee_node_pre.Registry.Config.{Trait, Enclave}
use substra_tee_node_pre.Examples.Crates.{crates}

abbrev decode : Bytes → Option ℕ
decode [] = none
decode (x ∷ xs) = some x

abbrev ensure_signed : Option ℕ → Outcome ℕ
ensure_signed none = err "bad origin: expected to be a signed origin"
ensure_signed (some a) = ok a

abbrev pub chain : Trait
chain = record {
  AccountId = ℕ;
  account_eq = ℕ_discrete;
  default_account = 0;
  encode = λ a. a ∷ replicate 31 0;
  decode = decode;
  decode-encode = λ a. refl;
  length-encode = λ a. refl;
  ShardIdentifier = ℕ;
  Origin = Option ℕ;
  ensure_signed = ensure_signed;
  libs = crates;
  registry_map = assoc_linked_map ℕ (Enclave ℕ) ℕ_discrete;
  index_map = assoc_map ℕ ℕ ℕ_discrete;
  ipfs_map = assoc_map ℕ Bytes ℕ_discrete;
  worker_map = assoc_map ℕ ℕ ℕ_discrete;
}

-- A certificate with a key of 64 bytes and a Netscape comment of three parts.
abbrev pub comment : Bytes
comment = bytes_of "report|signature|certificate"

abbrev pub certificate : Bytes
certificate =
    0x30
    ∷ (prime256v1_oid
        ++ (0x03 ∷ 66 ∷ 0x00 ∷ 0x04 ∷ (replicate 64 7 ++ (ns_cmt_oid ++ (0x04 ∷ 28 ∷ comment)))))

abbrev pub attn : List ℕ
attn = replicate 16 5
