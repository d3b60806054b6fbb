-- ===== src/Registry/Scenarios/All.antt =====
-- runtime/src/substratee_registry.rs: all scenarios with one enclave.
use substra_tee_node_pre.Base.{Bytes}
use substra_tee_node_pre.Registry.Config.{Trait}
use substra_tee_node_pre.Registry.Scenarios.{
  Setting, TestEnclave, add_enclave_works, add_and_remove_enclave_works, list_enclaves_works,
  register_invalid_enclave_fails, update_enclave_url_works, update_ipfs_hash_works,
  ipfs_update_from_unregistered_enclave_fails, call_worker_works, Passes,
}
use substra_tee_node_pre.Registry.Scenarios.Steps.{Accepted}
use substra_tee_node_pre.Registry.Scenarios.Single.{
  add_enclave-Passes, add_and_remove-Passes, list_enclaves-Passes, register_invalid-Passes,
  update_url-Passes,
}
use substra_tee_node_pre.Registry.Scenarios.Confirms.{
  update_ipfs_hash-Passes, ipfs_update-Passes, call_worker-Passes,
}

module _ (T : Trait) (S : Setting T) (t : TestEnclave T) (a : Accepted T S t S.url) where
  -- A signer whose certificate is accepted for two URLs: the tests with one signer pass, whatever
  -- the second URL, the hashes and the text of the request are.
  pub single-Passes :
      (url2 : Bytes) (a2 : Accepted T S t url2) (request_hash ipfs_hash cyphertext : Bytes)
      → Passes T S (add_enclave_works T S t)
        × Passes T S (add_and_remove_enclave_works T S t)
        × Passes T S (list_enclaves_works T S t)
        × Passes T S (register_invalid_enclave_fails T S t)
        × Passes T S (update_enclave_url_works T S t url2)
        × Passes T S (update_ipfs_hash_works T S t request_hash ipfs_hash)
        × Passes T S (ipfs_update_from_unregistered_enclave_fails T S t ipfs_hash)
        × Passes T S (call_worker_works T S t cyphertext)
  single-Passes url2 a2 request_hash ipfs_hash cyphertext = (
    add_enclave-Passes T S t a,
    add_and_remove-Passes T S t a,
    list_enclaves-Passes T S t a,
    register_invalid-Passes T S t a,
    update_url-Passes T S t a url2 a2,
    update_ipfs_hash-Passes T S t a request_hash ipfs_hash,
    ipfs_update-Passes T S t a request_hash ipfs_hash,
    call_worker-Passes T S t a request_hash ipfs_hash cyphertext,
  )
