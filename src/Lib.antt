-- ===== src/Lib.antt =====
-- The substraTEE node: a Substrate node whose runtime registers SGX enclaves, and a host call that
-- verifies their remote attestation.
--
-- An enclave signs `register_enclave` with a certificate that carries its attestation report. The
-- pallet asks the host to verify it (`verify_ra_report`), decodes the report that comes back, and
-- writes the enclave to its registry: a linked map from the indices 1 to a count, with a map from
-- accounts to indices beside it. `unregister_enclave` moves the last enclave into the hole.
-- Registered enclaves confirm the state of a shard with `confirm_call`; `call_worker` only
-- deposits an event. The node's command line picks a chain by name, whose genesis comes from the
-- chain specification.
--
-- The files, and the code that each is about:
--   Base/        Rust's results, panics, 64-bit words and slices, as far as the code uses them
--   Storage/     the maps of `decl_storage!` as interfaces, and association lists that fill them
--   HostCalls/   host_calls/src/lib.rs and host_calls/src/remote_attestation.rs
--     Report       `SgxStatus`, `SgxReport`
--     Libs         the crates that the verification uses, as parameters
--     Ca           `IAS_REPORT_CA`, the embedded certificate, and its base64 text, in Ca/Pem of
--                  any PEM file
--     Certificate  `safe_indexing`, `safe_indexing_one`, the search for an object identifier, and
--                  the public key and the comment of a certificate; Certificate/Der: lengths
--                  in DER, and as they are read
--     Attestation  `verify_mra_cert`, `verify_attn_report`, the host call `verify_ra_report`,
--                  the panics of each step, and what is wrong with a refused certificate, in
--                  Certificate/Refused and Attestation/Refused; Certificate/Found and
--                  Attestation/Encodings: what is found and decoded, as relations
--     Scenarios    the tests of remote_attestation.rs, over any crates and certificates
--   Registry/    runtime/src/substratee_registry.rs
--     Config       `Trait`, `Enclave`, `Request`, `Event`
--     Checks       what `register_enclave` checks before it writes
--     Shapes, Outcomes, Invariant  the storage after each branch of the writes, and when it is
--                  well-formed
--     Dispatch     the calls as one type, sequences of them, their events, hashes and workers
--     Dispatch/Drain, Dispatch/Order, Dispatch/Listing  a way to the empty registry, calls in
--                  either order, and the order in which the linked map lists the enclaves
--     Dispatch/Panics, Dispatch/Returns  the panics of a call
--     Scenarios    the tests of the pallet, over any accounts and accepted certificates
--     Directory    the registry as a map from accounts to enclaves, and its specification;
--                  Directory/Provenance: where its enclaves come from; Directory/Abstract: the
--                  outcomes of calls depend on it alone; Directory/Ledger: valid storages up to
--                  this map, on which Directory/Swap: calls of two accounts can be exchanged
--   Runtime/     runtime/src/lib.rs: the modules of `construct_runtime!`, the `Trait`
--                implementations, the dispatch of calls and the functions of `impl_runtime_apis!`
--     Substrate    the primitives, the other modules and the executive, as parameters
--     History      a chain from its genesis on, Root: the calls that root sends, Time: the units
--                  of time
--   ChainSpec/   src/chain_spec.rs, and `load_spec` of src/cli.rs
--   Service/     src/service.rs: what a full and a light client are made of and which tasks they
--                start, on the builder and the consensus crates of Substrate as parameters
--   Cli/         src/cli.rs: a run of the node until it ends, and the handler of Ctrl-C
--     Commands     `run` with every command, and `main` of src/main.rs, on the service's models
--   Examples/    stand-ins for the crates and a chain of numbers, for the tests
--
-- A call of the pallet is a state transformer that returns `Ok`, `Err` of a message, a panic or
-- undefined behaviour; writes that a call has made before an error stay. Counts are 64-bit words
-- with `checked_add`, `checked_sub` and a wrapping `+`; `usize` is taken to have 64 bits. Every
-- definition is total: the loops of the code are recursions on lists, and nothing runs on fuel.
--
-- Not under the repository, and so parameters with named laws: the storage maps, `ensure_signed`,
-- the codec of accounts and reports, base64, webpki, rustls, serde_json, chrono, the clock, the
-- SGX crates, the service builder, Aura, GRANDPA, tokio, and the parser of the arguments. The size
-- of `sgx_quote_t` is a parameter too. Of the runtime's other modules and the executive the laws say
-- what they write of the registry: nothing but through the calls that they are given, except that a
-- block starts without the events of the one before, and that root may write any storage by the
-- calls of another module.
--
-- Not modelled: log lines, the weights and fees of calls, the aliases of runtime/src/lib.rs for
-- types of Substrate, which the parameters stand for, and the build scripts.
pub mod Base
pub mod Storage
pub mod HostCalls
pub mod Registry
pub mod Runtime
pub mod ChainSpec
pub mod Service
pub mod Cli
mod Examples
