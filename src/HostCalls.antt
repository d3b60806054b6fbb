-- ===== src/HostCalls.antt =====
-- host_calls: the types of a verified report, what the code uses of other crates, the parts of the
-- certificate, and the verification that is the runtime's host call.
pub mod Report
pub mod Libs
pub mod Ca
pub mod Certificate
pub mod Attestation
pub mod Scenarios
mod Tests
