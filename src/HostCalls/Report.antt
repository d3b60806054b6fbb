-- ===== src/HostCalls/Report.antt =====
-- host_calls/src/lib.rs: what remote attestation tells the runtime about an enclave.
use substra_tee_node_pre.Base.{Bytes}
use substra_tee_node_pre.Base.Int.{ℤ}

pub data SgxStatus : Type 0 where
  invalid : SgxStatus
  ok : SgxStatus
  group_out_of_date : SgxStatus
  group_revoked : SgxStatus
  configuration_needed : SgxStatus

pub record SgxReport : Type 0 where
  pub mr_enclave : Bytes
  pub pubkey : Bytes
  pub status : SgxStatus
  pub timestamp : ℤ
