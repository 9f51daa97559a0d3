-- ===== src/Message/Pbft.antt =====
-- src/message/src/pbft.rs: the messages that PBFT replicas exchange.
use tidyup.Common.{ℕ, List}
use tidyup.Message.{Secp, Digest, Request, Signed}

pub record PrePrepare : Type 0 where
  pub view_number : ℕ
  pub op_number : ℕ
  pub request_digest : Digest

pub record Prepare : Type 0 where
  pub view_number : ℕ
  pub op_number : ℕ
  pub request_digest : Digest
  pub replica_id : ℕ

pub record Commit : Type 0 where
  pub view_number : ℕ
  pub op_number : ℕ
  pub request_digest : Digest
  pub replica_id : ℕ

pub data ToReplica (C : Secp) : Type 0 where
  request : Request → ToReplica C
  pre_prepare : Signed C PrePrepare → List Request → ToReplica C
  prepare : Signed C Prepare → ToReplica C
  commit : Signed C Commit → ToReplica C
