-- ===== src/Pbft/Types.antt =====
-- src/pbft.rs: what the threads of a replica send to one another.
use tidyup.Common.{List}
use tidyup.Message.{Secp, Request, Reply, Signed, SocketAddr}
use tidyup.Message.Pbft.{PrePrepare, Prepare, Commit, ToReplica}

pub data ToCrypto (C : Secp) : Type 0 where
  verify : ToReplica C → ToCrypto C
  send_reply : SocketAddr → Reply → ToCrypto C
  send_pre_prepare : PrePrepare → List Request → ToCrypto C
  send_prepare : Prepare → ToCrypto C
  send_commit : Commit → ToCrypto C

pub data ToMain (C : Secp) : Type 0 where
  verified : ToReplica C → ToMain C
  signed : ToReplica C → ToMain C

pub record LogEntry (C : Secp) : Type 0 where
  pub pre_prepare : Signed C PrePrepare
  pub requests : List Request
