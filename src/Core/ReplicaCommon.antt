-- ===== src/Core/ReplicaCommon.antt =====
-- src/core.rs, ReplicaCommon: what a replica is made of.
use tidyup.Common.{ℕ}
use tidyup.App.{App}
use tidyup.Core.Clock.{Clock}
use tidyup.Core.Channels.{TxChannel, RxChannel}
use tidyup.Message.{Secp, TransportConfig}

pub record ReplicaCommon (C : Secp) : Type 0 where
  pub id : ℕ
  pub config : TransportConfig C
  pub app : App
  pub tx : TxChannel
  pub rx : RxChannel
  pub clock : Clock
