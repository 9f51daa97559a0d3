-- ===== src/Unreplicated/Replica.antt =====
-- src/unreplicated.rs, ListenThread, EffectThread and Replica: what goes through the server.
pub mod Delivery
use tidyup.Common.{
  ℕ, ◌+◌, Bool, true, false, ◌||◌, Option, none, some, List, [], ◌∷◌, ◌++◌, Outcome, ok, ◌>>=◌,
  unwrap, if◌then◌else◌, get_elem?,
}
use tidyup.App.{App}
use tidyup.Core.{Received, received, empty, disconnected}
use tidyup.Core.Channels.{try_recv, count, TxChannel, RxChannel, send_to, receive_from}
use tidyup.Message.{Bytes, Request, Reply, SocketAddr}
use tidyup.Message.Bincode.{Bincode}
use tidyup.Unreplicated.Server
use tidyup.Unreplicated.Server.{MainThread}

pub record ListenThread : Type 0 where
  pub rx : RxChannel
  -- the values sent on this channel, the oldest first
  pub to_main : List Request

pub record EffectThread : Type 0 where
  pub tx : TxChannel

-- A channel is the values sent on it and the number of those that were received.
pub record Replica : Type 0 where
  pub main : MainThread
  pub listen : ListenThread
  pub effect : EffectThread
  pub main_received : ℕ
  pub effect_received : ℕ

unfoldable pub new : App → TxChannel → RxChannel → Replica
new app tx rx = record {
  main = Server.new app;
  listen = record { rx = rx; to_main = [] };
  effect = record { tx = tx };
  main_received = 0;
  effect_received = 0;
}

module _ (requests : Bincode Request) where
  abbrev pub listen_arrival :
      ListenThread → Option (Bytes × SocketAddr) → Outcome (Bool × ListenThread)
  listen_arrival l none = ok (false, l)
  listen_arrival l (some (payload, remote)) = unwrap (requests.deserialize payload) >>= λ request.
      ok (true, record l { to_main = l.to_main ++ request ∷ [] })

  unfoldable pub listen_poll :
      ListenThread → Received (SocketAddr × Bytes) → Outcome (Bool × ListenThread)
  listen_poll l incoming = receive_from l.rx 1500 incoming >>= listen_arrival l

module _ (replies : Bincode Reply) where
  unfoldable pub shared_poll :
      EffectThread → Received (SocketAddr × Reply) → Outcome (Bool × EffectThread)
  shared_poll e (received (dest, message)) = unwrap (replies.serialize message) >>= λ payload.
      ok (true, record { tx = send_to e.tx payload dest })
  shared_poll e empty = ok (false, e)
  shared_poll e disconnected = ok (false, e)

module _ (requests : Bincode Request) (replies : Bincode Reply) where
  unfoldable pub poll : Replica → Received (SocketAddr × Bytes) → Outcome (Bool × Replica)
  poll r incoming = do
    (listened, listen) ← listen_poll requests r.listen incoming
    let (handled, main) = Server.poll r.main (try_recv listen.to_main r.main_received)
    (effected, effect) ← shared_poll replies r.effect (try_recv main.to_effect r.effect_received)
    ok (
      (listened || handled) || effected,
      record {
        main = main;
        listen = listen;
        effect = effect;
        main_received = count r.main_received handled;
        effect_received = count r.effect_received effected;
      },
    )

  -- One datagram arrives before each poll.
  unfoldable pub run : Replica → List (SocketAddr × Bytes) → Outcome Replica
  run r [] = ok r
  run r (datagram ∷ rest) = poll r (received datagram) >>= λ polled. run polled.1 rest
