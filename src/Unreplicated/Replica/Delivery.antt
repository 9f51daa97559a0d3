-- ===== src/Unreplicated/Replica/Delivery.antt =====
-- The server as a whole: a datagram that is read leads to the reply that is sent.
use tidyup.Common.{
  ◌+◌, ◌≡◌, ◌⊎◌, inl, inr, refl, sym, ap, ◌∙◌, true, some, List, [], ◌∷◌, ◌++◌, ok, arith, map,
  length, length-append, take, get_elem?-push_self, get_elem?-eq_none, nat_eq,
}
use mathlib.Core.List.{append_assoc, append-nil}
use tidyup.Common.HashMap
use tidyup.App
use tidyup.App.{App}
use tidyup.ClientTable.{classify_cases}
use tidyup.Core.{received}
use tidyup.Core.Channels.{udp, receive_from}
use tidyup.Message.{Bytes, Request, Reply, SocketAddr}
use tidyup.Message.Bincode.{Bincode}
use tidyup.Unreplicated.Server
use tidyup.Unreplicated.Server.{MainThread}
use tidyup.Unreplicated.Service.{answers, null_reply, serves_history}
use tidyup.Unreplicated.Replica
use tidyup.Unreplicated.Replica.{ListenThread, EffectThread, Replica}

-- What a request adds to what the main thread has sent: nothing, or one reply.
handle_request-sends :
    (m : MainThread) (message : Request)
    → ((Server.handle_request m message).to_effect ≡ m.to_effect)
      ⊎ ((sent : SocketAddr × Reply) × ((Server.handle_request m message).to_effect
            ≡ m.to_effect ++ sent ∷ []))
unfolding Server.handle_request Server.execute_request App.execute
handle_request-sends m message =
    elim (classify_cases (HashMap.get m.client_table message.client_id) message) [
      | inl (inl fresh) ↦
          inr ((message.addr, null_reply message.request_number), ground (arith, fresh))
      | inl (inr outdated) ↦ inl (ground (arith, outdated))
      | inr (reply, repeated, held) ↦ inr ((message.addr, reply), ground (arith, repeated))
    ]

module _ (requests : Bincode Request) where
  -- The datagrams are read as the requests.
  abbrev pub AreRequests : List (SocketAddr × Bytes) → List Request → Type 0
  AreRequests [] [] = Unit {0}
  AreRequests ((remote, datagram) ∷ rest) (message ∷ messages) =
      (requests.deserialize (take 1500 datagram) ≡ some message) × AreRequests rest messages
  AreRequests _ _ = ⊥

module _ (write : Reply → Bytes) where
  -- the datagram of a reply
  abbrev pub datagram_of : SocketAddr × Reply → SocketAddr × Bytes
  datagram_of (dest, reply) = (dest, write reply)

  map-push :
      (earlier : List (SocketAddr × Bytes)) (sent : List (SocketAddr × Reply))
      (last : SocketAddr × Reply)
      → (earlier ++ map datagram_of sent) ++ datagram_of last ∷ []
        ≡ earlier ++ map datagram_of (sent ++ last ∷ [])
  map-push earlier [] last = ap (λ l. l ++ datagram_of last ∷ []) (append-nil earlier)
  map-push earlier (d ∷ sent) last =
      append_assoc earlier (map datagram_of (d ∷ sent)) (datagram_of last ∷ [])
      ∙ ap (λ l. earlier ++ datagram_of d ∷ l) (map-push [] sent last)

module _ (requests : Bincode Request) (replies : Bincode Reply) (write : Reply → Bytes) where
  -- Both channels are empty, and each reply of the main thread was sent after the earlier datagrams.
  record IsDrained (earlier : List (SocketAddr × Bytes)) (r : Replica) : Type 0 where
    socket : r.listen.rx ≡ udp
    main : r.main_received ≡ length r.listen.to_main
    effect : r.effect_received ≡ length r.main.to_effect
    sent : r.effect.tx.sent ≡ earlier ++ map (datagram_of write) r.main.to_effect

  -- One poll takes the request through the three threads.
  poll-IsDrained :
      (earlier : List (SocketAddr × Bytes)) (r : Replica) (remote : SocketAddr) (datagram : Bytes)
      (message : Request)
      → ((reply : Reply) → replies.serialize reply ≡ some (write reply))
      → requests.deserialize (take 1500 datagram) ≡ some message
      → IsDrained earlier r
      → (t : Replica) × (Replica.poll requests replies r (received (remote, datagram))
          ≡ ok (true, t))
        × IsDrained earlier t
        × (t.main ≡ Server.handle_request r.main message)
  unfolding Replica.poll Replica.listen_poll Replica.shared_poll receive_from Server.poll
  poll-IsDrained earlier r remote datagram message written read d =
      elim (handle_request-sends r.main message) [
        | inl quiet ↦
            let t : Replica = record {
              main = Server.handle_request r.main message;
              listen = record r.listen { to_main = r.listen.to_main ++ message ∷ [] };
              effect = r.effect;
              main_received = r.main_received + 1;
              effect_received = r.effect_received;
            } in
            (
              t,
              ground (
                arith,
                read,
                d.socket,
                d.main,
                d.effect,
                quiet,
                get_elem?-push_self r.listen.to_main message,
                get_elem?-eq_none r.main.to_effect (length r.main.to_effect) (omega arith),
              ),
              record {
                socket = d.socket;
                main = omega (arith, d.main, length-append r.listen.to_main (message ∷ []));
                effect = d.effect ∙ ap length (sym quiet);
                sent = d.sent ∙ ap (λ l. earlier ++ map (datagram_of write) l) (sym quiet);
              },
              refl,
            )
        | inr (reply, says) ↦
            let t : Replica = record {
              main = Server.handle_request r.main message;
              listen = record r.listen { to_main = r.listen.to_main ++ message ∷ [] };
              effect = record {
                tx = record { sent = r.effect.tx.sent ++ datagram_of write reply ∷ [] };
              };
              main_received = r.main_received + 1;
              effect_received = r.effect_received + 1;
            } in
            (
              t,
              ground (
                arith,
                read,
                d.socket,
                d.main,
                d.effect,
                says,
                written reply.1,
                get_elem?-push_self r.listen.to_main message,
                get_elem?-push_self r.main.to_effect reply,
              ),
              record {
                socket = d.socket;
                main = omega (arith, d.main, length-append r.listen.to_main (message ∷ []));
                effect =
                    ground (arith, d.effect, says, length-append r.main.to_effect (reply ∷ []));
                sent =
                    ap (λ l. l ++ datagram_of write reply ∷ []) d.sent
                    ∙ map-push write earlier r.main.to_effect reply
                    ∙ ap (λ l. earlier ++ map (datagram_of write) l) (sym says);
              },
              refl,
            )
      ]

  run-IsDrained :
      (earlier : List (SocketAddr × Bytes)) (r : Replica) (datagrams : List (SocketAddr × Bytes))
      (messages : List Request)
      → ((reply : Reply) → replies.serialize reply ≡ some (write reply))
      → AreRequests requests datagrams messages
      → IsDrained earlier r
      → (t : Replica) × (Replica.run requests replies r datagrams ≡ ok t)
        × IsDrained earlier t
        × (t.main ≡ Server.run r.main messages)
  unfolding Replica.run Server.run Server.poll
  run-IsDrained earlier r [] [] written are d = (r, refl, d, refl)
  run-IsDrained earlier r [] (message ∷ messages) written are d = absurd are
  run-IsDrained earlier r ((remote, datagram) ∷ rest) [] written are d = absurd are
  run-IsDrained earlier r ((remote, datagram) ∷ rest) (message ∷ messages) written (read, are) d =
      let (s, polled, drained, main) =
        poll-IsDrained earlier r remote datagram message written read d in
      let (t, runs, drained', main') = run-IsDrained earlier s rest messages written are drained in
      (t, rw polled runs, drained', main' ∙ ap (λ m. Server.run m messages) main)

  -- A new replica with a UDP socket that is polled once for each of any datagrams, which bincode
  -- reads as requests, returns if bincode writes each reply: its main thread is one that has
  -- received the requests in this order, and the replica has sent, after what was sent before, the
  -- answers to them, each written by bincode and to its request's address, in this order.
  pub replica_serves :
      (earlier datagrams : List (SocketAddr × Bytes)) (messages : List Request)
      → ((reply : Reply) → replies.serialize reply ≡ some (write reply))
      → AreRequests requests datagrams messages
      → (r : Replica) × (Replica.run requests replies
            (Replica.new App.null (record { sent = earlier }) udp)
            datagrams
          ≡ ok r)
        × (r.main ≡ Server.run (Server.new App.null) messages)
        × (r.effect.tx.sent ≡ earlier ++ map (datagram_of write) (answers [] messages))
  unfolding Replica.new Server.new
  replica_serves earlier datagrams messages written are =
      let start : IsDrained earlier (Replica.new App.null (record { sent = earlier }) udp) =
        record { socket = refl; main = refl; effect = refl; sent = sym (append-nil earlier) } in
      let (r, runs, drained, main) = run-IsDrained earlier _ datagrams messages written are start in
      let (log, number, table, sent) = serves_history messages in
      (
        r,
        runs,
        main,
        drained.sent
            ∙ ap (λ (m : MainThread). earlier ++ map (datagram_of write) m.to_effect) main
            ∙ ap (λ l. earlier ++ map (datagram_of write) l) sent,
      )
