-- ===== src/Unreplicated/Client/Requests.antt =====
-- What a client sends: only the requests that it was asked for, each under its own number.
use tidyup.Common.{
  ℕ, ◌+◌, ◌%◌, ◌^◌, ◌≡◌, refl, sym, some, List, [], ◌∷◌, ◌++◌, ok, arith, length, get_elem?, Each,
  Each-push, length-append, get_elem?-push_self, get_elem?-push_lt, get_elem?-lt,
}
use tidyup.Core.ClientState.{ClientCommon, Call, run, invoked}
use tidyup.Message.{Secp, Bytes, Request, Reply, SocketAddr}
use tidyup.Message.Bincode.{Bincode}
use tidyup.Unreplicated.Client.{Client, new, client_state, current_request}
use tidyup.Unreplicated.Client.Moves.{
  with_op, Sends, sends, Move, resend, hand_over, complete, Moves, here, start, next, run-Moves,
}

-- request `i` of the client
abbrev pub numbered : {C : Secp} → ClientCommon C → ℕ → Bytes → Request
numbered common i op = record {
  client_id = common.id;
  request_number = (i + 1) % 2 ^ 32;
  op = op;
  addr = common.rx_addr;
}

module _ {C : Secp} (requests : Bincode Request) (common : ClientCommon C) where
  -- A datagram that carries one of the requests to the server.
  abbrev pub IsRequest : List Bytes → SocketAddr × Bytes → Type 0
  IsRequest ops (dest, payload) =
      (i : ℕ) × (op : Bytes) × (get_elem? ops i ≡ some op)
      × (requests.serialize (numbered common i op) ≡ some payload)
      × (get_elem? common.config.replica 0 ≡ some dest)

  IsRequest-push :
      (ops : List Bytes) (op : Bytes) (d : SocketAddr × Bytes)
      → IsRequest ops d
      → IsRequest (ops ++ op ∷ []) d
  IsRequest-push ops op (dest, payload) (i, o, found, serialized, address) = (
    i,
    o,
    ground (arith, get_elem?-push_lt ops op i (get_elem?-lt ops i found)),
    serialized,
    address,
  )

  record Tracks (ops : List Bytes) (c : Client C) : Type 0 where
    id : c.common.id ≡ common.id
    rx_addr : c.common.rx_addr ≡ common.rx_addr
    config : c.common.config ≡ common.config
    number : c.request_number ≡ length ops % 2 ^ 32
    -- the operation that waits is the last one
    current :
        (op : Bytes) → c.op ≡ some op → (i : ℕ) × (length ops ≡ i + 1) × (get_elem? ops i ≡ some op)
    sent : Each (IsRequest ops) c.common.tx.sent

  Sends-Tracks :
      (ops : List Bytes) (c : Client C) (now : ℕ) {t : Client C}
      → Sends requests c now t
      → Tracks ops c
      → Tracks ops t
  Sends-Tracks ops c now (sends op payload dest has_op serialized address) before = record {
    id = before.id;
    rx_addr = before.rx_addr;
    config = before.config;
    number = before.number;
    current = before.current;
    sent =
        Each-push (IsRequest ops) c.common.tx.sent (dest, payload) before.sent
          (this before (before.current op has_op) serialized);
  }
    where
      this :
          Tracks ops c
          → (i : ℕ) × (length ops ≡ i + 1) × (get_elem? ops i ≡ some op)
          → requests.serialize (current_request c op) ≡ some payload
          → IsRequest ops (dest, payload)
      this t (i, long, found) s = (
        i,
        op,
        found,
        rw (sym t.id, sym t.rx_addr, sym long, sym t.number) s,
        rw (sym t.config) address,
      )

  with_op-Tracks :
      (ops : List Bytes) (c : Client C) (op : Bytes)
      → Tracks ops c
      → Tracks (ops ++ op ∷ []) (with_op c op)
  with_op-Tracks ops c op before = record {
    id = before.id;
    rx_addr = before.rx_addr;
    config = before.config;
    number = omega (arith, before.number, length-append ops (op ∷ []));
    current = λ o same.
        (length ops, length-append ops (op ∷ []), ground (arith, get_elem?-push_self ops op));
    sent = λ j d found. IsRequest-push ops op d (before.sent j d found);
  }

module _ {C : Secp} (requests : Bincode Request) (replies : Bincode Reply)
    (common : ClientCommon C) where
  Move-Tracks :
      (ops : List Bytes) (c t : Client C)
      → Move requests replies c t
      → Tracks requests common ops c
      → Tracks requests common ops t
  Move-Tracks ops c t (resend now due timer passed sent) before =
      Sends-Tracks requests common ops c now sent before
  Move-Tracks ops c t hand_over before = record {
    id = before.id;
    rx_addr = before.rx_addr;
    config = before.config;
    number = before.number;
    current = before.current;
    sent = before.sent;
  }
  Move-Tracks ops c t (complete op payload message has_op decoded same) before = record {
    id = before.id;
    rx_addr = before.rx_addr;
    config = before.config;
    number = before.number;
    current = λ o none_left. cc;
    sent = before.sent;
  }

  Moves-Tracks :
      (c : Client C) (ops : List Bytes) (t : Client C)
      → Moves requests replies c ops t
      → Tracks requests common [] c
      → Tracks requests common ops t
  Moves-Tracks c _ t here before = before
  Moves-Tracks c _ t (start {ops} {s} op now earlier free sent) before =
      Sends-Tracks requests common (ops ++ op ∷ []) (with_op s op) now sent
        (with_op-Tracks requests common ops s op (Moves-Tracks c ops s earlier before))
  Moves-Tracks c _ t (next {ops} {s} earlier move) before =
      Move-Tracks ops s t move (Moves-Tracks c ops s earlier before)

  -- Each datagram that a new client gives to the network, in any calls that return, goes to the
  -- server, and is the serialisation of a request that holds the client's id and address, one of
  -- the operations that were invoked, and the position of this among them, from 1, as a u32.
  pub client_requests :
      (calls : List Call) {c : Client C}
      → common.tx.sent ≡ []
      → run (client_state requests replies) (new common) calls ≡ ok c
      → Each (IsRequest requests common (invoked [] calls)) c.common.tx.sent
  unfolding new
  client_requests calls {c} unsent returned =
      (Moves-Tracks (new common) _ c
        (run-Moves requests replies (new common) [] (new common) calls here returned)
        start_state).sent
    where
      start_state : Tracks requests common [] (new common)
      start_state = record {
        id = refl;
        rx_addr = refl;
        config = refl;
        number = refl;
        current = λ op none_yet. cc;
        sent = λ j d found. ground (arith, unsent);
      }
