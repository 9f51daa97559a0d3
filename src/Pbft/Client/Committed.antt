-- ===== src/Pbft/Client/Committed.antt =====
-- A result is committed when more replicas than may be faulty have replied to the request.
use tidyup.Common.{
  ℕ, ◌≤◌, ◌<◌, ◌≡◌, sym, Option, some, List, [], ◌∷◌, ◌++◌, ok, arith, nat_eq, length,
}
use tidyup.Common.HashMap
use tidyup.Common.HashMap.{HashMap}
use tidyup.Core.ClientState.{ClientCommon, Call, run}
use tidyup.Message.{Secp, Bytes, Reply}
use tidyup.Message.Bincode.{Bincode}
use tidyup.Message.Pbft.{ToReplica}
use tidyup.Pbft.Client.{Client, new, client_state, counted}
use tidyup.Pbft.Client.Moves.{
  with_op, Sends-Keeps, arrived_since, Hears, not_waiting, other_request, count, commit, Moves,
  Moves-rx, start, resend, hand_over, hear, here,
}
use tidyup.Pbft.Client.Runs.{run-Moves}
use tidyup.Pbft.Client.Votes.{
  Drains, voters, IsHeard, IsHeard-push, Tally, new-Tally, with_op-Tally,
}
use tidyup.Pbft.Client.Counting.{
  Keeps-Tally, voters-ignore, counted-sizes, counted-keys, counted-values, outcome-push,
}

module _ {C : Secp} (requests : Bincode (ToReplica C)) (replies : Bincode Reply)
    (pick : HashMap ℕ Bytes → Option (ℕ × Bytes)) (drains : Drains pick) where
  Hears-Tally :
      (payloads : List Bytes) (c : Client C) (payload : Bytes) (t : Client C)
      → Hears requests replies pick c payload t
      → Tally replies payloads c
      → Tally replies (payloads ++ payload ∷ []) t
  Hears-Tally payloads c payload t (not_waiting free) y = record {
    idle = y.idle;
    sizes = λ op e. cc;
    few = λ op e. cc;
    keys = λ op e. cc;
    values =
        λ k v found. IsHeard-push replies c.request_number payloads payload v (y.values k v found);
    outcome = outcome-push replies payloads c payload y;
  }
  Hears-Tally payloads c payload t (other_request op m waits decoded other) y =
      let same = voters-ignore replies c.request_number payloads payload m decoded other in
      record {
        idle = y.idle;
        sizes = rw same y.sizes;
        few = rw same y.few;
        keys = rw same y.keys;
        values = λ k v found.
            IsHeard-push replies c.request_number payloads payload v (y.values k v found);
        outcome = outcome-push replies payloads c payload y;
      }
  Hears-Tally payloads c payload t (count op m waits decoded same few) y =
      let sizes = counted-sizes replies payloads c op payload m waits decoded same y in
      record {
        idle = λ e. cc;
        sizes = λ o e. sizes;
        few = λ o e. omega (arith, sizes, few);
        keys = λ o e. counted-keys replies payloads c op payload m waits decoded same y;
        values = counted-values replies payloads c payload m decoded same y;
        outcome = outcome-push replies payloads c payload y;
      }
  Hears-Tally payloads c payload t (commit op m id result waits decoded same many picked) y =
      record {
        idle = λ e. (HashMap.size-empty ℕ Bytes, λ k. HashMap.get-empty k);
        sizes = λ o e. cc;
        few = λ o e. cc;
        keys = λ o e. cc;
        values = λ k v e. cc (HashMap.get-empty {V = Bytes} k);
        outcome = λ r e. (
          omega (arith, many, counted-sizes replies payloads c op payload m waits decoded same y),
          counted-values replies payloads c payload m decoded same y id r
              (ground (arith, drains (counted c m).results, picked, e, many)),
        );
      }

  Moves-Tally :
      (c : Client C) (payloads : List Bytes) (t : Client C)
      → Moves requests replies pick c payloads t
      → Tally replies [] c
      → Tally replies payloads t
  Moves-Tally c _ t here y = y
  Moves-Tally c _ t (start {payloads} {s} op now earlier free sent) y =
      Keeps-Tally replies [] (with_op s op) t (Sends-Keeps requests (with_op s op) now sent)
        (with_op-Tally replies payloads s op free (Moves-Tally c payloads s earlier y))
  Moves-Tally c payloads t (resend {s} now due earlier timer passed sent) y =
      Keeps-Tally replies payloads s t (Sends-Keeps requests s now sent)
        (Moves-Tally c payloads s earlier y)
  Moves-Tally c payloads t (hand_over {s} earlier) y =
      let before = Moves-Tally c payloads s earlier y in
      record {
        idle = before.idle;
        sizes = before.sizes;
        few = before.few;
        keys = before.keys;
        values = before.values;
        outcome = λ r e. cc;
      }
  Moves-Tally c _ t (hear {payloads} {s} payload earlier heard) y =
      Hears-Tally payloads s payload t heard (Moves-Tally c payloads s earlier y)

  -- After any calls of a new client that return: a result that it has committed is the result of
  -- a reply to its current request, among the datagrams since the request was invoked, and more
  -- than f different replicas are named by such replies. While it waits, at most f replicas are.
  -- The condition is that `drain().next()` gives an entry of a map that is not empty.
  pub committed_by_quorum :
      (common : ClientCommon C) (calls : List Call) {c : Client C}
      → run (client_state requests replies pick) (new common) calls ≡ ok c
      → let payloads = arrived_since common.rx [] calls in
        let ids = voters replies c.request_number [] payloads in
        ((result : Bytes)
          → c.committed_result ≡ some result
          → (common.config.f < length ids) × IsHeard replies c.request_number payloads result)
        × ((op : Bytes) → c.op ≡ some op → length ids ≤ common.config.f)
  unfolding new
  committed_by_quorum common calls {c} returned =
      let moves =
        run-Moves requests replies pick (new common) [] (new common) calls here returned in
      let y = Moves-Tally (new common) _ c moves (new-Tally replies common) in
      let config = (Moves-rx requests replies pick (new common) c _ moves).1 in
      (rw (sym config) y.outcome, rw (sym config) y.few)
