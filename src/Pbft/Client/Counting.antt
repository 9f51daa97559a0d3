-- ===== src/Pbft/Client/Counting.antt =====
-- How a client's votes change with a datagram.
use tidyup.Common.{
  ℕ, ◌≤◌, ◌<◌, ◌≡◌, inl, inr, false, some, List, [], ◌∷◌, ◌++◌, arith, nat_beq, nat_beq_iff, nat_eq,
  is_some, if◌then◌else◌, Bool-cases, Option-cases, length, length-append, get_elem?-push_self,
}
use tidyup.Common.HashMap
use tidyup.Common.HashMap.{HashMap}
use tidyup.Message.{Secp, Bytes, Reply}
use tidyup.Message.Bincode.{Bincode}
use tidyup.Pbft.Client.{Client, counted}
use tidyup.Pbft.Client.Moves.{Keeps}
use tidyup.Pbft.Client.Votes.{
  member, member-push, voters, voters-push, IsHeard, IsHeard-push, Tally,
}

module _ (replies : Bincode Reply) where
  voters-grow :
      (number : ℕ) (payloads : List Bytes) (payload : Bytes)
      → length (voters replies number [] payloads)
        ≤ length (voters replies number [] (payloads ++ payload ∷ []))
  voters-grow number payloads payload =
      let ids = voters replies number [] payloads in
      elim (Option-cases (replies.deserialize payload)) [
        | inl e ↦ ground (arith, voters-push replies number [] payloads payload)
        | inr (m, e) ↦ ground (
          arith,
          voters-push replies number [] payloads payload,
          length-append ids (m.replica_id ∷ []),
        )
      ]

  -- another replica's reply is counted, a second one of the same replica is not
  voters-count :
      (number : ℕ) (payloads : List Bytes) (payload : Bytes) (m : Reply)
      → replies.deserialize payload ≡ some m
      → m.request_number ≡ number
      → let ids = voters replies number [] payloads in
        voters replies number [] (payloads ++ payload ∷ [])
        ≡ (if member m.replica_id ids then ids else ids ++ m.replica_id ∷ [])
  voters-count number payloads payload m decoded same =
      ground
        (arith, voters-push replies number [] payloads payload, nat_beq_iff m.request_number number)

  pub voters-ignore :
      (number : ℕ) (payloads : List Bytes) (payload : Bytes) (m : Reply)
      → replies.deserialize payload ≡ some m
      → nat_beq m.request_number number ≡ false
      → voters replies number [] (payloads ++ payload ∷ []) ≡ voters replies number [] payloads
  voters-ignore number payloads payload m decoded other =
      ground (arith, voters-push replies number [] payloads payload)

module _ {C : Secp} (replies : Bincode Reply) where
  pub Keeps-Tally :
      (payloads : List Bytes) (c t : Client C)
      → Keeps c t
      → Tally replies payloads c
      → Tally replies payloads t
  Keeps-Tally payloads c t k y = record {
    idle = rw (k.op, k.results) y.idle;
    sizes = rw (k.op, k.results, k.request_number) y.sizes;
    few = rw (k.op, k.config, k.request_number) y.few;
    keys = rw (k.op, k.results, k.request_number) y.keys;
    values = rw (k.results, k.request_number) y.values;
    outcome = rw (k.committed_result, k.config, k.request_number) y.outcome;
  }

  pub counted-sizes :
      (payloads : List Bytes) (c : Client C) (op payload : Bytes) (m : Reply)
      → c.op ≡ some op
      → replies.deserialize payload ≡ some m
      → m.request_number ≡ c.request_number
      → Tally replies payloads c
      → HashMap.size (counted c m).results
        ≡ length (voters replies c.request_number [] (payloads ++ payload ∷ []))
  counted-sizes payloads c op payload m waits decoded same y =
      let ids = voters replies c.request_number [] payloads in
      ground (
        arith,
        voters-count replies c.request_number payloads payload m decoded same,
        y.sizes op waits,
        y.keys op waits m.replica_id,
        HashMap.size-insert c.results m.replica_id m.result,
        length-append ids (m.replica_id ∷ []),
      )

  pub counted-keys :
      (payloads : List Bytes) (c : Client C) (op payload : Bytes) (m : Reply)
      → c.op ≡ some op
      → replies.deserialize payload ≡ some m
      → m.request_number ≡ c.request_number
      → Tally replies payloads c
      → (k : ℕ)
      → is_some (HashMap.get (counted c m).results k)
        ≡ member k (voters replies c.request_number [] (payloads ++ payload ∷ []))
  counted-keys payloads c op payload m waits decoded same y k =
      let ids = voters replies c.request_number [] payloads in
      ground (
        arith,
        voters-count replies c.request_number payloads payload m decoded same,
        y.keys op waits m.replica_id,
        y.keys op waits k,
        HashMap.get-insert c.results m.replica_id k m.result,
        member-push k m.replica_id ids,
        nat_beq_iff m.replica_id k,
      )

  pub counted-values :
      (payloads : List Bytes) (c : Client C) (payload : Bytes) (m : Reply)
      → replies.deserialize payload ≡ some m
      → m.request_number ≡ c.request_number
      → Tally replies payloads c
      → (k : ℕ) (v : Bytes) → HashMap.get (counted c m).results k ≡ some v
      → IsHeard replies c.request_number (payloads ++ payload ∷ []) v
  counted-values payloads c payload m decoded same y k v found =
      elim (Bool-cases (nat_beq m.replica_id k)) [
        | inl e ↦ (
          length payloads,
          payload,
          m,
          get_elem?-push_self payloads payload,
          decoded,
          same,
          ground (arith, HashMap.get-insert c.results m.replica_id k m.result),
        )
        | inr e ↦
            IsHeard-push replies c.request_number payloads payload v
              (y.values k v (ground (arith, HashMap.get-insert c.results m.replica_id k m.result)))
      ]

  -- More datagrams leave a committed result as it is.
  pub outcome-push :
      (payloads : List Bytes) (c : Client C) (payload : Bytes)
      → Tally replies payloads c
      → (result : Bytes) → c.committed_result ≡ some result
      → (c.common.config.f < length (voters replies c.request_number [] (payloads ++ payload ∷ [])))
        × IsHeard replies c.request_number (payloads ++ payload ∷ []) result
  outcome-push payloads c payload y result has =
      let (quorum, heard) = y.outcome result has in
      (
        omega (arith, quorum, voters-grow replies c.request_number payloads payload),
        IsHeard-push replies c.request_number payloads payload result heard,
      )
