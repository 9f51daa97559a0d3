-- ===== src/Pbft/Client/Votes.antt =====
-- The votes of the replicas for a client's current request.
use tidyup.Common.{
  ℕ, ◌≤◌, ◌<◌, ◌≡◌, refl, ◌∙◌, ◌⊎◌, Bool, true, false, not, ◌&&◌, Option, none, some, List, [], ◌∷◌,
  ◌++◌, arith, nat_beq, nat_eq, is_some, if◌then◌else◌, length, get_elem?, get_elem?-push_lt,
  get_elem?-lt,
}
use tidyup.Common.HashMap
use tidyup.Common.HashMap.{HashMap}
use tidyup.Core.ClientState.{ClientCommon}
use tidyup.Message.{Secp, Bytes, Reply}
use tidyup.Message.Bincode.{Bincode}
use tidyup.Pbft.Client.{Client, new}
use tidyup.Pbft.Client.Moves.{with_op}

abbrev pub member : ℕ → List ℕ → Bool
member k [] = false
member k (j ∷ rest) = let later = member k rest in if nat_beq j k then true else later

pub member-push :
    (k j : ℕ) (l : List ℕ) → member k (l ++ j ∷ []) ≡ (if nat_beq j k then true else member k l)
member-push k j [] = refl
member-push k j (i ∷ l) = ground (arith, member-push k j l)

-- `drain().next()` on a map: an entry, unless it is empty.
abbrev pub Drains : (HashMap ℕ Bytes → Option (ℕ × Bytes)) → Type 0
Drains pick =
    (m : HashMap ℕ Bytes)
    → (HashMap.size m ≡ 0)
      ⊎ ((entry : ℕ × Bytes) × (pick m ≡ some entry) × (HashMap.get m entry.0 ≡ some entry.1))

module _ (replies : Bincode Reply) where
  abbrev pub with_voter : ℕ → List ℕ → Bytes → List ℕ
  with_voter number ids payload = elim (replies.deserialize payload) [
    | none ↦ ids
    | some m ↦
        if nat_beq m.request_number number && not (member m.replica_id ids)
        then ids ++ m.replica_id ∷ []
        else ids
  ]

  -- The replicas, besides the given ones, from which a reply to the request is among the datagrams;
  -- each of them once.
  abbrev pub voters : ℕ → List ℕ → List Bytes → List ℕ
  voters number ids [] = ids
  voters number ids (payload ∷ rest) = voters number (with_voter number ids payload) rest

  pub voters-push :
      (number : ℕ) (ids : List ℕ) (payloads : List Bytes) (payload : Bytes)
      → voters number ids (payloads ++ payload ∷ [])
        ≡ with_voter number (voters number ids payloads) payload
  voters-push number ids [] payload = refl
  voters-push number ids (p ∷ rest) payload =
      voters-push number (with_voter number ids p) rest payload

  -- One of the datagrams is a reply to the request with this result.
  abbrev pub IsHeard : ℕ → List Bytes → Bytes → Type 0
  IsHeard number payloads result =
      (i : ℕ) × (payload : Bytes) × (message : Reply) × (get_elem? payloads i ≡ some payload)
      × (replies.deserialize payload ≡ some message)
      × (message.request_number ≡ number)
      × (message.result ≡ result)

  pub IsHeard-push :
      (number : ℕ) (payloads : List Bytes) (payload result : Bytes)
      → IsHeard number payloads result
      → IsHeard number (payloads ++ payload ∷ []) result
  IsHeard-push number payloads payload result (i, p, m, found, decoded, same, r) = (
    i,
    p,
    m,
    get_elem?-push_lt payloads payload i (get_elem?-lt payloads i found) ∙ found,
    decoded,
    same,
    r,
  )

  module _ {C : Secp} where
    -- What the client knows of the votes for its current request.
    pub record Tally (payloads : List Bytes) (c : Client C) : Type 0 where
      pub idle :
          c.op ≡ none → (HashMap.size c.results ≡ 0) × ((k : ℕ) → HashMap.get c.results k ≡ none)
      pub sizes :
          (op : Bytes)
          → c.op ≡ some op
          → HashMap.size c.results ≡ length (voters c.request_number [] payloads)
      pub few :
          (op : Bytes)
          → c.op ≡ some op
          → length (voters c.request_number [] payloads) ≤ c.common.config.f
      pub keys :
          (op : Bytes)
          → c.op ≡ some op
          → (k : ℕ)
          → is_some (HashMap.get c.results k) ≡ member k (voters c.request_number [] payloads)
      pub values :
          (k : ℕ) (v : Bytes)
          → HashMap.get c.results k ≡ some v
          → IsHeard c.request_number payloads v
      pub outcome :
          (result : Bytes)
          → c.committed_result ≡ some result
          → (c.common.config.f < length (voters c.request_number [] payloads))
            × IsHeard c.request_number payloads result

    pub new-Tally : (common : ClientCommon C) → Tally [] (new common)
    unfolding new
    new-Tally common = record {
      idle = λ e. (HashMap.size-empty ℕ Bytes, λ k. HashMap.get-empty k);
      sizes = λ op e. cc;
      few = λ op e. cc;
      keys = λ op e. cc;
      values = λ k v e. cc (HashMap.get-empty {V = Bytes} k);
      outcome = λ result e. cc;
    }

    pub with_op-Tally :
        (payloads : List Bytes) (c : Client C) (op : Bytes)
        → c.op ≡ none
        → Tally payloads c
        → Tally [] (with_op c op)
    with_op-Tally payloads c op free t =
        let (none_yet, nothing) = t.idle free in
        record {
          idle = λ e. cc;
          sizes = λ o e. none_yet;
          few = λ o e. omega arith;
          keys = λ o e k. ground (arith, nothing k);
          values = λ k v e. cc (nothing k);
          outcome = λ result e. cc;
        }
