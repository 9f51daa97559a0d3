-- ===== src/Simulated/Delivery.antt =====
-- Polling the network until it is empty is the same as filtering and sorting what was sent.
use tidyup.Common.{
  ℕ, suc, ◌<◌, ◌≡◌, refl, sym, ap, subst, ◌∙◌, inl, inr, Bool, true, false, Option, none, some,
  List, [], ◌∷◌, ◌++◌, ok, arith, if◌then◌else◌, length, get_elem?, set, length-set,
  get_elem?-set_self, get_elem?-set_ne, get_elem?-eq_some, Each, Bool-cases, nat_beq,
}
use mathlib.Core.List.{append_assoc, append-nil}
use tidyup.Common.HashMap
use tidyup.Common.HashMap.{HashMap}
use tidyup.Message.{Secp, Bytes, SocketAddr}
use tidyup.Simulated.{Network, Packet, Filter, poll, poll_while}
use tidyup.Simulated.Addresses.{addr_eq}

-- What the routes send to the channel.
abbrev goes_to : Option ℕ → ℕ → Bool
goes_to none channel = false
goes_to (some c) channel = nat_beq c channel

abbrev pub deliveries : HashMap SocketAddr ℕ → ℕ → List Packet → List (SocketAddr × Bytes)
deliveries routes channel [] = []
deliveries routes channel ((source, dest, buffer) ∷ rest) =
    let later = deliveries routes channel rest in
    if goes_to (HashMap.get routes dest) channel then (source, buffer) ∷ later else later

-- One packet is put on its channel, and others follow.
added :
    (routes : HashMap SocketAddr ℕ) (before : List (List (SocketAddr × Bytes))) (channel : ℕ)
    (queue : List (SocketAddr × Bytes)) (source dest : SocketAddr) (buffer : Bytes)
    (rest : List Packet) (after : List (List (SocketAddr × Bytes)))
    → HashMap.get routes dest ≡ some channel
    → get_elem? before channel ≡ some queue
    → channel < length before
    → ((c : ℕ) (sent : List (SocketAddr × Bytes))
        → get_elem? (set before channel (queue ++ (source, buffer) ∷ [])) c ≡ some sent
        → get_elem? after c ≡ some (sent ++ deliveries routes c rest))
    → (c : ℕ) (sent : List (SocketAddr × Bytes)) → get_elem? before c ≡ some sent
    → get_elem? after c ≡ some (sent ++ deliveries routes c ((source, dest, buffer) ∷ rest))
added routes before channel queue source dest buffer rest after known at_channel within later c sent
      found =
    elim (Bool-cases (nat_beq channel c)) [
      | inl same ↦
          let is : channel ≡ c = ground (arith, same) in
          let put = later c (queue ++ (source, buffer) ∷ []) (
            subst
              (λ k.
                get_elem? (set before channel (queue ++ (source, buffer) ∷ [])) k
                ≡ some (queue ++ (source, buffer) ∷ []))
              is (get_elem?-set_self before channel (queue ++ (source, buffer) ∷ []) within)) in
          let same_queue : queue ≡ sent =
            ground (arith, subst (λ k. get_elem? before k ≡ some queue) is at_channel, found) in
          ground (
            arith,
            known,
            same,
            put,
            same_queue,
            append_assoc queue ((source, buffer) ∷ []) (deliveries routes c rest),
          )
      | inr other ↦ ground (
        arith,
        known,
        other,
        later c sent (
            get_elem?-set_ne before channel c (queue ++ (source, buffer) ∷ [])
              (ground (arith, other))
            ∙ found),
      )
    ]

module _ {S : Type 0} (filter : Filter S) where
  -- What the filter lets through, asked in order, and its state then.
  abbrev pub passed : S → List Packet → List Packet
  passed s [] = []
  passed s ((source, dest, buffer) ∷ rest) =
      let later = passed (filter s source dest buffer).1 rest in
      if (filter s source dest buffer).0 then (source, dest, buffer) ∷ later else later

  abbrev pub filtered : S → List Packet → S
  filtered s [] = s
  filtered s ((source, dest, buffer) ∷ rest) = filtered (filter s source dest buffer).1 rest

  passed-passes :
      (s : S) (source dest : SocketAddr) (buffer : Bytes) (rest : List Packet)
      → (filter s source dest buffer).0 ≡ true
      → passed s ((source, dest, buffer) ∷ rest)
        ≡ (source, dest, buffer) ∷ passed (filter s source dest buffer).1 rest
  passed-passes s source dest buffer rest passes = ground (arith, passes)

  passed-stops :
      (s : S) (source dest : SocketAddr) (buffer : Bytes) (rest : List Packet)
      → (filter s source dest buffer).0 ≡ false
      → passed s ((source, dest, buffer) ∷ rest) ≡ passed (filter s source dest buffer).1 rest
  passed-stops s source dest buffer rest stops = ground (arith, stops)

  module _ {C : Secp} where
    -- The packet's destination has a route.
    abbrev pub IsRouted : Network C → Packet → Type 0
    IsRouted net packet =
        (channel : ℕ) × (HashMap.get net.routes packet.1 ≡ some channel)
        × (channel < length net.channels)

    delivers :
        (queue : List Packet) (s : S) (net : Network C)
        → Each (IsRouted net) (passed s queue)
        → (channels : List (List (SocketAddr × Bytes))) × (poll_while filter
              (suc (length queue))
              s
              (record net { tx = queue })
            ≡ ok (filtered s queue, record net { tx = []; channels = channels }))
          × (length channels ≡ length net.channels)
          × ((c : ℕ) (sent : List (SocketAddr × Bytes))
              → get_elem? net.channels c ≡ some sent
              → get_elem? channels c ≡ some (sent ++ deliveries net.routes c (passed s queue)))
    unfolding poll_while poll
    delivers [] s net routed =
        (net.channels, refl, refl, λ c sent found. found ∙ ap some (sym (append-nil sent)))
    delivers ((source, dest, buffer) ∷ rest) s net routed =
        elim (Bool-cases (filter s source dest buffer).0) [
          | inr stops ↦
              let stop = passed-stops s source dest buffer rest stops in
              let (channels, ran, long, all) =
                delivers rest (filter s source dest buffer).1 net
                  (subst (Each (IsRouted net)) stop routed) in
              (channels, ground (arith, stops, ran), long, rw stop all)
          | inl passes ↦
              let pass = passed-passes s source dest buffer rest passes in
              let routed' : Each (IsRouted net)
                  ((source, dest, buffer) ∷ passed (filter s source dest buffer).1 rest) =
                subst (Each (IsRouted net)) pass routed in
              let (channel, known, within) = routed' 0 (source, dest, buffer) refl in
              let (queue, at_channel) = get_elem?-eq_some net.channels channel within in
              let net' : Network C = record net {
                channels = set net.channels channel (queue ++ (source, buffer) ∷ []);
              } in
              let (channels, ran, long, all) =
                delivers rest (filter s source dest buffer).1 net' (λ i packet found.
                  let (c, has_route, below) = routed' (suc i) packet found in
                  (
                    c,
                    has_route,
                    rw (length-set net.channels channel (queue ++ (source, buffer) ∷ [])) below,
                  )) in
              (
                channels,
                ground (arith, passes, known, at_channel, ran),
                long ∙ length-set net.channels channel _,
                rw pass (
                    added net.routes net.channels channel queue source dest buffer
                      (passed (filter s source dest buffer).1 rest) channels known at_channel within
                      all),
              )
        ]

    -- If each packet that the filter lets through has a route, polling the network until it is
    -- empty returns, with one call more than there are packets. Then nothing is queued; the filter
    -- has been asked about each packet in order; each channel has got, after what it had, the
    -- packets let through whose destination is routed to it, in order; and nothing else has changed.
    pub poll_while_delivers :
        (s : S) (net : Network C)
        → Each (IsRouted net) (passed s net.tx)
        → (channels : List (List (SocketAddr × Bytes))) × (poll_while filter
              (suc (length net.tx))
              s
              net
            ≡ ok (filtered s net.tx, record net { tx = []; channels = channels }))
          × (length channels ≡ length net.channels)
          × ((c : ℕ) (sent : List (SocketAddr × Bytes))
              → get_elem? net.channels c ≡ some sent
              → get_elem? channels c ≡ some (sent ++ deliveries net.routes c (passed s net.tx)))
    poll_while_delivers s net routed = delivers net.tx s net routed
