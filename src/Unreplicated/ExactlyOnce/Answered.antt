-- ===== src/Unreplicated/ExactlyOnce/Answered.antt =====
-- What is answered has been executed, as far as the histories tell.
use tidyup.Common.{
  ℕ, suc, ◌≤◌, ◌≡◌, refl, ap, subst, inl, inr, Bool, true, ◌&&◌, Option, none, some, List, leb, [],
  ◌∷◌, ◌++◌, arith, get_elem?, get_elem?-cons, nat_beq, nat_beq_iff, Option-cases, Bool-cases,
}
use tidyup.History.{highest, highest-append, is_below, is_new, new_requests, times}
use tidyup.Message.{Request, Reply, SocketAddr}
use tidyup.Unreplicated.Service.{answers, is_answered, null_reply}

-- No request of the history's highest is above the number.
abbrev pub is_within : Option ℕ → ℕ → Bool
is_within none number = true
is_within (some top) number = leb top number

record Backed (history messages : List Request) (addr : SocketAddr) (number : ℕ) : Type 0 where
  message : Request
  at : ℕ
  found : get_elem? messages at ≡ some message
  same_addr : message.addr ≡ addr
  same_number : message.request_number ≡ number
  within : is_within (highest message.client_id history) number ≡ true
  executed :
      is_below (highest message.client_id history) number ≡ true
      → 1 ≤ times message.client_id number (new_requests history messages)

step-Backed :
    (history : List Request) (m : Request) (rest : List Request) (client number : ℕ)
    → is_within (highest client (history ++ m ∷ [])) number ≡ true
    → (is_below (highest client (history ++ m ∷ [])) number ≡ true
        → 1 ≤ times client number (new_requests (history ++ m ∷ []) rest))
    → (is_within (highest client history) number ≡ true)
      × (is_below (highest client history) number ≡ true
          → 1 ≤ times client number (new_requests history (m ∷ rest)))
step-Backed history m rest client number within executed =
    let after = highest-append client history (m ∷ []) in
    let key = nat_beq_iff client m.client_id in
    elim (Option-cases (highest client history)) [
      | inl e ↦ (
        ground (arith, after, key, within, e),
        λ below.
            ground (arith, after, key, within, executed, e, nat_beq_iff number m.request_number),
      )
      | inr (top, e) ↦ (
        ground (arith, after, key, within, e),
        λ below.
            ground (arith, after, key, within, executed, e, nat_beq_iff number m.request_number),
      )
    ]

later-Backed :
    (history : List Request) (m : Request) (rest : List Request) (addr : SocketAddr) (number : ℕ)
    → Backed (history ++ m ∷ []) rest addr number
    → Backed history (m ∷ rest) addr number
later-Backed history m rest addr number b =
    let (within, executed) =
      step-Backed history m rest b.message.client_id number b.within b.executed in
    record {
      message = b.message;
      at = suc b.at;
      found = b.found;
      same_addr = b.same_addr;
      same_number = b.same_number;
      within = within;
      executed = executed;
    }

first-Backed :
    (history : List Request) (m : Request) (rest : List Request)
    → is_answered history m ≡ true
    → Backed history (m ∷ rest) m.addr m.request_number
first-Backed history m rest answered = record {
  message = m;
  at = 0;
  found = refl;
  same_addr = refl;
  same_number = refl;
  within = ground (arith, answered, Option-cases (highest m.client_id history));
  executed = λ below. ground (
    arith,
    below,
    nat_beq_iff m.client_id m.client_id,
    nat_beq_iff m.request_number m.request_number,
  );
}

-- Each answer is to a request that was received.
answers-Backed :
    (history messages : List Request) (addr : SocketAddr) (reply : Reply) (i : ℕ)
    → get_elem? (answers history messages) i ≡ some (addr, reply)
    → Backed history messages addr reply.request_number
answers-Backed history [] addr reply i found = cc
answers-Backed history (m ∷ rest) addr reply i found = elim (Bool-cases (is_answered history m)) [
  | inr quiet ↦
      later-Backed history m rest addr reply.request_number
        (answers-Backed (history ++ m ∷ []) rest addr reply i (ground (arith, quiet, found)))
  | inl answered ↦
      elim (get_elem?-cons (m.addr, null_reply m.request_number) (answers (history ++ m ∷ []) rest)
        i {y = (addr, reply)} (ground (arith, answered, found))) [
          | inl (first, head) ↦
              let addr_is : m.addr ≡ addr = ap (λ p. p.0) head in
              let number_is : m.request_number ≡ reply.request_number =
                ap (λ p. p.1.request_number) head in
              subst (λ a. Backed history (m ∷ rest) a reply.request_number) addr_is
                (subst (λ n. Backed history (m ∷ rest) m.addr n) number_is
                  (first-Backed history m rest answered))
          | inr (j, next, tail) ↦
              later-Backed history m rest addr reply.request_number
                (answers-Backed (history ++ m ∷ []) rest addr reply j tail)
        ]
]

-- A request that is counted is there.
pub times-found :
    (client number : ℕ) (xs : List Request)
    → 1 ≤ times client number xs
    → (k : ℕ) × (m : Request) × (get_elem? xs k ≡ some m)
      × (m.client_id ≡ client)
      × (m.request_number ≡ number)
times-found client number [] some_time = absurd (omega arith)
times-found client number (x ∷ xs) some_time =
    elim (Bool-cases (nat_beq client x.client_id && nat_beq number x.request_number)) [
      | inl this ↦ (0, x, refl, ground (arith, this), ground (arith, this))
      | inr other ↦
          let (k, m, found, same_client, same_number) =
            times-found client number xs (ground (arith, other, some_time)) in
          (suc k, m, found, same_client, same_number)
    ]

-- What is new was received.
pub new_requests-received :
    (history messages : List Request) (k : ℕ) {m : Request}
    → get_elem? (new_requests history messages) k ≡ some m
    → (j : ℕ) × (get_elem? messages j ≡ some m)
new_requests-received history [] k found = cc
new_requests-received history (x ∷ rest) k {m} found = elim (Bool-cases (is_new history x)) [
  | inr old ↦
      let (j, there) =
        new_requests-received (history ++ x ∷ []) rest k (ground (arith, old, found)) in
      (suc j, there)
  | inl fresh ↦
      elim (get_elem?-cons x (new_requests (history ++ x ∷ []) rest) k {y = m}
        (ground (arith, fresh, found))) [
          | inl (first, head) ↦ (0, ap some head)
          | inr (l, next, tail) ↦
              let (j, there) = new_requests-received (history ++ x ∷ []) rest l tail in
              (suc j, there)
        ]
]

-- An answer names a number that its client's request has in the log.
pub answered-executed :
    (messages : List Request) (addr : SocketAddr) (reply : Reply) (i : ℕ)
    → get_elem? (answers [] messages) i ≡ some (addr, reply)
    → (message : Request) × (j : ℕ) × (get_elem? messages j ≡ some message)
      × (message.addr ≡ addr)
      × (message.request_number ≡ reply.request_number)
      × (1 ≤ times message.client_id reply.request_number (new_requests [] messages))
answered-executed messages addr reply i found =
    let b = answers-Backed [] messages addr reply i found in
    (b.message, b.at, b.found, b.same_addr, b.same_number, b.executed refl)
