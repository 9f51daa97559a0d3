-- ===== src/Program/BenchClient.antt =====
-- src/program/bench_client.rs, Program: a closed loop of clients over one socket each.
pub mod Running
mod Examples
pub mod Timed
pub mod InStep
pub mod Start
pub mod Rounds
pub mod Clients
use tidyup.Common.{
  ℕ, zero, suc, ◌+◌, ◌%◌, ◌^◌, ◌≡◌, Bool, true, false, not, Option, none, some, List, [], ◌∷◌, map,
  Outcome, ok, panic, Panic, ◌>>=◌, ◌>>◌, assert, unwrap, if◌then◌else◌, length, get_elem?, set,
  replicate, pair_eq, nat_eq,
}
use tidyup.Common.BTreeSet
use tidyup.Common.BTreeSet.{BTreeSet}
use tidyup.Core.{Received}
use tidyup.Core.Clock.{OptionInstant, never, instant_le, instant_eq}
use tidyup.Core.ClientState.{ClientState}
use tidyup.Message.{Bytes, SocketAddr}
use tidyup.Program.Timers.{instant_key, timer_order}

-- What one poll of a client finds: the time, and what its socket gives.
abbrev pub Input : Type 0
Input = ℕ × Received (SocketAddr × Bytes)

-- `n_result` is a counter that the threads share; this is its value while no other one adds.
pub record Program (S : Type 0) : Type 0 where
  pub clients : List S
  pub poll_instants : List OptionInstant
  pub instant_polls : BTreeSet (OptionInstant × ℕ)
  pub n_result : ℕ

-- (0..n).map(|i| (Default::default(), i)), from the index `i` on
abbrev pub no_timers : (i n : ℕ) → List (OptionInstant × ℕ)
no_timers i zero = []
no_timers i (suc n) = (never, i) ∷ no_timers (suc i) n

-- Program::new, of its clients. The sockets and the epoll instance are the system's.
unfoldable pub new : {S : Type 0} → List S → Program S
new clients = record {
  clients = clients;
  poll_instants = replicate (length clients) never;
  instant_polls = BTreeSet.collect (no_timers 0 (length clients));
  n_result = 0;
}

-- items[i]
abbrev pub index {ℓ} : {A : Type ℓ} → List A → ℕ → Outcome A
index items i = elim (get_elem? items i) [ none ↦ panic Panic.out_of_bounds | some a ↦ ok a ]

-- What one round of the main loop finds: the polls of the client whose timer is first, the
-- clients that epoll_wait names if it is called, and the poll of the first one.
pub record Round : Type 0 where
  pub timer_polls : List Input
  pub woken : List ℕ
  pub event_poll : Input

-- the events that are left, or those that epoll_wait gives
abbrev pub events_or : List ℕ → List ℕ → List ℕ
events_or [] woken = woken
events_or events woken = events

-- The system's clock shows the same during one call of poll_client.
module _ {S : Type 0} (state : ClientState S) where
  abbrev pub with_client : Program S → ℕ → S → Program S
  with_client p i client = record p { clients = set p.clients i client }

  -- a result was taken: count it, and invoke the next operation
  abbrev pub next_op : Program S → ℕ → S → ℕ → Outcome (Program S)
  next_op p i client now = state.invoke client [] now >>= λ invoked.
      ok (record p { clients = set p.clients i invoked; n_result = (p.n_result + 1) % 2 ^ 32 })

  unfoldable pub poll_client : Program S → ℕ → Input → Outcome (Bool × Program S)
  poll_client p i (now, incoming) = do
    client ← index p.clients i
    (poll_again, polled) ← state.poll client now incoming
    let (result, taken) = state.take_result polled
    elim result [
      | none ↦ ok (poll_again, with_client p i taken)
      | some _ ↦ next_op p i taken now >>= λ t. ok (poll_again, t)
    ]

  -- the timer of client `i` moves from `old` to `poll_at`
  abbrev pub move_timer : Program S → ℕ → (old poll_at : OptionInstant) → Program S
  move_timer p i old poll_at = record p {
    instant_polls = BTreeSet.insert (BTreeSet.remove p.instant_polls (old, i)) (poll_at, i);
    poll_instants = set p.poll_instants i poll_at;
  }

  unfoldable pub update_timer : Program S → ℕ → Outcome (Program S)
  update_timer p i = do
    client ← index p.clients i
    old ← index p.poll_instants i
    let poll_at = state.poll_at client
    if instant_eq poll_at old
        then ok p
        else assert (BTreeSet.contains p.instant_polls (old, i)) >> ok (move_timer p i old poll_at)

  -- while self.poll_client(i) {}, with what each poll finds
  unfoldable pub poll_while : Program S → ℕ → List Input → Outcome (Program S)
  poll_while p i [] = panic Panic.no_fuel
  poll_while p i (input ∷ rest) =
      poll_client p i input >>= λ r. elim r.0 [ true ↦ poll_while r.1 i rest | false ↦ ok r.1 ]

  abbrev pub poll_and_update : Program S → ℕ → List Input → Outcome (Program S)
  poll_and_update p i inputs = poll_while p i inputs >>= λ t. update_timer t i

  -- for client in &mut self.clients[..]
  unfoldable pub invoke_all : List S → ℕ → Outcome (List S)
  invoke_all [] now = ok []
  invoke_all (client ∷ rest) now = do
    invoked ← state.invoke client [] now
    others ← invoke_all rest now
    ok (invoked ∷ others)

  -- for i in 0..self.clients.len(), with what the polls of each client find
  unfoldable pub poll_all : Program S → (i : ℕ) → List (List Input) → Outcome (Program S)
  poll_all p i [] = ok p
  poll_all p i (inputs ∷ rest) = poll_and_update p i inputs >>= λ t. poll_all t (suc i) rest

  -- the part of a round that looks at the timers
  unfoldable pub serve_timer : Program S → List Input → Outcome (Program S)
  serve_timer p inputs = do
    (poll_at, i) ← unwrap (BTreeSet.first p.instant_polls)
    if not (instant_le never poll_at) then poll_and_update p i inputs else ok p

  -- the part of a round that looks at the events
  unfoldable pub serve_event : Program S → List ℕ → Input → Outcome (Program S × List ℕ)
  serve_event p [] input = ok (p, [])
  serve_event p (i ∷ events) input = poll_client p i input >>= λ r. elim r.0 [
    | true ↦ ok (r.1, i ∷ events)
    | false ↦ update_timer r.1 i >>= λ t. ok (t, events)
  ]

  unfoldable pub round : Program S → List ℕ → Round → Outcome (Program S × List ℕ)
  round p events found = do
    served ← serve_timer p found.timer_polls
    serve_event served (events_or events found.woken) found.event_poll

  unfoldable pub rounds : Program S → List ℕ → List Round → Outcome (Program S)
  rounds p events [] = ok p
  rounds p events (found ∷ rest) = round p events found >>= λ r. rounds r.0 r.1 rest

  -- Program::run, for as many rounds as the run's duration has
  unfoldable pub run : Program S → (now : ℕ) → List (List Input) → List Round → Outcome (Program S)
  run p now first_polls found = do
    clients ← invoke_all p.clients now
    started ← poll_all (record p { clients = clients }) 0 first_polls
    rounds started [] found
