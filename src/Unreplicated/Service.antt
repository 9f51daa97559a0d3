-- ===== src/Unreplicated/Service.antt =====
-- What a sequence of requests leads to: the specification of the server, over the requests that it
-- has received, and that the server meets it.
use tidyup.Common.{
  ℕ, ◌≤◌, ◌%◌, ◌^◌, ◌≡◌, refl, sym, ap, ◌∙◌, inl, inr, Bool, false, ◌||◌, Option, none, some, List,
  [], ◌∷◌, ◌++◌, arith, nat_eq, nat_beq, nat_beq_iff, if◌then◌else◌, Bool-cases, length,
  length-append,
}
use mathlib.Core.List.{append_assoc, append-nil}
use tidyup.Common.HashMap
use tidyup.App
use tidyup.App.{App}
use tidyup.History.{
  highest, is_new, new_requests, new_requests-append, highest-append, times, times-new_requests-le,
}
use tidyup.Message.{Request, Reply, SocketAddr}
use tidyup.Unreplicated.Server.{MainThread, new, execute_request, handle_request, poll, run}

-- App::Null gives an empty result; the server leaves the other fields at 0.
abbrev pub null_reply : ℕ → Reply
null_reply number = record { request_number = number; result = []; replica_id = 0; view_number = 0 }

abbrev pub reply_to_highest : Option ℕ → Option Reply
reply_to_highest none = none
reply_to_highest (some number) = some (null_reply number)

abbrev pub is_newest : Option ℕ → ℕ → Bool
is_newest none number = false
is_newest (some newest) number = nat_beq newest number

-- The answer to a request after the history: to a new one and to a repetition of the newest one.
abbrev pub is_answered : List Request → Request → Bool
is_answered history message =
    is_new history message || is_newest (highest message.client_id history) message.request_number

-- What is sent for a sequence of requests that follows the history.
abbrev pub answers : List Request → List Request → List (SocketAddr × Reply)
answers history [] = []
answers history (message ∷ rest) =
    let later = answers (history ++ message ∷ []) rest in
    if is_answered history message
    then (message.addr, null_reply message.request_number) ∷ later
    else later

-- The state of a server that has received the history.
pub record Serves (history : List Request) (m : MainThread) : Type 0 where
  pub table :
      (client : ℕ) → HashMap.get m.client_table client ≡ reply_to_highest (highest client history)
  pub log : m.log ≡ new_requests [] history
  pub op_number : m.op_number ≡ length m.log % 2 ^ 32

new-Serves : Serves [] (new App.null)
unfolding new
new-Serves = record { table = λ client. HashMap.get-empty client; log = refl; op_number = refl }

handle_request-table :
    (m : MainThread) (history : List Request) (message : Request)
    → Serves history m
    → (client : ℕ)
    → HashMap.get (handle_request m message).client_table client
      ≡ reply_to_highest (highest client (history ++ message ∷ []))
unfolding handle_request execute_request App.execute
handle_request-table m history message s client = ground (
  arith,
  s.table client,
  s.table message.client_id,
  highest-append client history (message ∷ []),
  nat_beq_iff client message.client_id,
  nat_beq_iff message.client_id client,
  HashMap.get-insert m.client_table message.client_id client (null_reply message.request_number),
)

handle_request-log :
    (m : MainThread) (history : List Request) (message : Request)
    → Serves history m
    → ((handle_request m message).log ≡ new_requests [] (history ++ message ∷ []))
      × ((handle_request m message).op_number ≡ length (handle_request m message).log % 2 ^ 32)
unfolding handle_request execute_request App.execute
handle_request-log m history message s =
    let log = s.log in
    let op_number = s.op_number in
    ground (
      arith,
      log,
      op_number,
      s.table message.client_id,
      new_requests-append [] history (message ∷ []),
      append-nil (new_requests [] history),
      length-append m.log (message ∷ []),
    )

handle_request-to_effect :
    (m : MainThread) (history : List Request) (message : Request)
    → Serves history m
    → (handle_request m message).to_effect ≡ m.to_effect ++ answers history (message ∷ [])
unfolding handle_request execute_request App.execute
handle_request-to_effect m history message s =
    ground (arith, s.table message.client_id, append-nil m.to_effect)

answers-cons :
    (history rest : List Request) (message : Request)
    → answers history (message ∷ rest)
      ≡ answers history (message ∷ []) ++ answers (history ++ message ∷ []) rest
answers-cons history rest message = elim (Bool-cases (is_answered history message)) [
  | inl e ↦ rw e
  | inr e ↦ rw e
]

run-Serves :
    (m : MainThread) (history messages : List Request)
    → Serves history m
    → Serves (history ++ messages) (run m messages)
      × ((run m messages).to_effect ≡ m.to_effect ++ answers history messages)
unfolding run poll
run-Serves m history [] s = (rw (append-nil history) s, sym (append-nil m.to_effect))
run-Serves m history (message ∷ rest) s =
    let (log, op_number) = handle_request-log m history message s in
    let served : Serves (history ++ message ∷ []) (handle_request m message) = record {
      table = handle_request-table m history message s;
      log = log;
      op_number = op_number;
    } in
    let (later, sent) =
      run-Serves (handle_request m message) (history ++ message ∷ []) rest served in
    let first = handle_request-to_effect m history message s in
    (
      rw (sym (append_assoc history (message ∷ []) rest)) later,
      sent ∙ rw (first, answers-cons history rest message) (append_assoc m.to_effect _ _),
    )

-- A server that starts empty and receives any sequence of requests executes, in order, exactly the
-- requests that are new when they come, and logs these; its client table holds a reply to each
-- client's highest number and nothing else; it answers the new requests and the repetitions of a
-- client's newest request, in order, and nothing else.
pub serves_history :
    (messages : List Request)
    → let m = run (new App.null) messages in
      (m.log ≡ new_requests [] messages)
      × (m.op_number ≡ length (new_requests [] messages) % 2 ^ 32)
      × ((client : ℕ)
          → HashMap.get m.client_table client ≡ reply_to_highest (highest client messages))
      × (m.to_effect ≡ answers [] messages)
unfolding new
serves_history messages =
    let (s, sent) = run-Serves (new App.null) [] messages new-Serves in
    (s.log, s.op_number ∙ ap (λ l. length l % 2 ^ 32) s.log, s.table, sent)

-- However often a request is repeated, its number is executed at most once for its client.
pub executed_once :
    (messages : List Request) (client number : ℕ)
    → times client number (run (new App.null) messages).log ≤ 1
executed_once messages client number =
    rw (serves_history messages).0 (times-new_requests-le client number [] messages).0
