-- ===== src/Core/Reliable.antt =====
-- What a program that runs clients relies on: the laws of src/core.rs's trait ClientState.
use tidyup.Common.{ℕ, ◌≡◌, ◌⊎◌, Bool, false, none, some, ok}
use tidyup.Core.{Received, empty}
use tidyup.Core.Clock.{OptionInstant, at, never}
use tidyup.Core.ClientState.{ClientState}
use tidyup.Message.{Bytes, SocketAddr}

abbrev pub IsTimerSet : OptionInstant → Type 0
IsTimerSet instant = (t : ℕ) × (instant ≡ at t)

-- Without a timer a client is idle, with one it waits. `Readable` says of what a socket gives that
-- the client can read it.
pub record Reliable {S : Type 0} (client : ClientState S)
    (Readable : Received (SocketAddr × Bytes) → Type 0) : Type 1 where
  pub Valid : S → Type 0
  pub invoke-returns :
      (s : S) (op : Bytes) (now : ℕ)
      → Valid s
      → client.poll_at s ≡ never
      → (t : S) × (client.invoke s op now ≡ ok t) × Valid t × IsTimerSet (client.poll_at t)
  -- A poll leaves the client waiting without a result, or idle with one.
  pub poll-returns :
      (s : S) (now : ℕ) (incoming : Received (SocketAddr × Bytes))
      → Valid s
      → IsTimerSet (client.poll_at s)
      → Readable incoming
      → (again : Bool) × (t : S) × (client.poll s now incoming ≡ ok (again, t))
        × Valid t
        × ((((client.take_result t).0 ≡ none) × IsTimerSet (client.poll_at t))
            ⊎ ((result : Bytes) × ((client.take_result t).0 ≡ some result)
                × (client.poll_at t ≡ never)))
  pub poll-empty :
      (s : S) (now : ℕ) {again : Bool} {t : S}
      → client.poll s now empty ≡ ok (again, t)
      → again ≡ false
  pub take_result-keeps :
      (s : S)
      → Valid s
      → Valid (client.take_result s).1
        × (client.poll_at (client.take_result s).1 ≡ client.poll_at s)
