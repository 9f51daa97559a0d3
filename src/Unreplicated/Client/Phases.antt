-- ===== src/Unreplicated/Client/Phases.antt =====
-- A client is idle, or waits for the reply to one request with its timer set.
use tidyup.Common.{ℕ, ◌≡◌, refl, none, some, List, [], ok}
use tidyup.Core.Clock.{at, never}
use tidyup.Core.ClientState.{ClientCommon, Call, run}
use tidyup.Message.{Secp, Bytes, Request, Reply}
use tidyup.Message.Bincode.{Bincode}
use tidyup.Unreplicated.Client.{Client, new, client_state}
use tidyup.Unreplicated.Client.Moves.{
  Sends, sends, Move, start, resend, hand_over, complete, Moves, here, next, run-Moves,
}

module _ {C : Secp} where
  pub data Phase (c : Client C) : Type 0 where
    idle : c.op ≡ none → c.resend_instant ≡ never → Phase c
    waiting :
        (op : Bytes) (t : ℕ) → c.op ≡ some op → c.resend_instant ≡ at t → c.result ≡ none → Phase c

module _ {C : Secp} (requests : Bincode Request) (replies : Bincode Reply) where
  Sends-Phase :
      (c : Client C) (now : ℕ) {t : Client C} → c.result ≡ none → Sends requests c now t → Phase t
  Sends-Phase c now empty (sends op payload dest has_op serialized found) =
      waiting op _ has_op refl empty

  Move-Phase : (c t : Client C) → Move requests replies c t → Phase c → Phase t
  Move-Phase c t (resend now due timer passed sent) (idle free unset) = cc
  Move-Phase c t (resend now due timer passed sent) (waiting op at_time has_op set empty) =
      Sends-Phase c now empty sent
  Move-Phase c t hand_over (idle free unset) = idle free unset
  Move-Phase c t hand_over (waiting op at_time has_op set empty) =
      waiting op at_time has_op set refl
  Move-Phase c t (complete op payload message has_op decoded same) before = idle refl refl

  Moves-Phase :
      (c : Client C) (ops : List Bytes) (t : Client C)
      → Moves requests replies c ops t
      → Phase c
      → Phase t
  Moves-Phase c _ t here before = before
  Moves-Phase c _ t (start op now earlier free sent) before = Sends-Phase _ now refl sent
  Moves-Phase c _ t (next {ops} {s} earlier move) before =
      Move-Phase s t move (Moves-Phase c ops s earlier before)

  -- After any calls of a new client that return, the client is idle, without an operation and
  -- without a timer, or it waits, with an operation, a timer that is set, and no result.
  pub client_phases :
      (common : ClientCommon C) (calls : List Call) {c : Client C}
      → run (client_state requests replies) (new common) calls ≡ ok c
      → Phase c
  unfolding new
  client_phases common calls {c} returned =
      Moves-Phase (new common) _ c
        (run-Moves requests replies (new common) [] (new common) calls here returned)
        (idle refl refl)
