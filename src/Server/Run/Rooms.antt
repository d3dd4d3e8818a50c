-- ===== src/Server/Run/Rooms.antt =====
-- The loop of `runRooms` as a sequence of the steps of the server.
use boomberman.Server.Reach.{Reach, Step}
use boomberman.Server.Run.{Running}
use boomberman.Server.Lobby.{Lobby}
use boomberman.Base.{none, some, Option}

-- What every handled event keeps of the state, a loop keeps.
module _ {ℓ κ ι} {E : Type ℓ} {S : Type κ} (handle : E → S → Option S) (P : S → Type ι) where
  Keeps : Option (Running S) → Type ι
  Keeps none = Unit {ι}
  Keeps (some t) = P t.state

StepIfAny : Lobby → Option Lobby → Type 0
StepIfAny l none = Unit {0}
StepIfAny l (some l') = Step l l'
