-- ===== src/Server/Run.antt =====
-- The loops of `runLobby`, `runRooms` and `runBombs` in game/src/server/Server.cpp, and how a signal ends them. What `epoll_wait`
-- returns is a list of batches; a loop that has had them all waits for more. `none` is undefined behaviour.
use boomberman.Server.{serve_room, serve_bomb}
use boomberman.Server.Loop.{serve_lobby, find_assignment, Incoming}
use boomberman.Server.Reach.{put_served, accepted}
use boomberman.Message.{Message, Net}
use boomberman.Server.Lobby.{find_room, Lobby}
pub mod Rooms
mod Tests
use boomberman.Base.{
  ap, map, ◌∙◌, if-true, refl, inr, inl, Option-cases, subst, ◌>>=◌, if◌then◌else◌, arith, none, [],
  some, String, ◌||◌, ℤ, true, false, ◌≡◌, Option, List, Bool, ◌∷◌, ℕ,
}

-- `shouldEnd` tells the event of the signal from the others.
pub data Arrival {ℓ} (E : Type ℓ) : Type ℓ where
  signal : Arrival E
  event : E → Arrival E

-- `end`, which is read at the head of the loop, and the state.
pub record Running {ℓ} (S : Type ℓ) : Type ℓ where
  pub end : Bool
  pub state : S

-- The shape of the loops, for what they do with an event. The signal ends those of the lobby and of the rooms.
module _ {ℓ κ} {E : Type ℓ} {S : Type κ} (handle : E → S → Option S) where
  unfoldable pub serve_arrival : Arrival E → Running S → Option (Running S)
  serve_arrival signal t = some (record t { end = true })
  serve_arrival (event e) t = elim (handle e t.state) [
    | none ↦ none
    | some s ↦ some (record t { state = s })
  ]

  unfoldable pub serve_batch : List (Arrival E) → Running S → Option (Running S)
  serve_batch [] t = some t
  serve_batch (a ∷ batch) t = do t' ← serve_arrival a t; serve_batch batch t'

  unfoldable pub run : List (List (Arrival E)) → Running S → Option (Running S)
  run [] t = some t
  run (batch ∷ batches) t = if t.end then some t else (do t' ← serve_batch batch t; run batches t')

-- An event of `runLobby`: one that is not for reading, a connection to accept (nothing, where `accept` fails), or a
-- client's.
pub data LobbyEvent : Type 0 where
  other : LobbyEvent
  connection : Option ℕ → LobbyEvent
  client : Net → ℕ → ℤ → ℕ → Option Incoming → List (Option Incoming) → LobbyEvent

unfoldable pub handle_lobby_event : LobbyEvent → Lobby → Option Lobby
handle_lobby_event other l = some l
handle_lobby_event (connection none) l = some l
handle_lobby_event (connection (some c)) l = some (accepted c l)
handle_lobby_event (client net now step c first more) l = serve_lobby net now step c first more l

unfoldable pub run_lobby : List (List (Arrival LobbyEvent)) → Running Lobby → Option (Running Lobby)
run_lobby = run handle_lobby_event

-- An event of `runRooms`, for a player by his socket, with what `Receive` returns.
pub data RoomEvent : Type 0 where
  player_event : Net → ℕ → ℕ → Option Message → RoomEvent

unfoldable pub handle_room_event : RoomEvent → Lobby → Option Lobby
handle_room_event (player_event net now c received) l = do
  name ← find_assignment c l.server.room_assignments
  r ← find_room name l.rooms
  v ← serve_room net now c received r l.server
  some (put_served name v l)

unfoldable pub run_rooms : List (List (Arrival RoomEvent)) → Running Lobby → Option (Running Lobby)
run_rooms = run handle_room_event

-- An event of `runBombs`: a bomb, for a room by its name, or the signal. The latter's event holds a descriptor, no
-- pointer to a `BombInRoom`, whose `fd` is closed all the same: undefined, so this loop has no `signal` of its own.
pub data BombEvent : Type 0 where
  bomb_event : Net → ℕ → ℕ → ℕ → String → BombEvent
  bomb_signal : BombEvent

unfoldable pub handle_bomb_event : BombEvent → Lobby → Option Lobby
handle_bomb_event bomb_signal l = none
handle_bomb_event (bomb_event net now time drawn name) l = do
  r ← find_room name l.rooms
  v ← serve_bomb net now time drawn r l.server
  some (put_served name v l)

unfoldable pub run_bombs : List (List BombEvent) → Running Lobby → Option (Running Lobby)
unfolding handle_bomb_event run serve_batch serve_arrival
run_bombs batches = run handle_bomb_event (map (map event) batches)

abbrev pub is_signal {ℓ} : {E : Type ℓ} → Arrival E → Bool
is_signal signal = true
is_signal (event e) = false

abbrev pub has_signal {ℓ} : {E : Type ℓ} → List (Arrival E) → Bool
has_signal [] = false
has_signal (a ∷ batch) = is_signal a || has_signal batch

module _ {ℓ κ} {E : Type ℓ} {S : Type κ} (handle : E → S → Option S) where
  -- The flag after a batch, if it comes to its end.
  IsEnded : Bool → Option (Running S) → Type 0
  IsEnded b none = Unit {0}
  IsEnded b (some t) = t.end ≡ b

  serve_batch-IsEnded :
      (batch : List (Arrival E)) (t : Running S)
      → IsEnded (t.end || has_signal batch) (serve_batch handle batch t)
  unfolding serve_batch serve_arrival IsEnded
  serve_batch-IsEnded [] t = ground arith
  serve_batch-IsEnded (signal ∷ batch) t =
      subst (λ b. IsEnded b (serve_batch handle batch (record t { end = true }))) (ground arith)
        (serve_batch-IsEnded batch (record t { end = true }))
  serve_batch-IsEnded (event e ∷ batch) t = elim (Option-cases (handle e t.state)) [
    | inl k ↦ rw (serve_batch, serve_arrival, k) tt
    | inr (s, k) ↦
        rw (serve_batch, serve_arrival, k) (serve_batch-IsEnded batch (record t { state = s }))
  ]

  run-ended :
      (later : List (List (Arrival E))) (o : Option (Running S))
      → IsEnded true o
      → (o >>= run handle later) ≡ o
  unfolding run IsEnded
  run-ended later none h = refl
  run-ended [] (some t) h = refl
  run-ended (batch ∷ later) (some t) h = if-true t.end _ _ h

  -- The events of a batch but for the signals, and what comes of them one after the other.
  abbrev pub events : List (Arrival E) → List E
  events [] = []
  events (signal ∷ batch) = events batch
  events (event e ∷ batch) = e ∷ events batch

  unfoldable pub serve_all : List E → S → Option S
  serve_all [] s = some s
  serve_all (e ∷ es) s = elim (handle e s) [ none ↦ none | some s' ↦ serve_all es s' ]

  abbrev pub running : Bool → Option S → Option (Running S)
  running b none = none
  running b (some s) = some (record { end = b; state = s })

  serve_batch-serve_all :
      (batch : List (Arrival E)) (b : Bool) (s : S)
      → serve_batch handle batch (record { end = b; state = s })
        ≡ running (b || has_signal batch) (serve_all (events batch) s)
  unfolding serve_batch serve_arrival serve_all
  serve_batch-serve_all [] b s = ap (λ k. some (record { end = k; state = s })) (ground arith)
  serve_batch-serve_all (signal ∷ batch) b s =
      serve_batch-serve_all batch true s
      ∙ ap (λ k. running k (serve_all (events batch) s)) (ground arith)
  serve_batch-serve_all (event e ∷ batch) b s = elim (Option-cases (handle e s)) [
    | inl gone ↦ rw (serve_batch, serve_arrival, serve_all, gone) refl
    | inr (s', done) ↦
        rw (serve_batch, serve_arrival, serve_all, done) (serve_batch-serve_all batch b s')
  ]

  -- A loop of the lobby or of the rooms that still runs and gets the signal serves all the other events of that batch in their
  -- order, also those behind the signal, and then ends: it serves nothing of what would come later.
  pub run-ends :
      (batch : List (Arrival E)) (later : List (List (Arrival E))) (s : S)
      → has_signal batch ≡ true
      → run handle (batch ∷ later) (record { end = false; state = s })
        ≡ running true (serve_all (events batch) s)
  unfolding run
  run-ends batch later s there =
      let t : Running S = record { end = false; state = s } in
      run-ended later (serve_batch handle batch t) (
        subst (λ (b : Bool). IsEnded b (serve_batch handle batch t)) there
          (serve_batch-IsEnded batch t))
      ∙ serve_batch-serve_all batch false s
      ∙ ap (λ k. running k (serve_all (events batch) s)) there
