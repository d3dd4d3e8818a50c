-- ===== src/Client/Play.antt =====
-- One turn of the loop in `Client::Run` of game/src/client/Client.cpp, up to the drawing. `none` is undefined behaviour: no
-- player to read, or a square outside the board.
use boomberman.Message.{i_leave, i_move, of_int, i_place_bomb, Message}
use boomberman.Client.{new_bomb, move, try_extinguish, Bomb, EntityHandler, Boomberman}
use boomberman.Map.{Map}
use text.Mathlib.Text.{◌==◌ as str_eq}
use boomberman.Base.{
  negsuc, pos, ◌>>=◌, ◌+ℤ◌, true, if◌then◌else◌, false, ◌∷◌, ◌++◌, none, some, [], Option, List, ℤ,
  String, Bool, ℕ,
}

-- The keys that were pressed.
pub record Keys : Type 0 where
  pub space : Bool
  pub right : Bool
  pub left : Bool
  pub up : Bool
  pub down : Bool
  pub escape : Bool

-- The client's own player and the messages it has sent in this turn.
pub record Turn : Type 0 where
  pub local : Boomberman
  pub sends : List Message

-- One of the four arrow keys: `x` and `y` are where the player was when the turn began.
unfoldable pub step_key : Bool → Map → ℤ → ℤ → ℤ → ℤ → Turn → Option Turn
step_key false m x y dx dy t = some t
step_key true m x y dx dy t = elim (move m x y dx dy t.local) [
  | none ↦ none
  | some moved ↦
      if moved.1
      then some (record {
        local = moved.0;
        sends = t.sends ++ i_move (of_int (x +ℤ dx)) (of_int (y +ℤ dy)) ∷ [];
      })
      else some (record t { local = moved.0 })
]

abbrev pub press_space : Bool → ℕ → ℤ → ℤ → List Bomb → List Bomb
press_space false now x y bombs = bombs
press_space true now x y bombs = bombs ++ new_bomb x y 3 25 now 3 false ∷ []

abbrev pub if_pressed : Bool → Message → List Message
if_pressed false m = []
if_pressed true m = m ∷ []

-- The arrow keys in their order, and the escape key.
unfoldable pub play_keys : Keys → Map → Boomberman → Option Turn
unfolding step_key
play_keys k m b = do
  let start : Turn = record {
    local = b;
    sends = if_pressed k.space (i_place_bomb (of_int b.x) (of_int b.y));
  }
  t1 ← step_key k.right m b.x b.y (pos 1) (pos 0) start
  t2 ← step_key k.left m b.x b.y (negsuc 0) (pos 0) t1
  t3 ← step_key k.up m b.x b.y (pos 0) (negsuc 0) t2
  t4 ← step_key k.down m b.x b.y (pos 0) (pos 1) t3
  some (record t4 { sends = t4.sends ++ if_pressed k.escape i_leave })

-- The turn of the player whose name was the first one's when the game started.
unfoldable pub play_turn :
    String → Keys → ℕ → ℕ → Map → EntityHandler → Option (EntityHandler × List Message)
play_turn true_local_name k now nanos m eh =
    let cooled = try_extinguish nanos eh in
    elim (eh.players) [
      | [] ↦ none
      | b ∷ others ↦
          if str_eq b.pseudonim true_local_name
          then elim (play_keys k m b) [
            | none ↦ none
            | some t ↦ some (
              record cooled {
                players = t.local ∷ others;
                bombs = press_space k.space now b.x b.y eh.bombs;
              },
              t.sends,
            )
          ]
          else some (cooled, [])
    ]
