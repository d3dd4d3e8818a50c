-- ===== src/Room/Disconnect/Laws.antt =====
-- `Room::DisconnectPlayers` as a whole.
use boomberman.Room.Explosion.Settle.{length-Marks}
use boomberman.Room.Disconnect.Erase.{erase_players-Erases, Erases}
use boomberman.Room.Sends.{All-Marks, conns-Marks, send_broadcast-Quiet}
use boomberman.Room.Disconnect.Loop.{
  unswept, member-append, sweep-takes, sweep-Swept, member, Swept,
}
use boomberman.Message.{game_won, Net}
use boomberman.Room.{Bomb, conns, game_over, Player, find_player, Room}
use boomberman.Room.Disconnect.{sweep, crown, finish, Sweep, disconnect_players}
use boomberman.Room.Invariant.{mark-IsSound, IsSound, IsWellFormed, IsFresh}
use boomberman.Base.{
  ℕ, ◌≤◌, ◌≡◌, refl, sym, ap, ◌∙◌, ◌≢◌, true, some, List, [], ◌∷◌, ◌++◌, arith, leb, if◌then◌else◌,
  length, All,
}

-- What a room is after its marked players have been let go.
pub record Disconnects (r : Room) (s : Sweep) : Type 0 where
  pub well_formed : IsWellFormed s.room
  pub never_one : length s.room.players ≢ 1
  pub shrinks : length s.room.players ≤ length r.players
  pub taken :
      (c : ℕ) (p : Player)
      → find_player c r.players ≡ some p
      → p.marked_for_disconnect ≡ true
      → member c s.sockets_to_delete ≡ true
  pub gone : All (λ c. IsFresh c (conns s.room.players)) s.sockets_to_delete
  pub state : s.room.state ≡ (if leb (length s.room.players) 1 then game_over else r.state)
  pub client_count : s.room.client_count ≡ r.client_count
  pub map : s.room.map ≡ r.map
  pub extra : List Bomb
  pub bombs : s.room.bombs ≡ r.bombs ++ extra
  pub dropped : length extra ≡ s.bombs_to_place

member-conns :
    (c : ℕ) (ps : List Player) (p : Player) → find_player c ps ≡ some p → member c (conns ps) ≡ true
unfolding find_player
member-conns c [] p e = cc
member-conns c (q ∷ ps) p e = ground (arith, member-conns c ps p)

All-IsFresh_nil : (cs : List ℕ) → All (λ c. IsFresh c []) cs
All-IsFresh_nil [] = tt
All-IsFresh_nil (c ∷ cs) = (tt, All-IsFresh_nil cs)

module _ (net : Net) (r : Room) (w : IsWellFormed r) (s : Sweep) (k : Swept r s)
    (taken : (c : ℕ) (p : Player)
      → find_player c r.players ≡ some p
      → p.marked_for_disconnect ≡ true
      → member c s.sockets_to_delete ≡ true) where
  -- A room without players, in which the game is over.
  empty-IsWellFormed :
      (out : Room)
      → out.players ≡ []
      → out.state ≡ game_over
      → out.client_count ≡ r.client_count
      → out.map ≡ r.map
      → IsWellFormed out
  empty-IsWellFormed out e g c m = record {
    distinct = rw e tt;
    counted = omega (arith, ap length e);
    capped = omega (arith, c, w.capped);
    waiting = λ h. ground arith;
    arena = rw m (w.arena);
    sound = rw e tt;
  }

  finish-Disconnects :
      (left : List Player)
      → Erases s.sockets_to_delete s.room.players left
      → Disconnects r (finish net left (record s { room = record (s.room) { players = left } }))
  unfolding finish crown
  finish-Disconnects [] e = record {
    well_formed = empty-IsWellFormed _ refl refl k.client_count k.map;
    never_one = λ h. omega arith;
    shrinks = omega arith;
    taken = taken;
    gone = e.gone;
    state = ground arith;
    client_count = k.client_count;
    map = k.map;
    extra = k.extra;
    bombs = k.bombs;
    dropped = k.dropped;
  }
  finish-Disconnects (p ∷ []) e =
      let r0 : Room = record (s.room) { players = p ∷ [] } in
      let q = send_broadcast-Quiet net (game_won p.username) r0 in
      record {
        well_formed =
            empty-IsWellFormed _ refl refl (q.client_count ∙ k.client_count) (q.map ∙ k.map);
        never_one = λ h. omega arith;
        shrinks = omega arith;
        taken = λ c t f m.
            ground (arith, member-append c s.sockets_to_delete (p.conn ∷ []), taken c t f m);
        gone = All-IsFresh_nil _;
        state = ground arith;
        client_count = q.client_count ∙ k.client_count;
        map = q.map ∙ k.map;
        extra = k.extra;
        bombs = q.bombs ∙ k.bombs;
        dropped = k.dropped;
      }
  finish-Disconnects (p ∷ p' ∷ ps) e = record {
    well_formed = record {
      distinct = e.distinct;
      counted = omega (
        arith,
        e.shrinks,
        length-Marks r.players s.room.players k.marks,
        w.counted,
        k.client_count,
      );
      capped = omega (arith, w.capped, k.client_count);
      waiting = λ h. rw (k.client_count) (w.waiting (sym k.state ∙ h));
      arena = rw (k.map) (w.arena);
      sound = e.sound;
    };
    never_one = λ h. omega arith;
    shrinks = omega (arith, e.shrinks, length-Marks r.players s.room.players k.marks);
    taken = taken;
    gone = e.gone;
    state = k.state ∙ ground arith;
    client_count = k.client_count;
    map = k.map;
    extra = k.extra;
    bombs = k.bombs;
    dropped = k.dropped;
  }

-- In a well-formed room, whatever the sends return: every player who was marked is let go, and no connection let go
-- has a player in the room any more. The room is not left with exactly one player, and none is added. With no
-- player left the game is over; otherwise its state is as before. The bombs dropped join the end of the queue, as many as
-- timers are asked for. The count of clients stays as it was, also where players have gone. The room is well
-- formed again.
pub disconnect_players-Disconnects :
    (net : Net) (now : ℕ) (r : Room) → IsWellFormed r → Disconnects r (disconnect_players net now r)
unfolding disconnect_players
disconnect_players-Disconnects net now r w =
    let s0 : Sweep = record { room = r; bombs_to_place = 0; sockets_to_delete = [] } in
    let k0 = unswept r in
    let s = sweep net now (conns r.players) s0 in
    let k = sweep-Swept net now (conns r.players) r s0 k0 in
    finish-Disconnects net r w s k
      (λ c p e m.
        sweep-takes net now c p (conns r.players) r s0 k0 e m (member-conns c r.players p e))
      _
      (erase_players-Erases s.sockets_to_delete s.room.players
        (rw (conns-Marks r.players s.room.players k.marks) (w.distinct))
        (All-Marks IsSound mark-IsSound r.players s.room.players k.marks w.sound))

-- A well-formed room with one player at most is over after any event, whether or not its game had
-- started: the player is let go as the winner.
pub disconnect_players-lone :
    (net : Net) (now : ℕ) (r : Room)
    → IsWellFormed r
    → length r.players ≤ 1
    → let s = disconnect_players net now r in (s.room.players ≡ []) × (s.room.state ≡ game_over)
disconnect_players-lone net now r w few =
    let d = disconnect_players-Disconnects net now r w in
    let over : leb (length (disconnect_players net now r).room.players) 1 ≡ true =
      ground (arith, d.shrinks, few) in
    (nil_of _ (omega (arith, d.shrinks, d.never_one)), d.state ∙ rw over)
  where
    nil_of : (ps : List Player) → length ps ≤ 0 → ps ≡ []
    nil_of [] h = refl
    nil_of (p ∷ ps) h = absurd (omega arith)
