-- ===== src/Lib.antt =====
-- Boomberman: a multiplayer game, server and client, in C++ (game/src), modelled and verified.
--
-- The program. A server keeps rooms of up to four players on a board of walls and boxes. Clients join
-- a room, move and place bombs; when a bomb's timer fires, the room computes the explosion, takes
-- lives, and ends the game with the last player alive. A room sends each change to its clients.
--
-- The modules, and the code that each models:
--   Map          game/src/shared/game/Map.h, Map.cpp: the array of squares, its reads and writes
--   Bomb         game/src/shared/game/Bomb.h, Bomb.cpp, TileOnFire.h: fuse and explosion;
--                Bomb.Exact describes without loops which squares the fire reaches
--   Player       game/src/server/entities: a player, and `MoveCheckSus`
--   Message      the messages that game/src/shared/msg/Connection.cpp builds
--   Connection   game/src/shared/msg/Connection.cpp: `Receive` in Connection, `send` in Connection.Send;
--                Frames and Trip say what a stream of messages is and what becomes of it; Connection.Setup is the
--                constructor
--   Server       game/src/server/Server.cpp: the tables of connections, the clean-up after an event, and one
--                event of the loops over rooms and bombs;
--                Server.Lobby the messages of the lobby, Server.Loop an event of it; Server.Safe says when tables
--                and rooms agree, and Server.Reach is the server as a whole, one event after the other;
--                Server.Setup has the constructor and `Cleanup`, Server.Run the loops and their end
--   Client       game/src/client: Boomberman and EntityHandler in Client, ServerHandler.cpp in Client.Handler and
--                Client.Screen, its menus in Client.Menu, the start of Client.cpp in Client.Start, its
--                loop in Client.Play and drawMap in Client.Paint; Mirror says what it is to show what the
--                server knows, Handled, Burnt, Parting and Join that the messages of a room make a client do so, and
--                Course that they do through a whole game
--   Util         game/src/shared/Util.cpp: random texts
--   Main         game/src/Main.cpp: the checks of the arguments
--   Room         game/src/server/Room.h: the state of a room, and its sends
--   Room.Join, Room.Handle, Room.Explosion, Room.Disconnect
--                the methods of game/src/server/Room.cpp, with their laws in the modules below
--   Room.Invariant, Room.Sends, Room.Players
--                when a room is well formed; what sends and writes to one player keep
--   Room.Cycle   a message and the clean-up that follows it in game/src/server/Server.cpp
--   Base         shared names, Boolean tests, lists and integers over the native numbers
--
-- How state corresponds. A class is a record with the fields of the source, a method a function that
-- returns the new record. A `Player *` is known by the socket of its connection; a write through it is
-- `update_player`. Undefined behaviour is a value: `none` stands for an index outside an array, the first
-- element of an empty vector, and the use of an object that is gone. An exception of a constructor or of a send is
-- a value too, and `none` for the whole event of a loop, since nothing catches it there. A connection object is there as long as a table of the server has its socket.
-- `runBombs` keeps in its events the address of a `BombInRoom` on the stack (Server.cpp, line 266), which is gone
-- when the event comes; `handle_bomb_event` is what the code does if it still reads there what was written.
-- The signal's event has no such address, so in the loop of the bombs the signal is undefined.
--
-- What comes from outside is an argument: the time, the random draw, the answer of the network to each send
-- (`Net.answers`, a function of everything sent and closed before), whether a message has at most 255 bytes when it is
-- encoded (`Net.fits`, and `fits` in the menus), the keys, the mouse and the
-- window library's test of a point and a rectangle, the answers of system calls, and the memory that a constructor
-- leaves uninitialised. The clock stands still within one method. The step counter of a player,
-- which starts with any `int`, is undefined when it passes the largest one; other integers are unbounded: the
-- counters involved stay far below the limits of `int`. A float on the wire is finite, given by its floor and
-- the rest; NaN, infinity and floors outside `int` are not modelled. A player's coordinates are whole
-- numbers, since only whole numbers are ever written to them.
--
-- Loops over players, tiles, sockets and directions are recursions on lists and on the rounds left; no
-- fuel is needed for them.
-- Sizes in Connection are of type `size_t` and wrap around at 2 ^ 64, as the conversions of the source make them.
-- The loops of `Receive` and `send` run on fuel, and running out of it is an outcome of its own. 256 rounds are
-- enough where no read or write fails: a round takes or gives a byte of a buffer of 256. The socket is an abstract state with
-- `read` or `write`; what they promise is in the records `IsStream` and `IsSink`.
--
-- Not modelled: what the client draws but for the squares of the board, locks and the interleaving of
-- the server's threads, the waits of epoll and poll, log output, the clock, the encoding of messages by the
-- generated protocol code, and the exception of `Connection::send` for a message too long that a room sends after a
-- player has joined: about a move, a bomb, a hit, a leave or the end of the game.
pub mod Base
pub mod Map
pub mod Bomb
pub mod Player
pub mod Message
pub mod Room
pub mod Connection
pub mod Server
pub mod Client
pub mod Main
pub mod Util
