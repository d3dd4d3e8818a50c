-- ===== src/Server/Run/Tests.antt =====
-- A server that accepts a client in the batch of the signal.
use boomberman.Server.Reach.{started}
use boomberman.Server.Run.{
  serve_all, running, run-ends, connection, signal, event, LobbyEvent, Arrival, handle_lobby_event,
  run,
}
use boomberman.Base.{true, refl, [], some, ◌≡◌, false, List, ◌∷◌}

abbrev last_batch : List (Arrival LobbyEvent)
last_batch = signal ∷ event (connection (some 4)) ∷ []

abbrev later : List (List (Arrival LobbyEvent))
later = (event (connection (some 5)) ∷ []) ∷ []

run-ends_example :
    run handle_lobby_event (last_batch ∷ later) (record { end = false; state = started })
    ≡ running handle_lobby_event true
        (serve_all handle_lobby_event (connection (some 4) ∷ []) started)
run-ends_example = run-ends handle_lobby_event last_batch later started refl
