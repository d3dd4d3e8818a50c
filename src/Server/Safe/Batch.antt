-- ===== src/Server/Safe/Batch.antt =====
-- An event of `runLobby` with all the messages that a client has sent by then.
use boomberman.Server.Safe.Message.{handle_lobby_message-Leaves, handle_lobby_message-IsSafe}
use boomberman.Server.Safe.Hall.{drop_conn-IsSafe, Leaves}
use boomberman.Server.Safe.{member, IsSafe}
use boomberman.Server.Loop.{
  after_reply, is_live, handle_incoming, Incoming, serve_lobby, handle_more,
}
use boomberman.Server.Lobby.{Lobby}
use boomberman.Message.{Net}
use boomberman.Base.{
  ◌∷◌, [], arith, ◌>>=◌, inr, inl, Bool-cases, subst, true, ◌≡◌, none, List, some, ℤ, Option, ℕ,
}

-- A safe state, if there is one.
IsSafeIfAny : Option Lobby → Type 0
IsSafeIfAny none = Unit {0}
IsSafeIfAny (some l) = IsSafe l

module _ (net : Net) (now : ℕ) (step : ℤ) (c : ℕ) where
  handle_more-IsSafe :
      (more : List (Option Incoming)) (l : Lobby)
      → (is_live c l.server ≡ true → IsSafe l)
      → IsSafeIfAny (handle_more net now step c more l)
  unfolding handle_more IsSafeIfAny handle_incoming Leaves
  handle_more-IsSafe [] l f = elim (Bool-cases (is_live c l.server)) [
    | inl e ↦ rw e (f e)
    | inr e ↦ rw e tt
  ]
  handle_more-IsSafe (none ∷ more) l f = tt
  handle_more-IsSafe (some i ∷ more) l f = elim (Bool-cases (is_live c l.server)) [
    | inr e ↦ rw e tt
    | inl e ↦ rw e (
        then_more (λ l' g. handle_more-IsSafe more l' g) _
          (handle_lobby_message-Leaves net now step c i.new_name i.sends i.message l (f e)))
  ]
    where
      then_more :
          ((l' : Lobby)
            → (is_live c l'.server ≡ true → IsSafe l')
            → IsSafeIfAny (handle_more net now step c more l'))
          → (o : Option Lobby) → Leaves c l.server o
          → IsSafeIfAny (o >>= handle_more net now step c more)
      then_more g none h = tt
      then_more g (some l') h = g l' (λ live. h (ground (arith, live)))

  serve_lobby-Results :
      (first : Option Incoming) (more : List (Option Incoming)) (l : Lobby)
      → IsSafe l
      → member c l.server.lobby_conns ≡ true
      → IsSafeIfAny (serve_lobby net now step c first more l)
  unfolding serve_lobby IsSafeIfAny handle_incoming after_reply
  serve_lobby-Results none more l w here = drop_conn-IsSafe c l w here
  serve_lobby-Results (some i) more l w here =
      elim (handle_lobby_message-IsSafe net now step c i.new_name i.sends i.message l w here) [
        | inl (l', e, safe) ↦ rw e (handle_more-IsSafe more l' (λ live. safe))
        | inr (long, n) ↦ rw long tt
      ]

  -- After an event of a client in the lobby, the state is safe again.
  pub serve_lobby-IsSafe :
      (first : Option Incoming) (more : List (Option Incoming)) (l l' : Lobby)
      → IsSafe l
      → member c l.server.lobby_conns ≡ true
      → serve_lobby net now step c first more l ≡ some l'
      → IsSafe l'
  unfolding IsSafeIfAny
  serve_lobby-IsSafe first more l l' w here e =
      subst IsSafeIfAny e (serve_lobby-Results first more l w here)
