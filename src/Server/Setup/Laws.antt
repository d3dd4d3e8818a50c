-- ===== src/Server/Setup/Laws.antt =====
-- Which descriptors are left open by `Server::Server` and by `Server::Cleanup`.
use boomberman.Room.Disconnect.Loop.{member}
use boomberman.Server.Setup.{
  signalfd, epoll_create, shuts, Setup, socket, throws, closes, called, Os, returns, close_all,
  Sockets, ask, OsEvent, bind_setup, new_server, Call, Outcome,
}
use boomberman.Base.{
  ◌&&◌, refl, Option-cases, inr, if◌then◌else◌, none, arith, some, inl, false, Option, ◌⊎◌, [],
  true, ◌≡◌, All, ◌∷◌, Bool, String, List, ℕ,
}

-- Whether a call opens the descriptor that it returns.
abbrev pub opens : Call → Bool
opens socket = true
opens epoll_create = true
opens signalfd = true
opens _ = false

-- The descriptors opened, and those closed, the newest first.
unfoldable pub opened : List OsEvent → List ℕ
opened [] = []
opened (called call (some fd) ∷ log) = if opens call then fd ∷ opened log else opened log
opened (called call none ∷ log) = opened log
opened (closes fd ∷ log) = opened log
opened (shuts c ∷ log) = opened log

unfoldable pub closed_fds : List OsEvent → List ℕ
closed_fds [] = []
closed_fds (closes (some fd) ∷ log) = fd ∷ closed_fds log
closed_fds (closes none ∷ log) = closed_fds log
closed_fds (called call fd ∷ log) = closed_fds log
closed_fds (shuts c ∷ log) = closed_fds log

abbrev pub AreClosed : List OsEvent → Type 0
AreClosed log = All (λ fd. member fd (closed_fds log) ≡ true) (opened log)

-- The constructor leaves the socket and the first epoll open with one of two errors.
pub record Leaks (error : String) (log : List OsEvent) : Type 0 where
  pub which : (error ≡ "sigprocmask failed") ⊎ (error ≡ "signalfd failed")
  pub srv : ℕ
  pub lobby : ℕ
  pub opened_are : opened log ≡ lobby ∷ srv ∷ []
  pub none_closed : closed_fds log ≡ []

-- How the constructor ends.
unfoldable pub Ends : Outcome Sockets → Type 0
Ends (returns s log) =
    (opened log
      ≡ s.bomb_epoll_sock ∷ s.room_epoll_sock ∷ s.sig_sock ∷ s.lobby_epoll_sock ∷ s.srv_sock ∷ [])
    × (closed_fds log ≡ [])
Ends (throws error log) = AreClosed log ⊎ Leaks error log

leaks :
    {error : String} {log : List OsEvent} (srv lobby : ℕ)
    → (error ≡ "sigprocmask failed") ⊎ (error ≡ "signalfd failed")
    → opened log ≡ lobby ∷ srv ∷ []
    → closed_fds log ≡ []
    → AreClosed log ⊎ Leaks error log
leaks srv lobby w o c =
    inr (record { which = w; srv = srv; lobby = lobby; opened_are = o; none_closed = c })

all_closed : List ℕ → List ℕ → Bool
all_closed [] closed = true
all_closed (fd ∷ fds) closed = member fd closed && all_closed fds closed

all_closed-member :
    (fds closed : List ℕ) → all_closed fds closed ≡ true → All (λ fd. member fd closed ≡ true) fds
unfolding all_closed
all_closed-member [] closed e = tt
all_closed-member (fd ∷ fds) closed e =
    (ground (arith, e), all_closed-member fds closed (ground (arith, e)))

tidy :
    (error : String) (log : List OsEvent)
    → all_closed (opened log) (closed_fds log) ≡ true
    → Ends (throws error log)
unfolding Ends
tidy error log e = inl (all_closed-member (opened log) (closed_fds log) e)

module _ (os : Os) where
  -- A call ends as it should if its failure does, and what follows its success.
  ask-Ends :
      (call : Call) (fds : List (Option ℕ)) (error : String) (k : ℕ → Setup Sockets)
      (log : List OsEvent)
      → Ends (throws error (close_all fds (called call none ∷ log)))
      → ((fd : ℕ) → Ends (k fd (called call (some fd) ∷ log)))
      → Ends (bind_setup (ask os call fds error) k log)
  unfolding bind_setup ask
  ask-Ends call fds error k log f g = elim (Option-cases (os log call)) [
    | inl e ↦ rw (ask, bind_setup, e) f
    | inr (fd, e) ↦ rw (ask, bind_setup, e) (g fd)
  ]

  pub new_server-Ends : (port : ℕ) → Ends (new_server os port [])
  unfolding new_server Ends opened closed_fds close_all all_closed
  new_server-Ends port = ask-Ends _ _ _ _ _ (tidy _ _ refl) (λ srv.
      ask-Ends _ _ _ _ _ (tidy _ _ (ground arith)) (λ o1.
        ask-Ends _ _ _ _ _ (tidy _ _ (ground arith)) (λ o2.
          ask-Ends _ _ _ _ _ (tidy _ _ (ground arith)) (λ o3.
            ask-Ends _ _ _ _ _ (tidy _ _ (ground arith)) (λ lobby.
              ask-Ends _ _ _ _ _ (leaks srv lobby (inl refl) refl refl) (λ o4.
                ask-Ends _ _ _ _ _ (leaks srv lobby (inr refl) refl refl) (λ sig.
                  ask-Ends _ _ _ _ _ (tidy _ _ (ground arith)) (λ o5.
                    ask-Ends _ _ _ _ _ (tidy _ _ (ground arith)) (λ o6.
                      ask-Ends _ _ _ _ _ (tidy _ _ (ground arith)) (λ room.
                        ask-Ends _ _ _ _ _ (tidy _ _ (ground arith)) (λ o7.
                          ask-Ends _ _ _ _ _ (tidy _ _ (ground arith)) (λ bomb.
                            ask-Ends _ _ _ _ _ (tidy _ _ (ground arith))
                              (λ o8. (refl, refl))))))))))))))
