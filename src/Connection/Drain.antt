-- ===== src/Connection/Drain.antt =====
-- Calls of `Receive`, one after another, until one returns no message.
use boomberman.Connection.Receive.{cons-ne, Delivers, receive-Delivers}
use boomberman.Connection.{no_fuel, overrun, nothing, message, buffer_size, after_read, receive}
use boomberman.Connection.Frames.{stream, IsShort, IsBounded, IsStream}
use boomberman.Base.{
  ◌∙◌, ap, refl, arith, ◌<◌, map, ◌++◌, length, zero, ◌∷◌, ◌≡◌, All, suc, [], List, Option, ℕ,
}

module _ {ℓ κ} {S : Type ℓ} {M : Type κ} (read : ℕ → S → Option (List ℕ) × S)
    (parse : ℕ → List ℕ → M) where
  -- The messages of up to so many calls, and the queue and the socket after them.
  unfoldable pub receive_each : ℕ → List M → S → List M × List M × S
  receive_each zero queue s = ([], queue, s)
  receive_each (suc calls) queue s =
      let (result, queue', s') = receive read parse buffer_size queue s in
      elim result [
        | message m ↦
            let (ms, queue'', s'') = receive_each calls queue' s' in (m ∷ ms, queue'', s'')
        | nothing ↦ ([], queue', s')
        | overrun ↦ ([], queue', s')
        | no_fuel ↦ ([], queue', s')
      ]

  module _ (pending : S → List ℕ) (law : IsStream read pending) (bounded : IsBounded parse) where
    receive-ends :
        (s : S)
        → pending s ≡ []
        → (s' : S) × (receive read parse buffer_size [] s ≡ (nothing, [], s')) × (pending s' ≡ [])
    unfolding receive after_read
    receive-ends s e = let (s', e1, e2) = law.ends buffer_size s e in (s', rw e1 refl, e2)

    -- All messages are out, in order.
    abbrev Drained : ℕ → List M → List (List ℕ) → S → Type κ
    Drained calls queue bodies s =
        ((receive_each calls queue s).0 ≡ queue ++ map (λ b. parse (length b) b) bodies)
        × ((receive_each calls queue s).1 ≡ [])
        × (pending (receive_each calls queue s).2 ≡ [])

    Drained-next :
        (calls : ℕ) (queue : List M) (bodies : List (List ℕ)) (s : S)
        → (d : Delivers parse pending queue bodies (receive read parse buffer_size queue s))
        → Drained calls d.queue' d.left d.socket
        → Drained (suc calls) queue bodies s
    unfolding receive_each
    Drained-next calls queue bodies s d h =
        rw (receive_each, d.ended, d.ended) (ap (λ ms. d.first ∷ ms) (h.0) ∙ d.same, h.1, h.2)

    -- On a socket that carries frames of bodies shorter than 128 bytes, however the bytes are cut into reads,
    -- calls of Receive return the messages queued and then those sent, each once and in order, and end with
    -- none once all have been returned, with nothing left in the queue or on the socket.
    pub receive_each-order :
        (calls : ℕ) (queue : List M) (bodies : List (List ℕ)) (s : S)
        → All IsShort bodies
        → pending s ≡ stream bodies
        → length (queue ++ map (λ b. parse (length b) b) bodies) < calls
        → ((receive_each calls queue s).0 ≡ queue ++ map (λ b. parse (length b) b) bodies)
          × ((receive_each calls queue s).1 ≡ [])
          × (pending (receive_each calls queue s).2 ≡ [])
    unfolding receive_each
    receive_each-order zero queue bodies s short e enough = absurd (omega (arith, enough))
    receive_each-order (suc calls) [] [] s short e enough =
        let (s', e1, e2) = receive-ends s e in rw (receive_each, e1, e1) (refl, refl, e2)
    receive_each-order (suc calls) (m ∷ queue) bodies s short e enough =
        let d =
          receive-Delivers read parse pending law bounded buffer_size (m ∷ queue) bodies s
            (omega arith) short e cons-ne in
        Drained-next calls (m ∷ queue) bodies s d (
          receive_each-order calls d.queue' d.left d.socket d.short d.aligned
            (omega (arith, enough, ap length d.same)))
    receive_each-order (suc calls) [] (p ∷ ps) s short e enough =
        let d =
          receive-Delivers read parse pending law bounded buffer_size [] (p ∷ ps) s (omega arith)
            short e cons-ne in
        Drained-next calls [] (p ∷ ps) s d (
          receive_each-order calls d.queue' d.left d.socket d.short d.aligned
            (omega (arith, enough, ap length d.same)))
