-- ===== src/Connection/Trip.antt =====
-- Messages through a connection: `send` on one end, `Receive` on the other.
use boomberman.Connection.Drain.{receive_each-order, receive_each}
use boomberman.Connection.{buffer_size}
use boomberman.Connection.Frames.{IsBounded, IsStream, frame, stream, IsShort}
use boomberman.Connection.Send.{wrote, send-delivers, out_of_fuel, no_value, throws, send, IsSink}
use boomberman.Base.{
  length-map, map, length, suc, refl, ap, ◌∙◌, [], arith, sym, none, ◌++◌, ◌≡◌, All, ◌∷◌, some,
  Option, List, ℕ,
}
use mathlib.Core.List.{append_assoc, append-nil}

module _ {ℓ} {S : Type ℓ} (write : List ℕ → S → Option ℕ × S) where
  -- The socket after messages sent one after another, if each is reported as written.
  unfoldable pub send_in_turn : List (List ℕ) → S → Option S
  send_in_turn [] s = some s
  send_in_turn (body ∷ bodies) s = elim (send write buffer_size body s) [
    | throws s' ↦ none
    | no_value s' ↦ none
    | out_of_fuel s' ↦ none
    | wrote n s' ↦ send_in_turn bodies s'
  ]

  send_in_turn-delivers :
      (delivered : S → List ℕ)
      → IsSink write delivered
      → (bodies : List (List ℕ)) (s : S) → All IsShort bodies
      → (s' : S) × (send_in_turn bodies s ≡ some s') × (delivered s' ≡ delivered s ++ stream bodies)
  unfolding send_in_turn
  send_in_turn-delivers delivered law [] s short = (s, refl, sym (append-nil (delivered s)))
  send_in_turn-delivers delivered law (body ∷ bodies) s short =
      let (s1, e1, e2) =
        send-delivers write delivered law buffer_size body s (omega arith)
          (omega (arith, short.0)) in
      let (s2, e3, e4) = send_in_turn-delivers delivered law bodies s1 (short.1) in
      (
        s2,
        rw (send_in_turn, e1) e3,
        e4
            ∙ ap (λ xs. xs ++ stream bodies) e2
            ∙ append_assoc (delivered s) (frame body) (stream bodies),
      )

-- Messages shorter than 128 bytes, sent on a connection on which nothing was delivered yet, are all reported as
-- written; on a socket that has just the delivered bytes pending, one call of Receive more than there are
-- messages returns them in the order they were sent, whatever the sizes of the writes and reads.
pub receive_each-send_in_turn {ℓ κ ι} :
    {W : Type ℓ} {R : Type κ} {M : Type ι} (write : List ℕ → W → Option ℕ × W)
    (delivered : W → List ℕ)
    → IsSink write delivered
    → (read : ℕ → R → Option (List ℕ) × R) (parse : ℕ → List ℕ → M) (pending : R → List ℕ)
    → IsStream read pending
    → IsBounded parse
    → (bodies : List (List ℕ)) (w : W) → All IsShort bodies
    → delivered w ≡ []
    → (w' : W) × (send_in_turn write bodies w ≡ some w')
      × ((r : R)
          → pending r ≡ delivered w'
          → (receive_each read parse (suc (length bodies)) [] r).0
            ≡ map (λ b. parse (length b) b) bodies)
receive_each-send_in_turn write delivered sink read parse pending source bounded bodies w short
      fresh =
    let (w', e1, e2) = send_in_turn-delivers write delivered sink bodies w short in
    (
      w',
      e1,
      λ r e.
          (receive_each-order read parse pending source bounded (suc (length bodies)) [] bodies r
            short (e ∙ e2 ∙ ap (λ xs. xs ++ stream bodies) fresh)
            (omega (arith, length-map (λ b. parse (length b) b) bodies))).0,
    )
