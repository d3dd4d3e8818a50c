-- ===== src/Connection.antt =====
-- `Connection::Receive` and `Connection::send` of game/src/shared/msg/Connection.cpp. The socket
-- and the generated protocol code are arguments: `read` and `write` answer the bytes read and the
-- number written, or `none` for an error, and `parse n bytes` is `ParseFromArray(bytes, n)`.
pub mod Setup
pub mod Frames
pub mod Split
pub mod Fill
pub mod Receive
pub mod Drain
pub mod Failure
pub mod Long
pub mod Send
pub mod Trip
pub mod Tests
use boomberman.Base.{
  zero, ℕ, suc, ◌+◌, ◌-◌, ◌%◌, Bool, true, false, Option, none, some, List, [], ◌∷◌, ◌++◌, ltb, leb,
  ◌==◌, if◌then◌else◌, length, take, drop,
}

-- `2 ^ 64`, the modulus of `size_t`.
abbrev pub size_modulus : ℕ
size_modulus = 18446744073709551616

-- `static_cast<size_t>` of a `char`, which is signed: a byte from 128 on is negative.
unfoldable pub to_size : ℕ → ℕ
to_size b = if ltb b 128 then b else size_modulus - 256 + b

-- `n + 1` in `size_t`
unfoldable pub inc : ℕ → ℕ
inc n = (n + 1) % size_modulus

-- What a `read` or `write` that fails returns, converted to `size_t`.
abbrev pub failed_count : ℕ
failed_count = size_modulus - 1

abbrev pub zeros : ℕ → List ℕ
zeros zero = []
zeros (suc n) = 0 ∷ zeros n

abbrev pub buffer_size : ℕ
buffer_size = 256

-- `buf[0]`
abbrev pub first_byte : List ℕ → ℕ
first_byte [] = 0
first_byte (b ∷ buf) = b

-- The buffer with bytes written from an index on.
unfoldable pub store : ℕ → List ℕ → List ℕ → List ℕ
store k bytes buf = take k buf ++ bytes ++ drop (k + length bytes) buf

-- `memmove(buf, buf + n, 256 - n)`
unfoldable pub shift : ℕ → List ℕ → List ℕ
shift n buf = drop n buf ++ drop (buffer_size - n) buf

-- The buffer after a `read` to its start, and the count that `read` returned.
abbrev pub filled : Option (List ℕ) → List ℕ × ℕ
filled none = (zeros buffer_size, failed_count)
filled (some bytes) = (store 0 bytes (zeros buffer_size), length bytes)

-- How a call of `Receive` ends: without a message, with one, in a write past the end of the buffer, or not
-- within the fuel.
pub data Received {ℓ} (M : Type ℓ) : Type ℓ where
  nothing : Received M
  message : M → Received M
  overrun : Received M
  no_fuel : Received M

module _ {ℓ} {M : Type ℓ} where
  -- `inboundQueue.front()` and `pop()`, where the queue is known not to be empty: the code does
  -- not test it.
  abbrev pub pop_front : List M → Received M × List M
  pop_front [] = (nothing, [])
  pop_front (m ∷ queue) = (message m, queue)

  -- `HasMoreMessages`
  abbrev pub has_more_messages : List M → Bool
  has_more_messages [] = false
  has_more_messages (m ∷ queue) = true

  -- The loop that splits the buffer into messages; `none` when the fuel is used up.
  unfoldable pub split : (ℕ → List ℕ → M) → ℕ → List ℕ → ℕ → List M → Option (List ℕ × ℕ × List M)
  split parse zero buf received queue = none
  split parse (suc fuel) buf received queue =
      let size = to_size (first_byte buf) in
      elim (leb (inc size) received) [
        | false ↦ some (buf, received, queue)
        | true ↦
            let queue' = queue ++ parse size (drop 1 buf) ∷ [] in
            let received' = received - inc size in
            elim (received' == 0) [
              | true ↦ some (buf, received', queue')
              | false ↦ split parse fuel (shift (size + 1) buf) received' queue'
            ]
      ]

-- What the loop that waits for the rest of a message ends with.
pub data Filling {ℓ} (S : Type ℓ) : Type ℓ where
  complete : List ℕ → S → Filling S
  ended : S → Filling S
  outside : S → Filling S
  unfinished : S → Filling S

module _ {ℓ} {S : Type ℓ} (read : ℕ → S → Option (List ℕ) × S) where
  -- The loop that reads one byte at a time until the message is complete.
  unfoldable pub fill : ℕ → ℕ → List ℕ → ℕ → S → Filling S
  fill zero size buf total s = unfinished s
  fill (suc fuel) size buf total s = elim (ltb total (inc size)) [
    | false ↦ complete buf s
    | true ↦
        let (answer, s') = read 1 s in
        elim answer [
          | none ↦ fill fuel size buf ((total + failed_count) % size_modulus) s'
          | some [] ↦ ended s'
          | some (b ∷ bytes) ↦ elim (ltb total buffer_size) [
            | false ↦ outside s'
            | true ↦
                let read_total = (total + length (b ∷ bytes)) % size_modulus in
                fill fuel size (store total (b ∷ bytes) buf) read_total s'
          ]
        ]
  ]

module _ {ℓ κ} {S : Type ℓ} {M : Type κ} (read : ℕ → S → Option (List ℕ) × S)
    (parse : ℕ → List ℕ → M) where
  -- The message that the second loop completes.
  abbrev pub finish_fill : ℕ → List M → Filling S → Received M × List M × S
  finish_fill size queue (complete buf s) =
      let (r, queue') = pop_front (queue ++ parse size (drop 1 buf) ∷ []) in (r, queue', s)
  finish_fill size queue (ended s) = (nothing, queue, s)
  finish_fill size queue (outside s) = (overrun, queue, s)
  finish_fill size queue (unfinished s) = (no_fuel, queue, s)

  -- What follows the loop that splits the buffer.
  unfoldable pub after_split : ℕ → Option (List ℕ × ℕ × List M) → S → Received M × List M × S
  after_split fuel none s = (no_fuel, [], s)
  after_split fuel (some (buf, received, queue)) s = elim (received == 0) [
    | true ↦ let (r, queue') = pop_front queue in (r, queue', s)
    | false ↦
        let size = to_size (first_byte buf) in
        finish_fill size queue (fill read fuel size buf received s)
  ]

  -- What follows the first `read`.
  unfoldable pub after_read : ℕ → Option (List ℕ) × S → Received M × List M × S
  after_read fuel (bytes, s) =
      let (buf, received) = filled bytes in
      let size = to_size (first_byte buf) in
      elim (received == 0) [
        | true ↦ (nothing, [], s)
        | false ↦ elim (received == inc size) [
          | true ↦ (message (parse size (drop 1 buf)), [], s)
          | false ↦ after_split fuel (split parse fuel buf received []) s
        ]
      ]

  -- `Receive`: what it returns, and the queue and the socket after it.
  unfoldable pub receive : ℕ → List M → S → Received M × List M × S
  receive fuel (m ∷ queue) s = (message m, queue, s)
  receive fuel [] s = after_read fuel (read buffer_size s)
