-- ===== src/Connection/Tests.antt =====
-- Runs of `Receive` and `send` on sockets that are lists of bytes.
use boomberman.Connection.Long.{receive-long}
use boomberman.Connection.Setup.{unset_write, new_connection}
use boomberman.Connection.Trip.{receive_each-send_in_turn, send_in_turn, receive_each-send_in_turn}
use boomberman.Connection.Failure.{receive-failed}
use boomberman.Connection.{
  nothing, overrun, buffer_size, no_fuel, inc, to_size, shift, store, fill, split, after_split,
  after_read, zeros, receive,
}
use boomberman.Connection.Frames.{take-append, IsStream, IsBounded}
use boomberman.Connection.Drain.{receive_each-order, receive_each}
use boomberman.Connection.Send.{take-drop, send-delivers, take-all, wrote, IsSink, send}
use boomberman.Base.{
  negsuc, pos, ltb, if◌then◌else◌, none, refl, zero, ap, ◌++◌, drop, suc, sym, some, [], ◌∙◌, ◌≢◌,
  arith, Option, length, ◌∷◌, take, ◌≡◌, ◌≤◌, List, ℕ,
}

-- A socket that gives out all it has been asked for.
abbrev read_all : ℕ → List ℕ → Option (List ℕ) × List ℕ
read_all n s = (some (take n s), drop n s)

-- A socket that gives out one byte at a time.
abbrev read_one : ℕ → List ℕ → Option (List ℕ) × List ℕ
read_one n s = (some (take 1 s), drop 1 s)

abbrev write_one : List ℕ → List ℕ → Option ℕ × List ℕ
write_one bytes s = (some (length (take 1 bytes)), s ++ take 1 bytes)

abbrev write_all : List ℕ → List ℕ → Option ℕ × List ℕ
write_all bytes s = (some (length bytes), s ++ bytes)

abbrev plain_parse : ℕ → List ℕ → List ℕ
plain_parse n bytes = take n bytes

length-take : (n : ℕ) (xs : List ℕ) → length (take n xs) ≤ n
length-take zero xs = omega arith
length-take (suc n) [] = omega arith
length-take (suc n) (x ∷ xs) = omega (arith, length-take n xs)

read_all-reads :
    (n : ℕ) (s : List ℕ)
    → 1 ≤ n
    → s ≢ []
    → (b : ℕ) × (bytes : List ℕ) × (s' : List ℕ) × (read_all n s ≡ (some (b ∷ bytes), s'))
      × (length (b ∷ bytes) ≤ n)
      × ((b ∷ bytes) ++ s' ≡ s)
read_all-reads n [] h some_left = absurd (some_left refl)
read_all-reads zero (b ∷ s) h some_left = absurd (omega (arith, h))
read_all-reads (suc n) (b ∷ s) h some_left =
    (b, take n s, drop n s, refl, length-take (suc n) (b ∷ s), ap (λ t. b ∷ t) (take-drop n s))

nil-ends :
    (n : ℕ) (s : List ℕ) → s ≡ [] → (s' : List ℕ) × (read_all n s ≡ (some [], s')) × (s' ≡ [])
nil-ends zero s e = ([], rw e refl, refl)
nil-ends (suc n) s e = ([], rw e refl, refl)

all_law : IsStream read_all (λ s. s)
all_law = record { reads = read_all-reads; ends = nil-ends }

plain-IsBounded : IsBounded plain_parse
plain-IsBounded body junk = take-append body junk ∙ sym (take-all (length body) body (omega arith))

one_writes :
    (bytes : List ℕ) (s : List ℕ)
    → bytes ≢ []
    → (n : ℕ) × (s' : List ℕ) × (write_one bytes s ≡ (some n, s'))
      × (1 ≤ n)
      × (n ≤ length bytes)
      × (s' ≡ s ++ take n bytes)
one_writes [] s some_left = absurd (some_left refl)
one_writes (b ∷ bytes) s some_left = (1, s ++ b ∷ [], refl, omega arith, omega arith, refl)

one_law : IsSink write_one (λ s. s)
one_law = record { writes = one_writes }

abbrev words : List (List ℕ)
words = (8 ∷ 9 ∷ []) ∷ [] ∷ (7 ∷ []) ∷ []

abbrev bytes_of : List ℕ
bytes_of = 2 ∷ 8 ∷ 9 ∷ 0 ∷ 1 ∷ 7 ∷ []

one_byte_reads : (receive_each read_one plain_parse 4 [] bytes_of).0 ≡ words
unfolding receive_each receive after_read after_split split fill store shift to_size inc
one_byte_reads = refl

receive_each-order_example :
    ((receive_each read_all plain_parse 5 ((3 ∷ []) ∷ []) bytes_of).0 ≡ (3 ∷ []) ∷ words)
    × ((receive_each read_all plain_parse 5 ((3 ∷ []) ∷ []) bytes_of).1 ≡ [])
    × ((receive_each read_all plain_parse 5 ((3 ∷ []) ∷ []) bytes_of).2 ≡ [])
receive_each-order_example =
    receive_each-order read_all plain_parse (λ s. s) all_law plain-IsBounded 5 ((3 ∷ []) ∷ []) words
      bytes_of (omega arith, (omega arith, (omega arith, tt))) refl (omega arith)

send-delivers_example :
    (s' : List ℕ) × (send write_one 256 (8 ∷ 9 ∷ []) (5 ∷ []) ≡ wrote 3 s')
    × (s' ≡ 5 ∷ 2 ∷ 8 ∷ 9 ∷ [])
send-delivers_example =
    send-delivers write_one (λ s. s) one_law 256 (8 ∷ 9 ∷ []) (5 ∷ []) (omega arith) (omega arith)

-- A socket on which nothing arrives in time.
abbrev read_none : ℕ → List ℕ → Option (List ℕ) × List ℕ
read_none n s = (none, s)

receive-failed_example : receive read_none plain_parse 1000000 [] [] ≡ (no_fuel, [], [])
receive-failed_example = receive-failed read_none plain_parse 1000000 [] [] (omega arith) refl

receive_each-send_in_turn_example :
    (w' : List ℕ) × (send_in_turn write_one words [] ≡ some w')
    × ((r : List ℕ) → r ≡ w' → (receive_each read_all plain_parse 4 [] r).0 ≡ words)
receive_each-send_in_turn_example =
    receive_each-send_in_turn write_one (λ s. s) one_law read_all plain_parse (λ s. s) all_law
      plain-IsBounded words [] (omega arith, (omega arith, (omega arith, tt))) refl

-- A length byte of 130, with 299 bytes behind it.
receive-long_example :
    (receive read_all plain_parse 256 [] (130 ∷ zeros 299)).0
    ≡ (if ltb buffer_size (length (130 ∷ zeros 299)) then overrun else nothing)
receive-long_example =
    receive-long read_all plain_parse (λ s. s) all_law 256 130 (zeros 299) (130 ∷ zeros 299)
      (omega arith) (omega arith) (omega arith) refl

refused_option : new_connection 7 (pos 0) (negsuc 0) ≡ unset_write
unfolding new_connection
refused_option = refl
