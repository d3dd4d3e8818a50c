-- ===== src/Connection/Send.antt =====
-- `Connection::send` of game/src/shared/msg/Connection.cpp, for a message that serialises to `body`.
use boomberman.Connection.Receive.{cons-ne}
use boomberman.Connection.Frames.{frame, suc_add, zero_add, empty}
use boomberman.Connection.{failed_count, size_modulus, buffer_size}
use boomberman.Base.{
  true, false, ne→==, false, ◌%◌, ◌-◌, ==→ne, inr, sym, ==→eq, none, inl, ◌∙◌, ◌||◌, Bool-cases,
  refl, arith, ltb, zero, ap, ◌==◌, ◌+◌, ◌≢◌, ◌∷◌, ◌<◌, if◌then◌else◌, ◌++◌, some, suc, ◌≡◌, Option,
  length, ◌≤◌, [], take, List, drop, ℕ,
}
use mathlib.Core.List.{append_assoc, append-nil}

-- How a call of `send` ends: with an exception, with no value, with the bytes written, or not within the fuel.
pub data Sending {ℓ} (S : Type ℓ) : Type ℓ where
  throws : S → Sending S
  no_value : S → Sending S
  wrote : ℕ → S → Sending S
  out_of_fuel : S → Sending S

module _ {ℓ} {S : Type ℓ} (write : List ℕ → S → Option ℕ × S) where
  -- The loop that writes what earlier writes left: `size` bytes in all, of which `total` are written.
  unfoldable pub send_rest : ℕ → List ℕ → ℕ → ℕ → S → Sending S
  send_rest zero buf size total s = out_of_fuel s
  send_rest (suc fuel) buf size total s = elim (total == size) [
    | true ↦ wrote total s
    | false ↦
        let asked = (size + size_modulus - total) % size_modulus in
        let (answer, s') = write (take asked (drop total buf)) s in
        elim answer [
          | none ↦ send_rest fuel buf size ((total + failed_count) % size_modulus) s'
          | some n ↦ elim (n == 0) [
            | true ↦ no_value s'
            | false ↦ send_rest fuel buf size ((total + n) % size_modulus) s'
          ]
        ]
  ]

  -- What follows the first `write`.
  unfoldable pub after_write : ℕ → List ℕ → Option ℕ × S → Sending S
  after_write fuel buf (none, s) = no_value s
  after_write fuel buf (some n, s) =
      if n == 0 || ltb 255 n
      then no_value s
      else if n == length buf
      then wrote n s
      else send_rest fuel buf (length buf) n s

  unfoldable pub send : ℕ → List ℕ → S → Sending S
  send fuel body s =
      if ltb 255 (length body)
      then throws s
      else after_write fuel (length body ∷ body) (write (length body ∷ body) s)

-- What the code relies on of `write` on a connected socket, on which bytes were delivered: it takes some of the bytes
-- from the front.
pub record IsSink {ℓ} {S : Type ℓ} (write : List ℕ → S → Option ℕ × S) (delivered : S → List ℕ)
    : Type ℓ where
  pub writes :
      (bytes : List ℕ) (s : S)
      → bytes ≢ []
      → (n : ℕ) × (s' : S) × (write bytes s ≡ (some n, s'))
        × (1 ≤ n)
        × (n ≤ length bytes)
        × (delivered s' ≡ delivered s ++ take n bytes)

pub take-drop : (n : ℕ) (xs : List ℕ) → take n xs ++ drop n xs ≡ xs
take-drop zero xs = refl
take-drop (suc n) [] = refl
take-drop (suc n) (x ∷ xs) = ap (λ t. x ∷ t) (take-drop n xs)

drop-nil : (n : ℕ) → drop {A = ℕ} n [] ≡ []
drop-nil zero = refl
drop-nil (suc n) = refl

drop-drop : (m n : ℕ) (xs : List ℕ) → drop n (drop m xs) ≡ drop (m + n) xs
drop-drop zero n xs = ap (λ k. drop k xs) (sym (zero_add n))
drop-drop (suc m) n [] = drop-nil n ∙ sym (drop-nil (suc m + n))
drop-drop (suc m) n (x ∷ xs) =
    drop-drop m n xs
    ∙ ap (λ k. drop k (x ∷ xs)) {x = suc (m + n)} {y = suc m + n} (sym (suc_add m n))

pub take-all : (n : ℕ) (xs : List ℕ) → length xs ≤ n → take n xs ≡ xs
take-all zero [] h = refl
take-all zero (x ∷ xs) h = absurd (omega (arith, h))
take-all (suc n) [] h = refl
take-all (suc n) (x ∷ xs) h = ap (λ t. x ∷ t) (take-all n xs (omega (arith, h)))

pub length-drop : (n : ℕ) (xs : List ℕ) → n ≤ length xs → length (drop n xs) + n ≡ length xs
length-drop zero xs h = omega arith
length-drop (suc n) [] h = absurd (omega (arith, h))
length-drop (suc n) (x ∷ xs) h = omega (arith, length-drop n xs (omega (arith, h)))

module _ {ℓ} {S : Type ℓ} (write : List ℕ → S → Option ℕ × S) (delivered : S → List ℕ)
    (law : IsSink write delivered) where
  -- One round that writes something.
  send_rest-step :
      (fuel : ℕ) (buf : List ℕ) (total n : ℕ) (s s' : S)
      → (total == length buf) ≡ false
      → take ((length buf + size_modulus - total) % size_modulus) (drop total buf) ≡ drop total buf
      → write (drop total buf) s ≡ (some n, s')
      → (n == 0) ≡ false
      → (total + n) % size_modulus ≡ total + n
      → send_rest write (suc fuel) buf (length buf) total s
        ≡ send_rest write fuel buf (length buf) (total + n) s'
  unfolding send_rest
  send_rest-step fuel buf total n s s' e asked e1 e2 sum =
      rw (send_rest, e, asked, e1, e2, asked, e1, sum) refl

  send_rest-wrote :
      (fuel : ℕ) (buf : List ℕ) (total : ℕ) (s : S)
      → total ≤ length buf
      → length buf < fuel + total
      → length buf ≤ buffer_size
      → (s' : S) × (send_rest write fuel buf (length buf) total s ≡ wrote (length buf) s')
        × (delivered s' ≡ delivered s ++ drop total buf)
  unfolding send_rest
  send_rest-wrote zero buf total s fits enough small = absurd (omega (arith, enough, fits))
  send_rest-wrote (suc fuel) buf total s fits enough small =
      let rest = length-drop total buf fits in
      elim (Bool-cases (total == length buf)) [
        | inl e ↦
            let all = ==→eq total (length buf) e in
            let nothing_left = empty (drop total buf) (omega (arith, rest, all)) in
            (
              s,
              rw (send_rest, e) (ap (λ n. wrote n s) all),
              rw nothing_left (sym (append-nil (delivered s))),
            )
        | inr e ↦
            let less = ==→ne total (length buf) e in
            let asked : take ((length buf + size_modulus - total) % size_modulus) (drop total buf)
                ≡ drop total buf =
              take-all _ (drop total buf) (omega (arith, rest, fits, small, less)) in
            let (n, s', e1, e2, e3, e4) =
              law.writes (drop total buf) s (λ k. less (omega (arith, rest, ap length k))) in
            let wrote_some : (n == 0) ≡ false = ne→== n 0 (λ k. omega (arith, e2, k)) in
            let sum : (total + n) % size_modulus ≡ total + n = omega (arith, e3, rest, small) in
            let (s'', e5, e6) =
              send_rest-wrote fuel buf (total + n) s' (omega (arith, e3, rest))
                (omega (arith, e2, enough)) small in
            (
              s'',
              send_rest-step fuel buf total n s s' e asked e1 wrote_some sum ∙ e5,
              e6
                  ∙ ap (λ xs. xs ++ drop (total + n) buf) e4
                  ∙ append_assoc (delivered s) _ _
                  ∙ ap (λ xs. delivered s ++ xs)
                      (ap (λ xs. take n (drop total buf) ++ xs) (sym (drop-drop total n buf))
                        ∙ take-drop n (drop total buf)),
            )
      ]

  -- A message of at most 254 bytes is delivered as one frame, after what was delivered before, whatever part of it
  -- each write takes, and the count of its bytes is returned.
  pub send-delivers :
      (fuel : ℕ) (body : List ℕ) (s : S)
      → buffer_size ≤ fuel
      → length body < 255
      → (s' : S) × (send write fuel body s ≡ wrote (suc (length body)) s')
        × (delivered s' ≡ delivered s ++ frame body)
  unfolding send after_write
  send-delivers fuel body s enough short =
      let (n, s', e1, e2, e3, e4) = law.writes (frame body) s cons-ne in
      let fits : ltb 255 (length body) ≡ false = ground (arith, short) in
      let some_written : (n == 0) ≡ false = ne→== n 0 (λ k. omega (arith, e2, k)) in
      let in_char : ltb 255 n ≡ false = ground (arith, short, e3) in
      let (s'', e5, e6) =
        send_rest-wrote fuel (frame body) n s' e3 (omega (arith, enough, short, e2))
          (omega (arith, short)) in
      let joined =
        e6
        ∙ ap (λ xs. xs ++ drop n (frame body)) e4
        ∙ append_assoc (delivered s) _ _
        ∙ ap (λ xs. delivered s ++ xs) (take-drop n (frame body)) in
      elim (Bool-cases (n == suc (length body))) [
        | inl e ↦
            let all = ==→eq n (suc (length body)) e in
            (
              s',
              rw (send, fits, e1, after_write, some_written, in_char, e) (ap (λ k. wrote k s') all),
              e4 ∙ ap (λ xs. delivered s ++ xs) (take-all n (frame body) (omega (arith, all))),
            )
        | inr e ↦ (s'', rw (send, fits, e1, after_write, some_written, in_char, e) e5, joined)
      ]

module _ {ℓ} {S : Type ℓ} (write : List ℕ → S → Option ℕ × S) where
  -- A message of 255 bytes, which the guard lets pass, is reported as not sent where one write takes all of it.
  pub send-full :
      (fuel : ℕ) (body : List ℕ) (s s' : S)
      → length body ≡ 255
      → write (frame body) s ≡ (some 256, s')
      → send write fuel body s ≡ no_value s'
  unfolding send after_write
  send-full fuel body s s' e e1 =
      let fits : ltb 255 (length body) ≡ false = rw e refl in rw (send, fits, e1, after_write) refl
