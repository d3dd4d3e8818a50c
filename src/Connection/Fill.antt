-- ===== src/Connection/Fill.antt =====
-- The loop that waits for the rest of a message, one byte at a time.
use boomberman.Connection.Frames.{
  suc_add, zero_add, empty, append-split, inc-small, frame, take-append, IsShort, IsStream,
}
use boomberman.Connection.{size_modulus, buffer_size, inc, complete, fill, Filling, store}
use boomberman.Base.{
  ◌%◌, ◌≢◌, subst, length-append, sym, ◌∙◌, ap, zero, lt→ltb, true, ltb→lt, inl, ltb→le, inr, ltb,
  Bool-cases, arith, suc, ◌≤◌, [], ◌<◌, ◌∷◌, ◌++◌, ◌≡◌, ◌+◌, drop, length, List, Option, ℕ,
}
use mathlib.Core.List.{append_assoc}

drop-beyond :
    (xs : List ℕ) (n : ℕ) (junk : List ℕ) → drop (length xs + n) (xs ++ junk) ≡ drop n junk
drop-beyond [] n junk = ap (λ k. drop k junk) (zero_add n)
drop-beyond (x ∷ xs) n junk =
    ap (λ k. drop k (x ∷ (xs ++ junk))) (suc_add (length xs) n) ∙ drop-beyond xs n junk

store-append :
    (xs ys junk : List ℕ) → store (length xs) ys (xs ++ junk) ≡ xs ++ (ys ++ drop (length ys) junk)
unfolding store
store-append xs ys junk =
    rw (take-append xs junk, drop-beyond xs (length ys) junk)
      (append_assoc xs ys (drop (length ys) junk))

-- The message is complete, and the socket stands at the start of the next one.
pub record Fills {ℓ} {S : Type ℓ} (pending : S → List ℕ) (p : List ℕ) (rest : List ℕ)
    (done : Filling S) : Type ℓ where
  pub junk : List ℕ
  pub socket : S
  pub ended : done ≡ complete (frame p ++ junk) socket
  pub aligned : pending socket ≡ rest

module _ {ℓ} {S : Type ℓ} (read : ℕ → S → Option (List ℕ) × S) (pending : S → List ℕ)
    (law : IsStream read pending) where
  pub fill-Fills :
      (fuel : ℕ) (p gs junk rest : List ℕ) (s : S)
      → IsShort p
      → length p < fuel + length gs
      → length gs ≤ length p
      → gs ++ pending s ≡ p ++ rest
      → Fills pending p rest
          (fill read fuel (length p) (length p ∷ (gs ++ junk)) (suc (length gs)) s)
  unfolding fill
  fill-Fills zero p gs junk rest s short enough fits e = absurd (omega (arith, enough, fits))
  fill-Fills (suc fuel) p gs junk rest s short enough fits e =
      let next = inc-small (length p) short in
      let lengths : length gs + length (pending s) ≡ length p + length rest =
        sym (length-append gs (pending s)) ∙ ap length e ∙ length-append p rest in
      elim (Bool-cases (ltb (suc (length gs)) (inc (length p)))) [
        | inr full ↦
            let have = ltb→le (suc (length gs)) (inc (length p)) full in
            let (mid, e1, e2) = append-split gs (pending s) p rest e (omega (arith, have, next)) in
            let none_left = empty mid (omega (arith, fits, ap length e1 ∙ length-append p mid)) in
            rw (full, fill)
              (record {
                junk = mid ++ junk;
                socket = s;
                ended =
                    ap (λ xs. complete (length p ∷ xs) s)
                      (ap (λ xs. xs ++ junk) e1 ∙ append_assoc p mid junk);
                aligned = subst (λ xs. xs ++ pending s ≡ rest) none_left e2;
              })
        | inl more ↦
            let room = ltb→lt (suc (length gs)) (inc (length p)) more in
            let wants : pending s ≢ [] = λ k. omega (arith, lengths, room, next, ap length k) in
            let (b, bytes, s', e1, e2, e3) = law.reads 1 s (omega arith) wants in
            let one = empty bytes (omega (arith, e2)) in
            let in_buffer : ltb (suc (length gs)) buffer_size ≡ true =
              lt→ltb (suc (length gs)) buffer_size (omega (arith, room, next, short)) in
            let longer = length-append gs (b ∷ []) in
            let got : (gs ++ b ∷ []) ++ pending s' ≡ p ++ rest =
              append_assoc gs (b ∷ []) (pending s')
              ∙ ap (λ xs. gs ++ xs) (subst (λ xs. (b ∷ xs) ++ pending s' ≡ pending s) one e3)
              ∙ e in
            let total : (suc (length gs) + 1) % size_modulus ≡ suc (length (gs ++ b ∷ [])) =
              omega (arith, longer, room, next, short) in
            let stored : store (suc (length gs)) (b ∷ []) (length p ∷ (gs ++ junk))
                ≡ length p ∷ ((gs ++ b ∷ []) ++ drop 1 junk) =
              store-append (length p ∷ gs) (b ∷ []) junk
              ∙ ap (λ xs. length p ∷ xs) (sym (append_assoc gs (b ∷ []) (drop 1 junk))) in
            let ih =
              fill-Fills fuel p (gs ++ b ∷ []) (drop 1 junk) rest s' short
                (omega (arith, enough, longer)) (omega (arith, room, next, longer)) got in
            rw (more, fill, e1, in_buffer, e1, one, stored, total) ih
      ]
