-- ===== src/Connection/Long.antt =====
-- `Receive` of game/src/shared/msg/Connection.cpp at a length byte that a signed `char` does not hold.
use boomberman.Connection.Receive.{cons-ne}
use boomberman.Base.{
  drop, leb, subst, ◌++◌, ◌==◌, ◌%◌, length-append, ap, if-true, Bool-cases, ◌∙◌, if-false, sym,
  List-cases, length, ◌≡◌, ltb, if◌then◌else◌, ◌+◌, arith, List, Option, ◌≤◌, ◌<◌, ◌∷◌, ℕ, some,
  zero, suc, [], true, false, inl, inr,
}
use boomberman.Connection.{
  size_modulus, receive, after_read, after_split, split, fill, to_size, inc, store, finish_fill,
  overrun, nothing, buffer_size, zeros, Received,
}
use boomberman.Connection.Frames.{IsStream}

-- `msg_size + 1` in `size_t` is larger than the buffer.
IsHuge : ℕ → Type 0
IsHuge size = buffer_size < inc size

to_size-IsHuge : (b : ℕ) → 128 ≤ b → b < 255 → IsHuge (to_size b)
unfolding to_size inc IsHuge
to_size-IsHuge b low high = ground (arith, low, high)

module _ {ℓ κ} {S : Type ℓ} {M : Type κ} (read : ℕ → S → Option (List ℕ) × S)
    (parse : ℕ → List ℕ → M) (pending : S → List ℕ) (law : IsStream read pending) where
  -- A write past the buffer when there are more bytes than fit, else the end of the connection.
  abbrev verdict : ℕ → Received M
  verdict total = if ltb buffer_size total then overrun else nothing

  verdict-fits : (total : ℕ) → total ≤ buffer_size → verdict total ≡ nothing
  verdict-fits total h =
      let e : ltb buffer_size total ≡ false = ground (arith, h) in
      if-false (ltb buffer_size total) overrun nothing e

  verdict-over : (total : ℕ) → buffer_size < total → verdict total ≡ overrun
  verdict-over total h =
      let e : ltb buffer_size total ≡ true = ground (arith, h) in
      if-true (ltb buffer_size total) overrun nothing e

  fill-verdict :
      (fuel size : ℕ) (buf : List ℕ) (total : ℕ) (s : S)
      → IsHuge size
      → total ≤ buffer_size
      → buffer_size < fuel + total
      → (finish_fill read parse size [] (fill read fuel size buf total s)).0
        ≡ verdict (total + length (pending s))
  unfolding fill IsHuge
  fill-verdict zero size buf total s huge fits enough = absurd (omega (arith, fits, enough))
  fill-verdict (suc fuel) size buf total s huge fits enough =
      let more : ltb total (inc size) ≡ true = ground (arith, huge, fits) in
      elim (List-cases (pending s)) [
        | inl done ↦
            let (s', e, k) = law.ends 1 s done in
            rw (fill, more, e, done) (sym (verdict-fits (total + 0) (omega (arith, fits))))
        | inr (c, cs, left) ↦
            let (b, bytes, s', e, few, same) =
              law.reads 1 s (omega arith) (λ k. cons-ne (sym left ∙ k)) in
            let count : length (pending s) ≡ 1 + length (pending s') =
              ap length (sym same) ∙ length-append (b ∷ bytes) (pending s') ∙ omega (arith, few) in
            elim (Bool-cases (ltb total buffer_size)) [
              | inr full ↦
                  rw (fill, more, e, full)
                    (sym (verdict-over (total + length (pending s)) (ground (arith, full, count))))
              | inl room ↦
                  let next : (total + length (b ∷ bytes)) % size_modulus ≡ total + 1 =
                    ground (arith, room, few) in
                  rw (fill, more, e, room, next, e)
                    (fill-verdict fuel size (store total (b ∷ bytes) buf) (total + 1) s' huge
                        (ground (arith, room)) (omega (arith, enough))
                      ∙ ap verdict (omega (arith, count)))
            ]
      ]

  after_read-verdict :
      (fuel b : ℕ) (bytes : List ℕ) (s : S)
      → buffer_size ≤ fuel
      → IsHuge (to_size b)
      → suc (length bytes) ≤ buffer_size
      → (after_read read parse fuel (some (b ∷ bytes), s)).0
        ≡ verdict (suc (length bytes) + length (pending s))
  unfolding after_read after_split split store IsHuge
  after_read-verdict zero b bytes s enough huge fits = absurd (omega (arith, enough))
  after_read-verdict (suc fuel) b bytes s enough huge fits =
      let some_read : (suc (length bytes) == 0) ≡ false = ground (arith) in
      let not_whole : (suc (length bytes) == inc (to_size b)) ≡ false =
        ground (arith, huge, fits) in
      let not_full : leb (inc (to_size b)) (suc (length bytes)) ≡ false =
        ground (arith, huge, fits) in
      rw (after_read, some_read, not_whole, split, not_full, after_split, some_read)
        (fill-verdict (suc fuel) (to_size b)
          ((b ∷ bytes) ++ drop (0 + length (b ∷ bytes)) (zeros buffer_size)) (suc (length bytes)) s
          huge fits (omega (arith, enough)))

  -- A message whose length byte is from 128 to 254 is never received. When more than 256 bytes arrive, from this byte on,
  -- they are written past the end of the buffer; else the connection is taken to have ended once its end is read.
  pub receive-long :
      (fuel b : ℕ) (more : List ℕ) (s : S)
      → buffer_size ≤ fuel
      → 128 ≤ b
      → b < 255
      → pending s ≡ b ∷ more
      → (receive read parse fuel [] s).0
        ≡ (if ltb buffer_size (length (pending s)) then overrun else nothing)
  unfolding receive
  receive-long fuel b more s enough low high left =
      let (c, bytes, s', e, few, same) =
        law.reads buffer_size s (omega arith) (λ k. cons-ne (sym left ∙ k)) in
      let same' : c ∷ (bytes ++ pending s') ≡ b ∷ more = same ∙ left in
      let first : c ≡ b = cc in
      let huge = subst (λ (k : ℕ). IsHuge (to_size k)) (sym first) (to_size-IsHuge b low high) in
      let count : suc (length bytes) + length (pending s') ≡ length (pending s) =
        sym (length-append (c ∷ bytes) (pending s')) ∙ ap length same in
      ap (λ r. (after_read read parse fuel r).0) e
      ∙ after_read-verdict fuel c bytes s' enough huge few
      ∙ ap verdict count
