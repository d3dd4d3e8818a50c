-- ===== src/Connection/Split.antt =====
-- The loop that splits a buffer which starts in the middle of a stream of frames.
use boomberman.Connection.{shift, buffer_size, first_byte, inc, to_size, split}
use boomberman.Connection.Frames.{
  empty, leb→le, add_one, leb→gt, drop-append, append-split, inc-small, to_size-small, frame,
  stream, IsShort, IsBounded,
}
use boomberman.Base.{
  ==→ne, subst, length-append, ==→eq, true, ◌-◌, drop, ◌==◌, ap, if◌then◌else◌, ◌∙◌, zero, refl,
  inl, inr, leb, Bool-cases, ◌<◌, arith, ◌⊎◌, ◌+◌, All, ◌≢◌, ◌≤◌, suc, map, [], length, some, ◌≡◌,
  ◌∷◌, ◌++◌, Option, List, ℕ,
}
use mathlib.Core.List.{append_assoc}

-- What the loop leaves: bytes received and not yet split, the messages queued, and what of the stream they
-- stand for.
pub record Splits {ℓ} {M : Type ℓ} (parse : ℕ → List ℕ → M) (queue : List M)
    (bodies : List (List ℕ)) (rest : List ℕ) (done : Option (List ℕ × ℕ × List M)) : Type ℓ where
  pub got : List ℕ
  pub junk : List ℕ
  pub queue' : List M
  pub left : List (List ℕ)
  pub ended : done ≡ some (got ++ junk, length got, queue')
  pub same :
      queue' ++ map (λ b. parse (length b) b) left ≡ queue ++ map (λ b. parse (length b) b) bodies
  pub rest_same : got ++ rest ≡ stream left
  pub short : All IsShort left
  pub partial :
      ((length got ≡ 0) × (queue' ≢ []))
      ⊎ ((1 ≤ length got) × (length got < inc (to_size (first_byte (got ++ junk)))))

pub append-ne {ℓ} : {A : Type ℓ} (xs : List A) (a : A) → xs ++ a ∷ [] ≢ []
append-ne [] a e = cc
append-ne (x ∷ xs) a e = cc

module _ {ℓ} {M : Type ℓ} (parse : ℕ → List ℕ → M) (bounded : IsBounded parse) where
  -- One round on a buffer that starts with a whole frame.
  split-frame :
      (fuel : ℕ) (p mid junk : List ℕ) (queue : List M)
      → IsShort p
      → split parse (suc fuel) (frame p ++ (mid ++ junk)) (suc (length p + length mid)) queue ≡ (
          if length mid == 0
          then some (frame p ++ (mid ++ junk), 0, queue ++ parse (length p) p ∷ [])
          else split parse fuel
              (mid ++ (junk ++ drop (buffer_size - (length p + 1)) (frame p ++ (mid ++ junk))))
              (length mid)
              (queue ++ parse (length p) p ∷ []))
  unfolding split shift
  split-frame fuel p mid junk queue short =
      let size = to_size-small (length p) short in
      let next = inc-small (length p) short in
      let many : leb (inc (to_size (length p))) (suc (length p + length mid)) ≡ true =
        rw (size, next) (ground arith) in
      let less : suc (length p + length mid) - inc (to_size (length p)) ≡ length mid =
        rw (size, next) (omega arith) in
      let body : parse (length p) (p ++ (mid ++ junk)) ≡ parse (length p) p =
        bounded p (mid ++ junk) in
      let move : drop (length p + 1) (frame p ++ (mid ++ junk)) ≡ mid ++ junk =
        rw (add_one (length p)) (drop-append p (mid ++ junk)) in
      let rest_of = drop (buffer_size - (length p + 1)) (frame p ++ (mid ++ junk)) in
      elim (Bool-cases (length mid == 0)) [
        | inl e ↦ rw (many, split, less, e, less, size, body) (rw (==→eq (length mid) 0 e) refl)
        | inr e ↦
            rw (many, split, less, e, less, size, body, shift)
              (rw (move, append_assoc mid junk rest_of) refl)
      ]

  split-frame_at :
      (fuel g : ℕ) (gs p mid junk : List ℕ) (queue : List M)
      → IsShort p
      → g ≡ length p
      → gs ≡ p ++ mid
      → split parse (suc fuel) (g ∷ (gs ++ junk)) (suc (length gs)) queue ≡ (
          if length mid == 0
          then some (frame p ++ (mid ++ junk), 0, queue ++ parse (length p) p ∷ [])
          else split parse fuel
              (mid ++ (junk ++ drop (buffer_size - (length p + 1)) (frame p ++ (mid ++ junk))))
              (length mid)
              (queue ++ parse (length p) p ∷ []))
  split-frame_at fuel g gs p mid junk queue short e1 e2 =
      rw (e1, e2, append_assoc p mid junk, length-append p mid)
        (split-frame fuel p mid junk queue short)

  pub split-Splits :
      (fuel : ℕ) (got junk : List ℕ) (queue : List M) (bodies : List (List ℕ)) (rest : List ℕ)
      → length got ≤ fuel
      → got ≢ []
      → All IsShort bodies
      → got ++ rest ≡ stream bodies
      → Splits parse queue bodies rest (split parse fuel (got ++ junk) (length got) queue)
  unfolding split
  split-Splits fuel [] junk queue bodies rest enough some_got short e = absurd (some_got refl)
  split-Splits zero (g ∷ gs) junk queue bodies rest enough some_got short e =
      absurd (omega (arith, enough))
  split-Splits (suc fuel) (g ∷ gs) junk queue [] rest enough some_got short e = cc
  split-Splits (suc fuel) (g ∷ gs) junk queue (p ∷ ps) rest enough some_got short e =
      let head_eq : g ≡ length p = cc in
      let tail_eq : gs ++ rest ≡ p ++ stream ps = cc in
      let size : to_size g ≡ length p = rw head_eq (to_size-small (length p) (short.0)) in
      let next : inc (to_size g) ≡ suc (length p) = ap inc size ∙ inc-small (length p) (short.0) in
      elim (Bool-cases (leb (inc (to_size g)) (suc (length gs)))) [
        | inr few ↦
            rw (few, split)
              (record {
                got = g ∷ gs;
                junk = junk;
                queue' = queue;
                left = p ∷ ps;
                ended = refl;
                same = refl;
                rest_same = e;
                short = short;
                partial = inr (
                  omega arith,
                  rw next (omega (arith, leb→gt (inc (to_size g)) (suc (length gs)) few)),
                );
              })
        | inl enough_got ↦
            let (mid, p1, p2) =
              append-split gs rest p (stream ps) tail_eq
                (omega (arith, leb→le (inc (to_size g)) (suc (length gs)) enough_got, next)) in
            let junk' = junk ++ drop (buffer_size - (length p + 1)) (frame p ++ (mid ++ junk)) in
            let queue' = queue ++ parse (length p) p ∷ [] in
            let whole = split-frame_at fuel g gs p mid junk queue (short.0) head_eq p1 in
            elim (Bool-cases (length mid == 0)) [
              | inl e0 ↦
                  let none_left = empty mid (==→eq (length mid) 0 e0) in
                  record {
                    got = [];
                    junk = frame p ++ (mid ++ junk);
                    queue' = queue';
                    left = ps;
                    ended = whole ∙ rw e0 refl;
                    same = append_assoc queue (parse (length p) p ∷ []) _;
                    rest_same = subst (λ xs. xs ++ rest ≡ stream ps) none_left p2;
                    short = short.1;
                    partial = inl (refl, append-ne queue _);
                  }
              | inr e0 ↦
                  let ih =
                    split-Splits fuel mid junk' queue' ps rest
                      (omega (arith, enough, ap length p1 ∙ length-append p mid))
                      (λ k. ==→ne (length mid) 0 e0 (ap length k)) (short.1) p2 in
                  record {
                    got = ih.got;
                    junk = ih.junk;
                    queue' = ih.queue';
                    left = ih.left;
                    ended = whole ∙ rw e0 (ih.ended);
                    same = ih.same ∙ append_assoc queue (parse (length p) p ∷ []) _;
                    rest_same = ih.rest_same;
                    short = ih.short;
                    partial = ih.partial;
                  }
            ]
      ]
