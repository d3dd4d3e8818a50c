-- ===== src/Connection/Receive.antt =====
-- `Receive` on a socket that carries frames.
use boomberman.Connection.Fill.{fill-Fills}
use boomberman.Connection.Split.{split-Splits, append-ne, Splits}
use boomberman.Connection.{
  first_byte, split, inc, complete, zeros, fill, store, to_size, after_read, pop_front, message,
  buffer_size, receive, after_split, Received,
}
use boomberman.Connection.Frames.{
  append-split, inc-small, frame, empty, to_size-small, stream, IsShort, IsBounded, IsStream,
}
use boomberman.Base.{
  if◌then◌else◌, length-append, ==→eq, inr, subst, Bool-cases, ap, false, ◌+◌, ◌∙◌, ◌==◌, inl, drop,
  sym, suc, arith, some, ◌<◌, length, All, refl, map, ◌++◌, ◌≤◌, ◌∷◌, [], ◌≡◌, ◌≢◌, Option, List, ℕ,
}
use mathlib.Core.List.{append_assoc}

-- What a call that returns a message leaves: the messages still to come are the ones before it, less the first.
pub record Delivers {ℓ κ} {S : Type ℓ} {M : Type κ} (parse : ℕ → List ℕ → M) (pending : S → List ℕ)
    (queue : List M) (bodies : List (List ℕ)) (done : Received M × List M × S) : Type (ℓ ⊔ κ) where
  pub first : M
  pub queue' : List M
  pub socket : S
  pub left : List (List ℕ)
  pub ended : done ≡ (message first, queue', socket)
  pub same :
      (first ∷ queue') ++ map (λ b. parse (length b) b) left
      ≡ queue ++ map (λ b. parse (length b) b) bodies
  pub aligned : pending socket ≡ stream left
  pub short : All IsShort left

pop_front-some {ℓ} :
    {M : Type ℓ} (queue : List M)
    → queue ≢ []
    → (m : M) × (queue' : List M) × (queue ≡ m ∷ queue') × (pop_front queue ≡ (message m, queue'))
pop_front-some [] some_left = absurd (some_left refl)
pop_front-some (m ∷ queue) some_left = (m, queue, refl, refl)

positive : (n : ℕ) → (suc n == 0) ≡ false
positive n = ground arith

pub cons-ne {ℓ} : {A : Type ℓ} {x : A} {xs : List A} → x ∷ xs ≢ []
cons-ne e = cc

module _ {ℓ κ} {S : Type ℓ} {M : Type κ} (read : ℕ → S → Option (List ℕ) × S)
    (parse : ℕ → List ℕ → M) (pending : S → List ℕ) (law : IsStream read pending)
    (bounded : IsBounded parse) where
  -- The message that the second loop completes is given out after the ones queued before it.
  after_split-partial :
      (fuel : ℕ) (gs junk : List ℕ) (queue : List M) (s : S) (p : List ℕ) (ps : List (List ℕ))
      → buffer_size ≤ fuel
      → All IsShort (p ∷ ps)
      → length gs < length p
      → gs ++ pending s ≡ p ++ stream ps
      → Delivers parse pending queue
          (p ∷ ps)
          (after_split read parse fuel (some (length p ∷ (gs ++ junk), suc (length gs), queue)) s)
  unfolding after_split
  after_split-partial fuel gs junk queue s p ps enough short few e =
      let f =
        fill-Fills read pending law fuel p gs junk (stream ps) s (short.0)
          (omega (arith, enough, short.0)) (omega (arith, few)) e in
      let (m, queue', e1, e2) =
        pop_front-some (queue ++ parse (length p) p ∷ []) (append-ne queue _) in
      let size = to_size-small (length p) (short.0) in
      let buf : fill read fuel (to_size (length p)) (length p ∷ (gs ++ junk)) (suc (length gs)) s
          ≡ complete (frame p ++ f.junk) f.socket =
        rw size (f.ended) in
      record {
        first = m;
        queue' = queue';
        socket = f.socket;
        left = ps;
        ended = rw (after_split, positive (length gs), buf, size, bounded p f.junk, e2) refl;
        same =
            ap (λ q. q ++ map (λ b. parse (length b) b) ps) (sym e1)
            ∙ append_assoc queue (parse (length p) p ∷ []) _;
        aligned = f.aligned;
        short = short.1;
      }

  after_split-rest :
      (fuel : ℕ) (got junk : List ℕ) (queue : List M) (s : S) (left : List (List ℕ))
      → buffer_size ≤ fuel
      → All IsShort left
      → 1 ≤ length got
      → length got < inc (to_size (first_byte (got ++ junk)))
      → got ++ pending s ≡ stream left
      → Delivers parse pending queue left
          (after_split read parse fuel (some (got ++ junk, length got, queue)) s)
  after_split-rest fuel [] junk queue s left enough short few size e = absurd (omega (arith, few))
  after_split-rest fuel (g ∷ gs) junk queue s [] enough short few size e = absurd (cons-ne e)
  after_split-rest fuel (g ∷ gs) junk queue s (p ∷ ps) enough short few size e =
      let head_eq : g ≡ length p = cc in
      let next : inc (to_size g) ≡ suc (length p) =
        ap inc (rw head_eq (to_size-small (length p) (short.0))) ∙ inc-small (length p) (short.0) in
      rw head_eq (
        after_split-partial fuel gs junk queue s p ps enough short (omega (arith, size, next)) (cc))

  after_split-Delivers :
      (fuel : ℕ) (bodies : List (List ℕ)) (result : Option (List ℕ × ℕ × List M)) (s : S)
      → buffer_size ≤ fuel
      → Splits parse [] bodies (pending s) result
      → Delivers parse pending [] bodies (after_split read parse fuel result s)
  unfolding after_split
  after_split-Delivers fuel bodies result s enough sp = elim (sp.partial) [
    | inl whole ↦
        let none_left = empty sp.got (whole.0) in
        let (m, queue', e3, e4) = pop_front-some sp.queue' (whole.1) in
        record {
          first = m;
          queue' = queue';
          socket = s;
          left = sp.left;
          ended = rw (sp.ended, after_split, whole.0, e4) refl;
          same = ap (λ q. q ++ map (λ b. parse (length b) b) sp.left) (sym e3) ∙ sp.same;
          aligned = subst (λ xs. xs ++ pending s ≡ stream sp.left) none_left sp.rest_same;
          short = sp.short;
        }
    | inr some_left ↦
        let d =
          after_split-rest fuel sp.got sp.junk sp.queue' s sp.left enough sp.short (some_left.0)
            (some_left.1) sp.rest_same in
        record {
          first = d.first;
          queue' = d.queue';
          socket = d.socket;
          left = d.left;
          ended = ap (λ r. after_split read parse fuel r s) sp.ended ∙ d.ended;
          same = d.same ∙ sp.same;
          aligned = d.aligned;
          short = d.short;
        }
  ]

  from_start : ℕ → List ℕ → List ℕ
  from_start b bytes = drop (0 + length (b ∷ bytes)) (zeros buffer_size)

  after_read-some :
      (fuel b : ℕ) (bytes : List ℕ) (s : S)
      → after_read read parse fuel (some (b ∷ bytes), s) ≡ (
          if suc (length bytes) == inc (to_size b)
          then (message (parse (to_size b) (bytes ++ from_start b bytes)), [], s)
          else after_split read parse fuel
              (split parse fuel ((b ∷ bytes) ++ from_start b bytes) (suc (length bytes)) [])
              s)
  unfolding after_read store from_start
  after_read-some fuel b bytes s = elim (Bool-cases (suc (length bytes) == inc (to_size b))) [
    | inl e ↦ rw (after_read, positive (length bytes), e) refl
    | inr e ↦ rw (after_read, positive (length bytes), e) refl
  ]

  after_read-Delivers :
      (fuel b : ℕ) (bytes : List ℕ) (s : S) (p : List ℕ) (ps : List (List ℕ))
      → buffer_size ≤ fuel
      → suc (length bytes) ≤ buffer_size
      → All IsShort (p ∷ ps)
      → b ≡ length p
      → bytes ++ pending s ≡ p ++ stream ps
      → Delivers parse pending [] (p ∷ ps) (after_read read parse fuel (some (b ∷ bytes), s))
  after_read-Delivers fuel b bytes s p ps enough fits short e1 e2 =
      let junk = from_start b bytes in
      let opened = after_read-some fuel b bytes s in
      let size : to_size b ≡ length p = rw e1 (to_size-small (length p) (short.0)) in
      elim (Bool-cases (suc (length bytes) == inc (to_size b))) [
        | inl e ↦
            let next : inc (to_size b) ≡ suc (length p) =
              ap inc size ∙ inc-small (length p) (short.0) in
            let all : suc (length bytes) ≡ inc (to_size b) =
              ==→eq (suc (length bytes)) (inc (to_size b)) e in
            let (mid, e3, e4) =
              append-split bytes (pending s) p (stream ps) e2 (omega (arith, all, next)) in
            let none_left =
              empty mid (omega (arith, all, next, ap length e3 ∙ length-append p mid)) in
            let body : parse (to_size b) (bytes ++ junk) ≡ parse (length p) p = rw size (
              ap (λ xs. parse (length p) (xs ++ junk)) e3
              ∙ ap (parse (length p)) (append_assoc p mid junk)
              ∙ bounded p (mid ++ junk)) in
            record {
              first = parse (length p) p;
              queue' = [];
              socket = s;
              left = ps;
              ended = opened ∙ rw (e, body) refl;
              same = refl;
              aligned = subst (λ xs. xs ++ pending s ≡ stream ps) none_left e4;
              short = short.1;
            }
        | inr e ↦
            rw (opened, e)
              (after_split-Delivers fuel (p ∷ ps) _ s enough (
                split-Splits parse bounded fuel (b ∷ bytes) junk [] (p ∷ ps) (pending s)
                  (omega (arith, enough, fits)) (λ k. cc) short (cc)))
      ]

  -- A call of `Receive` while messages are to come returns the first of them, whatever the sizes of the reads.
  pub receive-Delivers :
      (fuel : ℕ) (queue : List M) (bodies : List (List ℕ)) (s : S)
      → buffer_size ≤ fuel
      → All IsShort bodies
      → pending s ≡ stream bodies
      → queue ++ map (λ b. parse (length b) b) bodies ≢ []
      → Delivers parse pending queue bodies (receive read parse fuel queue s)
  unfolding receive
  receive-Delivers fuel (m ∷ queue) bodies s enough short e more = record {
    first = m;
    queue' = queue;
    socket = s;
    left = bodies;
    ended = refl;
    same = refl;
    aligned = e;
    short = short;
  }
  receive-Delivers fuel [] [] s enough short e more = absurd (more refl)
  receive-Delivers fuel [] (p ∷ ps) s enough short e more =
      let (b, bytes, s', e1, e2, e3) =
        law.reads buffer_size s (omega arith) (λ k. cons-ne (sym e ∙ k)) in
      let all : (b ∷ bytes) ++ pending s' ≡ frame p ++ stream ps = e3 ∙ e in
      rw e1 (after_read-Delivers fuel b bytes s' p ps enough e2 short (cc) (cc))
