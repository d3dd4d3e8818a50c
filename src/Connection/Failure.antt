-- ===== src/Connection/Failure.antt =====
-- `Receive` when the first `read` fails, as it does when nothing arrives in time.
use boomberman.Connection.{
  no_fuel, buffer_size, failed_count, zeros, inc, after_split, to_size, after_read, shift, receive,
  split,
}
use boomberman.Base.{
  refl, zero, ne→==, false, ◌==◌, ◌-◌, arith, true, leb, suc, [], none, ◌≡◌, ◌<◌, List, Option, ℕ,
}

module _ {ℓ} {M : Type ℓ} (parse : ℕ → List ℕ → M) where
  -- Each round takes one empty message off a buffer of zeros.
  split-zeros :
      (fuel received : ℕ) (queue : List M)
      → fuel < received
      → split parse fuel (zeros buffer_size) received queue ≡ none
  unfolding split shift to_size inc
  split-zeros zero received queue more = refl
  split-zeros (suc fuel) received queue more =
      let enough : leb 1 received ≡ true = ground (arith, more) in
      let not_done : (received - 1 == 0) ≡ false =
        ne→== (received - 1) 0 (λ k. omega (arith, k, more)) in
      rw (split, enough, not_done) (split-zeros fuel (received - 1) _ (omega (arith, more)))

module _ {ℓ κ} {S : Type ℓ} {M : Type κ} (read : ℕ → S → Option (List ℕ) × S)
    (parse : ℕ → List ℕ → M) where
  after_read-failed :
      (fuel : ℕ) (s : S)
      → fuel < failed_count
      → after_read read parse fuel (none, s) ≡ (no_fuel, [], s)
  unfolding after_read after_split to_size inc
  after_read-failed fuel s more = rw (split-zeros parse fuel failed_count [] more) refl

  -- When the queue is empty and the first read fails, no number of rounds below 2 ^ 64 - 1 is enough for Receive to
  -- return.
  pub receive-failed :
      (fuel : ℕ) (s s' : S)
      → fuel < failed_count
      → read buffer_size s ≡ (none, s')
      → receive read parse fuel [] s ≡ (no_fuel, [], s')
  unfolding receive
  receive-failed fuel s s' more e = rw e (after_read-failed fuel s' more)
