-- ===== src/Client/Fire.antt =====
-- `EntityHandler::tryExtinguish`: how it puts out the tiles that have burnt long enough.
use native.Mathlib.Nat.{pow-suc}
use boomberman.Client.{try_extinguish, EntityHandler, pass_over, extinguish, should_calm_down}
use boomberman.Bomb.{TileOnFire}
use boomberman.Base.{
  ◌∙◌, sym, ap, zero, ◌^◌, suc, ◌<◌, refl, ◌+◌, [], arith, ◌≤◌, ◌∷◌, ◌*◌, ◌≡◌, not, keep, count,
  List, ℕ,
}

-- The tiles that still burn.
abbrev pub burning : ℕ → List TileOnFire → List TileOnFire
burning now ts = keep (λ t. not (should_calm_down now t)) ts

abbrev pub burnt : ℕ → List TileOnFire → ℕ
burnt now ts = count (should_calm_down now) ts

mutual
  extinguish-keeps :
      (now : ℕ) (ts : List TileOnFire) → burning now (extinguish now ts) ≡ burning now ts
  extinguish-keeps now [] = refl
  extinguish-keeps now (t ∷ ts) = ground (arith, extinguish-keeps now ts, pass_over-keeps now ts)

  pass_over-keeps :
      (now : ℕ) (ts : List TileOnFire) → burning now (pass_over now ts) ≡ burning now ts
  pass_over-keeps now [] = refl
  pass_over-keeps now (t ∷ ts) = ground (arith, extinguish-keeps now ts)

mutual
  -- At least half of the burnt tiles go at once.
  extinguish-halves :
      (now : ℕ) (ts : List TileOnFire) → burnt now (extinguish now ts) * 2 ≤ burnt now ts
  extinguish-halves now [] = omega arith
  extinguish-halves now (t ∷ ts) = ground (arith, extinguish-halves now ts, pass_over-halves now ts)

  pass_over-halves :
      (now : ℕ) (ts : List TileOnFire) → burnt now (pass_over now ts) * 2 ≤ burnt now ts + 1
  pass_over-halves now [] = omega arith
  pass_over-halves now (t ∷ ts) = ground (arith, extinguish-halves now ts)

-- So many frames at one time.
unfoldable pub extinguish_frames : ℕ → ℕ → EntityHandler → EntityHandler
extinguish_frames zero now eh = eh
extinguish_frames (suc frames) now eh = extinguish_frames frames now (try_extinguish now eh)

burning-all : (now : ℕ) (ts : List TileOnFire) → burnt now ts ≡ 0 → burning now ts ≡ ts
burning-all now [] e = refl
burning-all now (t ∷ ts) e = ground (arith, e, burning-all now ts)

-- When there are fewer than 2 ^ n tiles that have burnt for 0.3 seconds, n calls of tryExtinguish at that time leave
-- exactly the tiles that have not, in their order, and change nothing else.
pub extinguish_frames-burning :
    (frames now : ℕ) (eh : EntityHandler)
    → burnt now eh.the_floor_is_lava < 2 ^ frames
    → extinguish_frames frames now eh
      ≡ record eh { the_floor_is_lava = burning now eh.the_floor_is_lava }
unfolding extinguish_frames try_extinguish
extinguish_frames-burning zero now eh few =
    ap (λ ts. record eh { the_floor_is_lava = ts })
      (sym (burning-all now eh.the_floor_is_lava (omega (arith, few))))
extinguish_frames-burning (suc frames) now eh few =
    let fewer = extinguish-halves now eh.the_floor_is_lava in
    let rest =
      extinguish_frames-burning frames now (try_extinguish now eh)
        (omega (arith, few, fewer, pow-suc 2 frames)) in
    rest
    ∙ ap (λ ts. record eh { the_floor_is_lava = ts }) (extinguish-keeps now eh.the_floor_is_lava)
