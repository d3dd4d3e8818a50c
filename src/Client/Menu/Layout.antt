-- ===== src/Client/Menu/Layout.antt =====
-- The boxes of the list of rooms in game/src/client/ServerHandler.cpp: where `listRooms` puts them, and which of them a click
-- picks.
use boomberman.Base.{
  subst, ◌∙◌, inl, ap, length, ◌≢◌, get_elem?, refl, ◌-◌, ◌==◌, false, if◌then◌else◌, neg_part, [],
  ◌/◌, arith, true, ◌*◌, inr, pos_part, ◌≡◌, ◌%◌, ◌<◌, List, ◌≤◌, ◌⊎◌, Bool, ◌+◌, ℤ, ◌∷◌, ℕ, pos,
  some, zero, suc,
}
use boomberman.Client.Menu.{
  RoomInfo, pick, room_boxes, Vector2, Rectangle, RoomBox, back_button, room, back, nothing,
}

-- `a + n < b` and `b < a + n`.
abbrev pub IsPast : ℤ → ℕ → ℤ → Type 0
IsPast a n b = pos_part a + n + neg_part b < pos_part b + neg_part a

abbrev pub IsShort : ℤ → ℕ → ℤ → Type 0
IsShort a n b = pos_part b + neg_part a < pos_part a + n + neg_part b

abbrev pub Inside : Vector2 → Rectangle → Type 0
Inside p r =
    IsPast r.x 0 p.x × IsShort r.x r.width p.x × IsPast r.y 0 p.y × IsShort r.y r.height p.y

abbrev pub Outside : Vector2 → Rectangle → Type 0
Outside p r =
    IsShort r.x 0 p.x ⊎ (IsPast r.x r.width p.x ⊎ (IsShort r.y 0 p.y ⊎ IsPast r.y r.height p.y))

-- What the window library documents of its test of a point and a rectangle; on the edge it may answer either way.
pub record Collides (hits : Vector2 → Rectangle → Bool) : Type 0 where
  pub within : (p : Vector2) (r : Rectangle) → Inside p r → hits p r ≡ true
  pub beyond : (p : Vector2) (r : Rectangle) → Outside p r → hits p r ≡ false

-- Three boxes to a row.
abbrev pub place : ℕ → ℕ → Rectangle
place width k = record {
  x = pos (138 + (k % 3) * (width / 4));
  y = pos ((k / 3) * 120 + 70);
  width = 150;
  height = 60;
}

placed : ℕ → ℕ → List RoomInfo → List RoomBox
placed width i [] = []
placed width i (r ∷ rs) =
    record { rect = place width i; label = r.name; players_in = r.players }
    ∷ placed width (i + 1) rs

room_boxes-placed :
    (width i rows : ℕ) (rs : List RoomInfo)
    → rows ≡ (i + 2) / 3
    → room_boxes width i rows rs ≡ placed width i rs
unfolding room_boxes placed
room_boxes-placed width i rows [] e = refl
room_boxes-placed width i rows (r ∷ rs) e =
    let begun : ℕ = if i % 3 == 0 then rows + 1 else rows in
    let next : begun ≡ (i + 1 + 2) / 3 = ground (arith, e) in
    let here : begun - 1 ≡ i / 3 = ground (arith, e) in
    let left : 110 + (i % 3) * (width / 4) + 28 ≡ 138 + (i % 3) * (width / 4) = omega arith in
    rw (here, left, room_boxes-placed width (i + 1) begun rs next) refl

columns_apart : (q a b : ℕ) → 150 ≤ q → a < b → b < 3 → a * q + 150 ≤ b * q
columns_apart q zero (suc zero) h l t = omega (arith, h)
columns_apart q zero (suc (suc zero)) h l t = omega (arith, h)
columns_apart q (suc zero) (suc (suc zero)) h l t = omega (arith, h)
columns_apart q a b h l t = omega (arith, h, l, t)

rows_or_columns : (i j : ℕ) → i < j → (i / 3 < j / 3) ⊎ (i / 3 ≡ j / 3) × (i % 3 < j % 3)
rows_or_columns i j l = ground (arith, l)

module _ (width : ℕ) (wide : 600 ≤ width) where
  -- A point in one box is beyond the boxes before it, and beyond the button.
  place-Outside :
      (i j : ℕ) (p : Vector2) → i < j → Inside p (place width j) → Outside p (place width i)
  place-Outside i j p l h = elim (rows_or_columns i j l) [
    | inl rows ↦ let low = h.2 in inr (inr (inr (omega (arith, low, rows))))
    | inr (same, columns) ↦
        let left = h.0 in
        let apart =
          columns_apart (width / 4) (i % 3) (j % 3) (omega (arith, wide)) columns (omega arith) in
        inr (inl (omega (arith, left, apart)))
  ]

  place-Outside_back : (j : ℕ) (p : Vector2) → Inside p (place width j) → Outside p back_button
  place-Outside_back j p h = let low = h.2 in inr (inr (inr (omega (arith, low))))

  back-Outside : (j : ℕ) (p : Vector2) → Inside p back_button → Outside p (place width j)
  back-Outside j p h = let low = h.3 in inr (inr (inl (omega (arith, low))))

  module _ (hits : Vector2 → Rectangle → Bool) (c : Collides hits) (p : Vector2) where
    pick-room :
        (i k : ℕ) (rs : List RoomInfo) (r : RoomInfo)
        → get_elem? rs k ≡ some r
        → Inside p (place width (i + k))
        → pick hits p (placed width i rs) ≡ room r.name
    unfolding pick placed
    pick-room i k [] r e h = cc
    pick-room i zero (r' ∷ rs) r e h =
        let hit =
          c.within p (place width i)
            (subst (λ (n : ℕ). Inside p (place width n)) (omega arith) h) in
        rw hit (cc)
    pick-room i (suc k) (r' ∷ rs) r e h =
        let miss = c.beyond p (place width i) (place-Outside i (i + suc k) p (omega arith) h) in
        let off = c.beyond p back_button (place-Outside_back (i + suc k) p h) in
        rw (miss, off)
          (pick-room (i + 1) k rs r e (subst (λ (n : ℕ). Inside p (place width n)) (omega arith) h))

    pick-nothing :
        (i : ℕ) (rs : List RoomInfo)
        → ((k : ℕ) → k < length rs → Outside p (place width (i + k)))
        → Outside p back_button
        → pick hits p (placed width i rs) ≡ nothing
    unfolding pick placed
    pick-nothing i [] h o = refl
    pick-nothing i (r ∷ rs) h o =
        let miss =
          c.beyond p (place width i)
            (subst (λ (n : ℕ). Outside p (place width n)) (omega arith) (h 0 (omega arith))) in
        rw (miss, c.beyond p back_button o)
          (pick-nothing (i + 1) rs
            (λ k l.
              subst (λ (n : ℕ). Outside p (place width n)) (omega arith)
                (h (k + 1) (omega (arith, l))))
            o)

    pick-back :
        (rs : List RoomInfo)
        → rs ≢ []
        → Inside p back_button
        → pick hits p (placed width 0 rs) ≡ back
    unfolding pick placed
    pick-back [] n h = absurd (n refl)
    pick-back (r ∷ rs) n h =
        rw (c.beyond p (place width 0) (back-Outside 0 p h), c.within p back_button h) refl

-- What a click picks of the list of these rooms.
pub record Picks (hits : Vector2 → Rectangle → Bool) (width : ℕ) (rooms : List RoomInfo)
    (p : Vector2) : Type 0 where
  pub on_room :
      (k : ℕ) (r : RoomInfo)
      → get_elem? rooms k ≡ some r
      → Inside p (place width k)
      → pick hits p (room_boxes width 0 0 rooms) ≡ room r.name
  pub on_back : rooms ≢ [] → Inside p back_button → pick hits p (room_boxes width 0 0 rooms) ≡ back
  pub on_nothing :
      ((k : ℕ) → k < length rooms → Outside p (place width k))
      → Outside p back_button
      → pick hits p (room_boxes width 0 0 rooms) ≡ nothing

-- On a window of 600 pixels or more across, a click in the box of a room, the n-th being in column n % 3 and row n / 3,
-- picks this room; a click in the button goes back, unless there is no room; a click elsewhere picks nothing.
pub room_boxes-Picks :
    (hits : Vector2 → Rectangle → Bool) (width : ℕ) (rooms : List RoomInfo) (p : Vector2)
    → Collides hits
    → 600 ≤ width
    → Picks hits width rooms p
room_boxes-Picks hits width rooms p c wide =
    let same = room_boxes-placed width 0 0 rooms refl in
    record {
      on_room = λ k r e h.
          ap (pick hits p) same
          ∙ pick-room width wide hits c p 0 k rooms r e
              (subst (λ (n : ℕ). Inside p (place width n)) (omega arith) h);
      on_back = λ n h. ap (pick hits p) same ∙ pick-back width wide hits c p rooms n h;
      on_nothing = λ h o.
          ap (pick hits p) same
          ∙ pick-nothing width wide hits c p 0 rooms
              (λ k l. subst (λ (n : ℕ). Outside p (place width n)) (omega arith) (h k l)) o;
    }
