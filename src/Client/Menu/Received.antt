-- ===== src/Client/Menu/Received.antt =====
-- What the menus of game/src/client/ServerHandler.cpp read and pick: the list of rooms, and a room of it.
use boomberman.Base.{
  ◌-◌, ◌==◌, sym, ◌%◌, Bool-cases, ap, subst, if◌then◌else◌, arith, get_elem?, String, ◌⊎◌, ◌+◌,
  refl, Option, count, ◌≡◌, ◌++◌, Bool, List, ◌∷◌, ℕ, none, some, suc, [], true, false, inl, inr,
}
use boomberman.Client.Menu.{
  back_button, room_box, receive_room_list, pick, room, back, nothing, room_boxes, Vector2,
  Rectangle, Pick,
}
use boomberman.Message.{
  error, get_room_list, join_room, i_place_bomb, i_move, i_leave, room_list, welcome_to_room,
  game_join, game_start, other_bomb_place, got_hit, other_move, other_leave, game_won,
  movement_correction, Message, RoomInfo,
}

abbrev pub is_room_list : Message → Bool
is_room_list (room_list rooms) = true
is_room_list _ = false

-- The name of one of these rooms, or none for a new room.
abbrev pub IsOffered : List RoomInfo → Option String → Type 0
IsOffered rooms none = Unit {0}
IsOffered rooms (some label) =
    (k : ℕ) × (r : RoomInfo) × (get_elem? rooms k ≡ some r) × (r.name ≡ label)

Message-cases :
    (m : Message)
    → ((rooms : List RoomInfo) × (m ≡ room_list rooms))
      ⊎ ((is_room_list m ≡ false)
          × ((ms : List Message) → receive_room_list (m ∷ ms) ≡ receive_room_list ms))
unfolding receive_room_list
Message-cases (room_list rooms) = inl (rooms, refl)
Message-cases (error e) = inr (refl, λ ms. refl)
Message-cases get_room_list = inr (refl, λ ms. refl)
Message-cases (join_room u r) = inr (refl, λ ms. refl)
Message-cases (i_place_bomb x y) = inr (refl, λ ms. refl)
Message-cases (i_move x y) = inr (refl, λ ms. refl)
Message-cases i_leave = inr (refl, λ ms. refl)
Message-cases (welcome_to_room ps) = inr (refl, λ ms. refl)
Message-cases (game_join p) = inr (refl, λ ms. refl)
Message-cases game_start = inr (refl, λ ms. refl)
Message-cases (other_bomb_place u t x y) = inr (refl, λ ms. refl)
Message-cases (got_hit u n t) = inr (refl, λ ms. refl)
Message-cases (other_move u x y) = inr (refl, λ ms. refl)
Message-cases (other_leave u) = inr (refl, λ ms. refl)
Message-cases (game_won u) = inr (refl, λ ms. refl)
Message-cases (movement_correction x y) = inr (refl, λ ms. refl)

-- The wait reads up to the first list of rooms.
abbrev pub Received : List Message → Option (List RoomInfo × List Message) → Type 0
Received ms none = count is_room_list ms ≡ 0
Received ms (some (rooms, rest)) =
    (before : List Message) × (ms ≡ before ++ room_list rooms ∷ rest)
    × (count is_room_list before ≡ 0)

skipped-Received :
    (m : Message) (ms : List Message) (o : Option (List RoomInfo × List Message))
    → is_room_list m ≡ false
    → Received ms o
    → Received (m ∷ ms) o
skipped-Received m ms none other k = ground (arith, other, k)
skipped-Received m ms (some (rooms, rest)) other (before, e, none_before) =
    (m ∷ before, ap (λ ts. m ∷ ts) e, ground (arith, other, none_before))

pub receive_room_list-Received : (ms : List Message) → Received ms (receive_room_list ms)
unfolding receive_room_list
receive_room_list-Received [] = refl
receive_room_list-Received (m ∷ ms) = elim (Message-cases m) [
  | inl (rooms, e) ↦ rw e ([], refl, refl)
  | inr (other, skips) ↦
      subst (Received (m ∷ ms)) (sym (skips ms))
        (skipped-Received m ms (receive_room_list ms) other (receive_room_list-Received ms))
]

pub count-append :
    (p : Message → Bool) (xs ys : List Message) → count p (xs ++ ys) ≡ count p xs + count p ys
count-append p [] ys = omega arith
count-append p (x ∷ xs) ys = omega (arith, count-append p xs ys)

unfoldable pub AnyOffered : List RoomInfo → Pick → Type 0
AnyOffered rooms (room label) = IsOffered rooms (some label)
AnyOffered rooms back = Unit {0}
AnyOffered rooms nothing = Unit {0}

pub Pick-cases : (o : Pick) → ((label : String) × (o ≡ room label)) ⊎ ((o ≡ back) ⊎ (o ≡ nothing))
Pick-cases (room label) = inl (label, refl)
Pick-cases back = inr (inl refl)
Pick-cases nothing = inr (inr refl)

-- A label that a click picks is the name of a room.
pub pick-AnyOffered :
    (hits : Vector2 → Rectangle → Bool) (mouse : Vector2) (width i rows : ℕ) (rs : List RoomInfo)
    → AnyOffered rs (pick hits mouse (room_boxes width i rows rs))
unfolding pick room_boxes AnyOffered
pick-AnyOffered hits mouse width i rows [] = tt
pick-AnyOffered hits mouse width i rows (r ∷ rs) =
    let begun : ℕ = if i % 3 == 0 then rows + 1 else rows in
    let box = room_box width i (begun - 1) r in
    elim (Bool-cases (hits mouse box.rect)) [
      | inl hit ↦ rw hit (0, r, refl, refl)
      | inr miss ↦ elim (Bool-cases (hits mouse back_button)) [
        | inl hit ↦ rw (miss, hit) tt
        | inr off ↦
            rw (miss, off)
              (later (pick hits mouse (room_boxes width (i + 1) begun rs))
                (pick-AnyOffered hits mouse width (i + 1) begun rs))
      ]
    ]
  where
    later : (o : Pick) → AnyOffered rs o → AnyOffered (r ∷ rs) o
    later (room label) (k, r', e, n) = (suc k, r', e, n)
    later back k = tt
    later nothing k = tt

-- A way back is picked by a click in the back button only.
pub pick-back :
    (hits : Vector2 → Rectangle → Bool) (mouse : Vector2) (width i rows : ℕ) (rs : List RoomInfo)
    → pick hits mouse (room_boxes width i rows rs) ≡ back
    → hits mouse back_button ≡ true
unfolding pick room_boxes
pick-back hits mouse width i rows [] e = ground (arith, e)
pick-back hits mouse width i rows (r ∷ rs) e =
    let begun : ℕ = if i % 3 == 0 then rows + 1 else rows in
    let box = room_box width i (begun - 1) r in
    elim (Bool-cases (hits mouse back_button)) [
      | inl hit ↦ hit
      | inr off ↦ elim (Bool-cases (hits mouse box.rect)) [
        | inl hit ↦ ground (arith, e, hit)
        | inr miss ↦ pick-back hits mouse width (i + 1) begun rs (ground (arith, e, miss, off))
      ]
    ]
