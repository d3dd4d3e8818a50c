-- ===== src/Client/Menu/Plea.antt =====
-- What the menus of game/src/client/ServerHandler.cpp send to the server.
use boomberman.Client.Menu.Received.{
  pick-back, count-append, Pick-cases, Received, pick-AnyOffered, receive_room_list-Received,
  AnyOffered, IsOffered, is_room_list,
}
use mathlib.Core.List.{append_assoc, append-nil}
use boomberman.Base.{
  true, false, ◌≤◌, ◌+◌, ℤ, length, ltb, ◌&&◌, sym, Option-cases, Bool-cases, ap, subst, ◌∙◌,
  List-cases, arith, String, refl, Option, count, ◌≡◌, ◌++◌, Bool, List, ◌∷◌, ℕ, none, some, zero,
  suc, [], inl, inr,
}
use boomberman.Client.Screen.{select_username}
use boomberman.Client.Menu.{
  throws, back_button, RoomBox, menu, rounds, round, list_round, enter_menu, menu_round, join_as,
  receive_room_list, shows, returns, exits, at_menu, at_list, pick, room_boxes, Vector2, Rectangle,
  Visit, Next, Page, Frame, new_game_button, join_game_button,
}
use boomberman.Message.{get_room_list, join_room, room_list, Message, RoomInfo}

-- `n` requests for the list of rooms.
abbrev pub requests : ℕ → List Message
requests zero = []
requests (suc n) = requests n ++ get_room_list ∷ []

-- What has been read of the messages and sent, when the last message read is the list of `rooms`, after `lists` others.
pub record IsAsked (inbox : List Message) (lists : ℕ) (rooms : List RoomInfo) (v : Visit)
    (last : List Message) : Type 0 where
  pub before : List Message
  pub read : inbox ≡ before ++ room_list rooms ∷ v.inbox
  pub counted : count is_room_list before ≡ lists
  pub asked : v.sends ≡ requests (suc lists) ++ last

-- A click in the back button.
abbrev pub is_way_back : (Vector2 → Rectangle → Bool) → Frame → Bool
is_way_back hits f = f.clicked && hits f.mouse back_button

abbrev Shown : ℕ → Page → List RoomInfo → Type 0
Shown width (at_menu rs) rooms = rs ≡ rooms
Shown width (at_list boxes camera) rooms = boxes ≡ room_boxes width 0 0 rooms

module _ (text : List ℕ → String) (keys : List ℕ) (fits : Message → Bool) where
  -- The request to join, if a name was entered.
  abbrev pub plea : Option String → List Message
  plea label = elim (select_username keys []) [
    | [] ↦ []
    | c ∷ cs ↦ join_room (text (c ∷ cs)) label ∷ []
  ]

  -- The name that was entered makes the request to join too long.
  abbrev pub IsTooLong : Option String → Type 0
  IsTooLong label =
      (c : ℕ) × (cs : List ℕ) × (select_username keys [] ≡ c ∷ cs)
      × (fits (join_room (text (c ∷ cs)) label) ≡ false)

  -- What has been sent in the menus after at most `n` ways back, by how the frame ends.
  abbrev pub IsPlea : ℕ → ℕ → List Message → Next → Type 0
  IsPlea width n inbox (shows page v) =
      (lists : ℕ) × (lists ≤ n)
      × (rooms : List RoomInfo) × Shown width page rooms
      × IsAsked inbox lists rooms v []
  IsPlea width n inbox (returns v) =
      (lists : ℕ) × (lists ≤ n)
      × (rooms : List RoomInfo) × (label : Option String) × IsOffered rooms label
      × IsAsked inbox lists rooms v (plea label)
  IsPlea width n inbox (exits sends) =
      (sends ≡ requests (suc (count is_room_list inbox))) × (count is_room_list inbox ≤ n)
  IsPlea width n inbox (throws sends) =
      (lists : ℕ) × (lists ≤ n)
      × (rooms : List RoomInfo) × (label : Option String) × IsOffered rooms label
      × IsTooLong label
      × (v : Visit) × (sends ≡ v.sends)
      × IsAsked inbox lists rooms v []

  module _ (hits : Vector2 → Rectangle → Bool) (width height : ℕ) (inbox : List Message) where
    later-IsPlea : (n b : ℕ) (x : Next) → n ≤ b → IsPlea width n inbox x → IsPlea width b inbox x
    later-IsPlea n b (shows page v) le h = (h.0, omega (arith, le, h.1), h.2, h.3, h.4)
    later-IsPlea n b (returns v) le h = (h.0, omega (arith, le, h.1), h.2, h.3, h.4, h.5)
    later-IsPlea n b (exits sends) le (e, most) = (e, omega (arith, le, most))
    later-IsPlea n b (throws sends) le (lists, most, rooms, label, offered, long, v, e, h) =
        (lists, omega (arith, le, most), rooms, label, offered, long, v, e, h)

    join_as-IsPlea :
        (n lists : ℕ) (rooms : List RoomInfo) (label : Option String) (v : Visit)
        → lists ≤ n
        → IsOffered rooms label
        → IsAsked inbox lists rooms v []
        → IsPlea width n inbox (join_as text keys fits label v)
    unfolding join_as
    join_as-IsPlea n lists rooms label v most offered h =
        elim (List-cases (select_username keys [])) [
          | inl e ↦
              let none_sent : plea label ≡ [] = rw (plea, e) refl in
              let k : IsAsked inbox lists rooms v (plea label) =
                subst (IsAsked inbox lists rooms v) (sym none_sent) h in
              rw (join_as, e) (lists, most, rooms, label, offered, k)
          | inr (c, cs, e) ↦
              let m = join_room (text (c ∷ cs)) label in
              let one_sent : plea label ≡ m ∷ [] = rw (plea, e) refl in
              elim (Bool-cases (fits m)) [
                | inl short ↦
                    let left = record v { sends = v.sends ++ m ∷ [] } in
                    let k : IsAsked inbox lists rooms left (m ∷ []) = record {
                      before = h.before;
                      read = h.read;
                      counted = h.counted;
                      asked = ap (λ ms. ms ++ m ∷ []) (h.asked ∙ append-nil (requests (suc lists)));
                    } in
                    let k' : IsAsked inbox lists rooms left (plea label) =
                      subst (IsAsked inbox lists rooms left) (sym one_sent) k in
                    rw (join_as, e, short) (lists, most, rooms, label, offered, k')
                | inr long ↦
                    let thrown : IsPlea width n inbox (throws v.sends) =
                      (lists, most, rooms, label, offered, (c, cs, e, long), v, refl, h) in
                    rw (join_as, e, long) thrown
              ]
        ]

    menu_round-IsPlea :
        (n : ℕ) (f : Frame) (lists : ℕ) (rooms : List RoomInfo) (v : Visit)
        → lists ≤ n
        → IsAsked inbox lists rooms v []
        → IsPlea width n inbox (menu_round text keys fits hits width height f rooms v)
    unfolding menu_round
    menu_round-IsPlea n f lists rooms v most h =
        elim (Bool-cases (f.clicked && hits f.mouse (new_game_button width))) [
          | inl new ↦ rw new (join_as-IsPlea n lists rooms none v most tt h)
          | inr old ↦
              elim (Bool-cases
                (ltb 0 (length rooms) && f.clicked && hits f.mouse (join_game_button width))) [
                  | inl join ↦ rw (old, join) (lists, most, rooms, refl, h)
                  | inr stay ↦ rw (old, stay) (lists, most, rooms, refl, h)
                ]
        ]

    enter_menu-IsPlea :
        (n : ℕ) (f : Frame) (lists : ℕ) (before : List Message) (v : Visit)
        → lists ≤ n
        → inbox ≡ before ++ v.inbox
        → count is_room_list before ≡ lists
        → v.sends ≡ requests lists
        → IsPlea width n inbox (enter_menu text keys fits hits width height f v)
    unfolding enter_menu
    enter_menu-IsPlea n f lists before v most e counted asked =
        let k = receive_room_list-Received v.inbox in
        elim (Option-cases (receive_room_list v.inbox)) [
          | inl gone ↦
              let k' : count is_room_list v.inbox ≡ 0 = subst (Received v.inbox) gone k in
              let all : count is_room_list inbox ≡ lists =
                ap (count is_room_list) e
                ∙ count-append is_room_list before v.inbox
                ∙ omega (arith, k', counted) in
              rw (enter_menu, gone)
                (
                  ap (λ ms. ms ++ get_room_list ∷ []) asked
                      ∙ ap (λ (k : ℕ). requests (suc k)) (sym all),
                  omega (arith, all, most),
                )
          | inr ((rooms, ms), got) ↦
              let k' = subst (Received v.inbox) got k in
              rw (enter_menu, got)
                (menu_round-IsPlea n f lists rooms
                  (record { sends = v.sends ++ get_room_list ∷ []; inbox = ms }) most
                  (record {
                    before = before ++ k'.0;
                    read =
                        e
                        ∙ ap (λ ts. before ++ ts) (k'.1)
                        ∙ sym (append_assoc before (k'.0) (room_list rooms ∷ ms));
                    counted =
                        count-append is_room_list before (k'.0) ∙ omega (arith, k'.2, counted);
                    asked =
                        ap (λ ts. ts ++ get_room_list ∷ []) asked
                        ∙ sym (append-nil (requests (suc lists)));
                  }))
        ]

    list_round-IsPlea :
        (n b : ℕ) (f : Frame) (lists : ℕ) (rooms : List RoomInfo) (camera : ℤ) (v : Visit)
        → lists ≤ n
        → n ≤ b
        → (is_way_back hits f ≡ true → suc n ≤ b)
        → IsAsked inbox lists rooms v []
        → IsPlea width b inbox
            (list_round text keys fits hits width height f (room_boxes width 0 0 rooms) camera v)
    unfolding list_round AnyOffered
    list_round-IsPlea n b f lists rooms camera v most le more h =
        let boxes = room_boxes width 0 0 rooms in
        let most' : lists ≤ b = omega (arith, most, le) in
        let picked = pick-AnyOffered hits f.mouse width 0 0 rooms in
        elim (Bool-cases f.clicked) [
          | inr still ↦ rw (list_round, still) (lists, most', rooms, refl, h)
          | inl click ↦ elim (Pick-cases (pick hits f.mouse boxes)) [
            | inl (label, e) ↦
                rw (list_round, click, e)
                  (join_as-IsPlea b lists rooms (some label) v most'
                    (subst (AnyOffered rooms) e picked) h)
            | inr (inl e) ↦
                rw (list_round, click, e)
                  (enter_menu-IsPlea b f (suc lists) (h.before ++ room_list rooms ∷ []) v
                    (later_most (more (way_back f click (pick-back hits f.mouse width 0 0 rooms e)))
                      most)
                    (h.read ∙ sym (append_assoc h.before (room_list rooms ∷ []) v.inbox))
                    (count-append is_room_list h.before (room_list rooms ∷ [])
                      ∙ omega (arith, h.counted))
                    (h.asked ∙ append-nil (requests (suc lists))))
            | inr (inr e) ↦ rw (list_round, click, e) (lists, most', rooms, refl, h)
          ]
        ]
      where
        later_most : suc n ≤ b → lists ≤ n → suc lists ≤ b
        later_most p q = omega (arith, p, q)

        way_back :
            (g : Frame)
            → g.clicked ≡ true
            → hits g.mouse back_button ≡ true
            → is_way_back hits g ≡ true
        way_back g p q = rw (p, q) refl

    round-IsPlea :
        (n b : ℕ) (f : Frame) (page : Page) (v : Visit)
        → n ≤ b
        → (is_way_back hits f ≡ true → suc n ≤ b)
        → IsPlea width n inbox (shows page v)
        → IsPlea width b inbox (round text keys fits hits width height f page v)
    unfolding round
    round-IsPlea n b f (at_menu rs) v le more (lists, most, rooms, e, h) =
        subst
          (λ (k : List RoomInfo).
            IsPlea width b inbox (menu_round text keys fits hits width height f k v))
          (sym e) (menu_round-IsPlea b f lists rooms v (omega (arith, most, le)) h)
    round-IsPlea n b f (at_list boxes camera) v le more (lists, most, rooms, e, h) =
        subst
          (λ (k : List RoomBox).
            IsPlea width b inbox (list_round text keys fits hits width height f k camera v))
          (sym e) (list_round-IsPlea n b f lists rooms camera v most le more h)

    rounds-IsPlea :
        (n b : ℕ) (fs : List Frame) (x : Next)
        → n + count (is_way_back hits) fs ≤ b
        → IsPlea width n inbox x
        → IsPlea width b inbox (rounds text keys fits hits width height fs x)
    unfolding rounds
    rounds-IsPlea n b [] x le h = later-IsPlea n b x (omega (arith, le)) h
    rounds-IsPlea n b (f ∷ fs) (shows page v) le h = elim (Bool-cases (is_way_back hits f)) [
      | inl e ↦
          rounds-IsPlea (suc n) b fs _ (ground (arith, le, e))
            (round-IsPlea n (suc n) f page v (omega arith) (λ _. omega arith) h)
      | inr e ↦
          rounds-IsPlea n b fs _ (ground (arith, le, e))
            (round-IsPlea n n f page v (omega arith) (λ e1. ground (arith, e, e1)) h)
    ]
    rounds-IsPlea n b (f ∷ fs) (returns v) le h = later-IsPlea n b (returns v) (omega (arith, le)) h
    rounds-IsPlea n b (f ∷ fs) (exits sends) le h =
        later-IsPlea n b (exits sends) (omega (arith, le)) h
    rounds-IsPlea n b (f ∷ fs) (throws sends) le h =
        later-IsPlea n b (throws sends) (omega (arith, le)) h

-- Through any frames, with any test of points and rectangles, the menus send nothing but requests for the list of rooms,
-- one at the start and afterwards at most as many as there are frames with a click in the back button, each answered by a list
-- before the next is sent; and, as the last message before they return, a request to join if a name was entered, with this name,
-- for a new room or for a room of the last list received. The process ends only when the answer to a request does not come, or
-- by the exception for a name that makes this request to join too long, which is then not sent.
pub menu-IsPlea :
    (text : List ℕ → String) (keys : List ℕ) (fits : Message → Bool)
    (hits : Vector2 → Rectangle → Bool) (width height : ℕ) (f : Frame) (fs : List Frame)
    (inbox : List Message)
    → IsPlea text keys fits width
        (count (is_way_back hits) fs)
        inbox
        (menu text keys fits hits width height f fs inbox)
unfolding menu
menu-IsPlea text keys fits hits width height f fs inbox =
    rounds-IsPlea text keys fits hits width height inbox 0 (count (is_way_back hits) fs) fs _
      (omega arith)
      (enter_menu-IsPlea text keys fits hits width height inbox 0 f 0 []
        (record { sends = []; inbox = inbox }) (omega arith) refl refl refl)
