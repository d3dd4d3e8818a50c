-- ===== src/Map/Tests.antt =====
-- The board at the start, read at a few places.
use boomberman.Base.{◌≡◌, refl, some, none, pos, negsuc}
use boomberman.Map.{new_map, get_square_state, square_at, map_width, map_height}

room_corner : get_square_state (new_map 25 map_width map_height) (pos 15) (pos 9) ≡ some 0
unfolding new_map get_square_state square_at
room_corner = refl

room_origin : (new_map 25 map_width map_height).start_x ≡ negsuc 254
unfolding new_map
room_origin = refl

window_origin : (new_map 25 800 450).start_y ≡ pos 60
unfolding new_map
window_origin = refl

off_the_board : get_square_state (new_map 25 map_width map_height) (pos 17) (pos 0) ≡ none
unfolding new_map get_square_state square_at
off_the_board = refl
