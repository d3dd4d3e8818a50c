-- ===== src/Main/Tests.antt =====
-- Starts of the program.
use boomberman.Main.{
  exits, client, start-Starts, is_bad_port, start_server, start_client, Starts, start,
}
use text.Mathlib.Text.{◌==◌ as str_eq}
use boomberman.Base.{none, refl, pos, some, ◌≡◌, if◌then◌else◌, [], ℤ, ◌∷◌, Option, String}

-- A conversion that knows two numbers.
abbrev two_ports : String → Option ℤ
two_ports text =
    if str_eq text "8080"
    then some (pos 8080)
    else (if str_eq text "80" then some (pos 80) else none)

low_port : start two_ports ("server" ∷ "80" ∷ []) ≡ exits 1
unfolding start start_server is_bad_port
low_port = refl

-- The client's port is not checked.
low_client_port : start two_ports ("client" ∷ "::1" ∷ "80" ∷ []) ≡ client "::1" (pos 80)
unfolding start start_client
low_client_port = refl

start-Starts_example :
    Starts two_ports ("server" ∷ "8080" ∷ []) (start two_ports ("server" ∷ "8080" ∷ []))
start-Starts_example = start-Starts two_ports ("server" ∷ "8080" ∷ [])
