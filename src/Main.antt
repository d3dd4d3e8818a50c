-- ===== src/Main.antt =====
-- game/src/Main.cpp: what the program starts for its arguments. The conversion of a text to a number is the library's `stoi`, an
-- argument here that answers nothing for an exception.
pub mod Tests
use text.Mathlib.Text.{◌==◌ as str_eq}
use boomberman.Base.{
  false, ◌∙◌, sym, arith, str_eq→eq, ap, refl, inr, inl, Option-cases, Bool-cases, ◌≡◌, none, some,
  [], ◌&&◌, not, true, negsuc, if◌then◌else◌, ◌||◌, ◌≤◌, ltb, ◌∷◌, List, Bool, pos, Option, ℤ,
  String, ℕ,
}

-- How `main` goes on: it exits with a status, or runs a server on a port or a client to an address and port.
pub data Start : Type 0 where
  exits : ℕ → Start
  server : ℤ → Start
  client : String → ℤ → Start

module _ (stoi : String → Option ℤ) where
  -- `port > 65535 || port < 1000`
  unfoldable pub is_bad_port : ℤ → Bool
  is_bad_port (pos n) = ltb 65535 n || ltb n 1000
  is_bad_port (negsuc n) = true

  unfoldable pub start_server : List String → Start
  start_server [] = exits 1
  start_server (port_arg ∷ rest) = elim (stoi port_arg) [
    | none ↦ exits 1
    | some port ↦ if is_bad_port port then exits 1 else server port
  ]

  unfoldable pub start_client : List String → Start
  start_client [] = exits 1
  start_client (address ∷ []) = exits 1
  start_client (address ∷ port_arg ∷ rest) = elim (stoi port_arg) [
    | none ↦ exits 1
    | some port ↦ client address port
  ]

  -- `main`, for the arguments behind the program's name.
  unfoldable pub start : List String → Start
  start [] = exits 1
  start (target ∷ rest) =
      if not (str_eq target "client") && not (str_eq target "server")
      then exits 1
      else (if str_eq target "server" then start_server rest else start_client rest)

  -- Arguments that start a server on port `n`, and those that start a client.
  abbrev pub AsksServer : List String → ℕ → Type 0
  AsksServer args n =
      (port_arg : String) × (rest : List String) × (args ≡ "server" ∷ port_arg ∷ rest)
      × (stoi port_arg ≡ some (pos n))
      × (1000 ≤ n)
      × (n ≤ 65535)

  abbrev pub AsksClient : List String → String → ℤ → Type 0
  AsksClient args address port =
      (port_arg : String) × (rest : List String) × (args ≡ "client" ∷ address ∷ port_arg ∷ rest)
      × (stoi port_arg ≡ some port)

  -- What is started for the arguments.
  abbrev Starts : List String → Start → Type 0
  Starts args (exits status) =
      (status ≡ 1)
      × ((n : ℕ) → ¬ AsksServer args n)
      × ((address : String) (port : ℤ) → ¬ AsksClient args address port)
  Starts args (server (pos n)) = AsksServer args n
  Starts args (server (negsuc n)) = ⊥
  Starts args (client address port) = AsksClient args address port

  -- Each call starts what it asks for.
  asks_server : (args : List String) (n : ℕ) → AsksServer args n → start args ≡ server (pos n)
  unfolding start start_server is_bad_port
  asks_server args n (port_arg, rest, e, there, low, high) =
      let k : (ltb 65535 n || ltb n 1000) ≡ false = ground (arith, low, high) in
      ap start e ∙ (rw (start_server, there, k) refl)

  asks_client :
      (args : List String) (address : String) (port : ℤ)
      → AsksClient args address port
      → start args ≡ client address port
  unfolding start start_client
  asks_client args address port (port_arg, rest, e, there) =
      ap start e ∙ (rw (start_client, there) refl)

  -- What is started was asked for, and the status of an exit is 1.
  abbrev Asked : List String → Start → Type 0
  Asked args (exits status) = status ≡ 1
  Asked args (server (pos n)) = AsksServer args n
  Asked args (server (negsuc n)) = ⊥
  Asked args (client address port) = AsksClient args address port

  checked-Asked :
      (args : List String) (port_arg : String) (rest : List String) (port : ℤ)
      → args ≡ "server" ∷ port_arg ∷ rest
      → stoi port_arg ≡ some port
      → Asked args (if is_bad_port port then exits 1 else server port)
  unfolding is_bad_port
  checked-Asked args port_arg rest (negsuc n) e there = refl
  checked-Asked args port_arg rest (pos n) e there = elim (Bool-cases (ltb 65535 n || ltb n 1000)) [
    | inl bad ↦ rw bad refl
    | inr good ↦ rw good (port_arg, rest, e, there, ground (arith, good), ground (arith, good))
  ]

  start_server-Asked :
      (target : String) (rest : List String)
      → target ≡ "server"
      → Asked (target ∷ rest) (start_server rest)
  unfolding start_server is_bad_port
  start_server-Asked target [] e = refl
  start_server-Asked target (port_arg ∷ rest) e = elim (Option-cases (stoi port_arg)) [
    | inl none_there ↦ rw (start_server, none_there) refl
    | inr (port, there) ↦
        rw (start_server, there)
          (checked-Asked (target ∷ port_arg ∷ rest) port_arg rest port
            (ap (λ t. t ∷ port_arg ∷ rest) e) there)
  ]

  start_client-Asked :
      (target : String) (rest : List String)
      → target ≡ "client"
      → Asked (target ∷ rest) (start_client rest)
  unfolding start_client
  start_client-Asked target [] e = refl
  start_client-Asked target (address ∷ []) e = refl
  start_client-Asked target (address ∷ port_arg ∷ rest) e = elim (Option-cases (stoi port_arg)) [
    | inl none_there ↦ rw (start_client, none_there) refl
    | inr (port, there) ↦
        rw (start_client, there) (port_arg, rest, ap (λ t. t ∷ address ∷ port_arg ∷ rest) e, there)
  ]

  start-Asked : (args : List String) → Asked args (start args)
  unfolding start
  start-Asked [] = refl
  start-Asked (target ∷ rest) =
      elim (Bool-cases (not (str_eq target "client") && not (str_eq target "server"))) [
        | inl e ↦ rw (start, e) refl
        | inr e ↦ elim (Bool-cases (str_eq target "server")) [
          | inl e1 ↦
              rw (start, e, e1) (start_server-Asked target rest (str_eq→eq target "server" e1))
          | inr e1 ↦
              rw (start, e, e1)
                (start_client-Asked target rest (str_eq→eq target "client" (ground (arith, e, e1))))
        ]
      ]

  exit_server : (status n : ℕ) → ¬ (exits status ≡ server (pos n))
  exit_server status n e = ground (arith, e)

  exit_client : (status : ℕ) (address : String) (port : ℤ) → ¬ (exits status ≡ client address port)
  exit_client status address port e = ground (arith, e)

  told-Starts : (args : List String) (r : Start) → start args ≡ r → Asked args r → Starts args r
  told-Starts args (exits status) e k = (
    k,
    λ n h. exit_server status n (sym e ∙ asks_server args n h),
    λ address port h. exit_client status address port (sym e ∙ asks_client args address port h),
  )
  told-Starts args (server (pos n)) e k = k
  told-Starts args (server (negsuc n)) e k = k
  told-Starts args (client address port) e k = k

  -- Whatever the arguments and the conversion of numbers, a server is started on a port exactly when the arguments are `server` and
  -- a port argument that names this port, from 1000 to 65535; a client exactly when they are `client`, the address and a port
  -- argument that names the port; and else the program exits with status 1.
  pub start-Starts : (args : List String) → Starts args (start args)
  start-Starts args = told-Starts args (start args) refl (start-Asked args)
