-- ===== src/Client/Connection.antt =====
-- `InfoDumping::constructConnection` of InfoDumping/InfoDumping.cpp, and the test of its result in
-- InfoDumping/main.cpp.
pub mod First
use project.Prelude.{
  ℕ, suc, ◌-◌, ◌^◌, Bool, true, false, not, Option, none, some, List, [], ◌∷◌, ◌++◌, ◌==◌,
  if◌then◌else◌,
}

-- `INVALID_SOCKET`, all ones in a 64-bit word.
abbrev pub invalid_socket : ℕ
invalid_socket = 2 ^ 64 - 1

-- The answers of Winsock: `WSAStartup` and `getaddrinfo`, and for each address what `socket` returns
-- and whether `connect` succeeds on it.
pub record Winsock : Type 0 where
  pub starts : Bool
  pub addresses : Option (List (ℕ × Bool))

-- What the calls leave: the sockets that were closed, in that order, and the calls of `WSACleanup`.
pub record Effects : Type 0 where
  pub closed : List ℕ
  pub cleanups : ℕ

unfoldable pub attempt : List (ℕ × Bool) → Effects → ℕ × Effects
attempt [] e = (invalid_socket, e)
attempt ((s, connects) ∷ addresses) e =
    let later = attempt addresses (record e { closed = e.closed ++ s ∷ [] }) in
    if s == invalid_socket
    then (1, record e { cleanups = suc e.cleanups })
    else if connects
    then (s, e)
    else later

unfoldable pub construct_connection : Winsock → Effects → ℕ × Effects
unfolding attempt
construct_connection w e =
    if w.starts
    then (elim w.addresses [
      | none ↦ (1, record e { cleanups = suc e.cleanups })
      | some addresses ↦ attempt addresses e
    ])
    else (1, e)

-- `_tmain` goes on to its loop.
unfoldable pub goes_on : ℕ → Bool
goes_on s = not (s == invalid_socket)
