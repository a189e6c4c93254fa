-- ===== src/Client/Connection/First.antt =====
-- Which socket `constructConnection` of InfoDumping/InfoDumping.cpp returns.
use project.Prelude.{
  ℕ, ◌≡◌, ◌≢◌, refl, sym, ◌∙◌, ap, Bool, true, false, none, some, List, [], ◌∷◌, ◌++◌, map, All,
  append_assoc, append-nil, ◌==◌, ◌⊎◌, inl, inr, arith, Bool-cases,
}
use project.Client.Connection.{
  invalid_socket, Winsock, Effects, attempt, construct_connection, goes_on,
}

-- A socket was made, and `connect` failed on it.
abbrev pub IsRefused : ℕ × Bool → Type 0
IsRefused (s, connects) = (s ≢ invalid_socket) × (connects ≡ false)

attempt_refused :
    (refused rest : List (ℕ × Bool)) (e : Effects)
    → All IsRefused refused
    → attempt (refused ++ rest) e
      ≡ attempt rest (record e { closed = e.closed ++ map (λ a. a.0) refused })
unfolding attempt
attempt_refused [] rest e h =
    ap (λ c. attempt rest (record e { closed = c })) (sym (append-nil e.closed))
attempt_refused ((s, connects) ∷ refused) rest e ((made, fails), h) =
    let valid : (s == invalid_socket) ≡ false = ground arith in
    let later = attempt_refused refused rest (record e { closed = e.closed ++ s ∷ [] }) h in
    rw (valid, fails, attempt)
      (later
        ∙ ap (λ c. attempt rest (record e { closed = c }))
            (append_assoc e.closed (s ∷ []) (map (λ a. a.0) refused)))

-- Winsock starts, the name resolves, a socket is made for each address up to one that connects,
-- and every address before it is refused: the result is that one's socket, and exactly the sockets
-- before it were closed, in their order.
pub construct_connection_first :
    (w : Winsock) (refused rest : List (ℕ × Bool)) (s : ℕ) (e : Effects)
    → w.starts ≡ true
    → w.addresses ≡ some (refused ++ (s, true) ∷ rest)
    → All IsRefused refused
    → s ≢ invalid_socket
    → construct_connection w e ≡ (s, record e { closed = e.closed ++ map (λ a. a.0) refused })
unfolding construct_connection
construct_connection_first w refused rest s e starts resolved h made =
    let valid : (s == invalid_socket) ≡ false = ground arith in
    rw (starts, resolved, construct_connection)
      (attempt_refused refused ((s, true) ∷ rest) e h ∙ rw (valid, attempt))

-- Winsock starts, the name resolves, and for every address a socket is made and the connection is
-- refused: every socket was closed, and the test of `_tmain` finds that there is no connection.
construct_connection_refused :
    (w : Winsock) (refused : List (ℕ × Bool)) (e : Effects)
    → w.starts ≡ true
    → w.addresses ≡ some refused
    → All IsRefused refused
    → ((construct_connection w e).1.closed ≡ e.closed ++ map (λ a. a.0) refused)
      × (goes_on (construct_connection w e).0 ≡ false)
unfolding construct_connection goes_on
construct_connection_refused w refused e starts resolved h =
    let all : attempt refused e
        ≡ (invalid_socket, record e { closed = e.closed ++ map (λ a. a.0) refused }) =
      rw (append-nil refused) at (attempt_refused refused [] e h) in
    rw (starts, resolved, construct_connection, all) (refl, refl)

-- Winsock does not start, or the name does not resolve: `_tmain` goes on as if it were connected.
pub construct_connection_unnoticed :
    (w : Winsock) (e : Effects)
    → (w.starts ≡ false) ⊎ (w.addresses ≡ none)
    → goes_on (construct_connection w e).0 ≡ true
unfolding construct_connection goes_on
construct_connection_unnoticed w e (inl dead) = rw (dead, construct_connection)
construct_connection_unnoticed w e (inr unresolved) = elim (Bool-cases w.starts) [
  | inl starts ↦ rw (starts, unresolved, construct_connection)
  | inr dead ↦ rw (dead, construct_connection)
]
