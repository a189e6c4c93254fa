-- ===== src/Server/Transfer/Totality.antt =====
-- How `sendAll` and `receiveAll` of server_linux/server.cpp end, whatever the network answers.
use project.Prelude.{
  ℕ, zero, suc, ◌+◌, ◌-◌, ◌<◌, ◌≡◌, refl, inl, inr, true, List, [], ◌∷◌, length, Status, ok, err,
  arith, ltb, Bool-cases,
}
use project.Socket.{Sock, Written, write_error, written, write, Read, read_error, got, read, close}
use project.Socket.Buffer.{window, store_at, Received}
use project.Server.Transfer.{
  after_write, send_loop, send_all, after_read, receive_loop, receive_all,
}

-- 0 with the socket as it was left open, or 1 with the socket closed.
pub data Returns : Status → Sock → Type 0 where
  success : (s : Sock) → Returns ok s
  failed : (s : Sock) → s.closed ≡ true → Returns err s

after_write-Returns :
    (again : ℕ → Sock → Status × Sock)
    → ((n : ℕ) (t : Sock) → Returns (again (suc n) t).0 (again (suc n) t).1)
    → (r : Written) (s : Sock) → Returns (after_write again r s).0 (after_write again r s).1
unfolding after_write close
after_write-Returns again h write_error s = failed _ refl
after_write-Returns again h (written zero) s = failed _ refl
after_write-Returns again h (written (suc n)) s = h n s

send_loop-Returns :
    (fuel size : ℕ) (src : List ℕ) (total : ℕ) (s : Sock)
    → size - total < fuel
    → Returns (send_loop fuel size src total s).0 (send_loop fuel size src total s).1
unfolding send_loop
send_loop-Returns zero size src total s h = absurd (omega arith)
send_loop-Returns (suc fuel) size src total s h = elim (Bool-cases (ltb total size)) [
  | inl more ↦
      rw (more, send_loop)
        (after_write-Returns (λ n t. send_loop fuel size src (total + n) t)
          (λ n t. send_loop-Returns fuel size src (total + suc n) t (ground arith))
          (write (window size total src) s).0 (write (window size total src) s).1)
  | inr stop ↦ rw (stop, send_loop) (success s)
]

-- Whatever the network answers, `sendAll` returns, and 1 only with the socket closed.
pub send_all-Returns :
    (size : ℕ) (src : List ℕ) (s : Sock) → Returns (send_all size src s).0 (send_all size src s).1
unfolding send_all
send_all-Returns size src s = send_loop-Returns (suc size) size src 0 s (omega arith)

after_read-Returns :
    (again : List ℕ → Sock → Received) (dest : List ℕ)
    → ((b : ℕ) (bs : List ℕ) (t : Sock) → Returns (again (b ∷ bs) t).0 (again (b ∷ bs) t).2)
    → (r : Read) (s : Sock) → Returns (after_read again dest r s).0 (after_read again dest r s).2
unfolding after_read close
after_read-Returns again dest h read_error s = failed _ refl
after_read-Returns again dest h (got []) s = failed _ refl
after_read-Returns again dest h (got (b ∷ bs)) s = h b bs s

receive_loop-Returns :
    (fuel size : ℕ) (dest : List ℕ) (total : ℕ) (s : Sock)
    → size - total < fuel
    → Returns (receive_loop fuel size dest total s).0 (receive_loop fuel size dest total s).2
unfolding receive_loop
receive_loop-Returns zero size dest total s h = absurd (omega arith)
receive_loop-Returns (suc fuel) size dest total s h = elim (Bool-cases (ltb total size)) [
  | inl more ↦
      rw (more, receive_loop)
        (after_read-Returns
          (λ bs t. receive_loop fuel size (store_at total bs dest) (total + length bs) t) dest
          (λ b bs t.
            receive_loop-Returns fuel size (store_at total (b ∷ bs) dest) (total + length (b ∷ bs))
              t (ground arith))
          (read (size - total) s).0 (read (size - total) s).1)
  | inr stop ↦ rw (stop, receive_loop) (success s)
]

-- Whatever the network answers, `receiveAll` returns, and 1 only with the socket closed.
pub receive_all-Returns :
    (size : ℕ) (dest : List ℕ) (s : Sock)
    → Returns (receive_all size dest s).0 (receive_all size dest s).2
unfolding receive_all
receive_all-Returns size dest s = receive_loop-Returns (suc size) size dest 0 s (omega arith)
