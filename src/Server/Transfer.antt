-- ===== src/Server/Transfer.antt =====
-- `sendAll` and `receiveAll` of server_linux/server.cpp.
-- The byte counters are `int`s there; every size in the program is at most `sizeof(box)`, 16400, so
-- they are plain numbers here. The loops count their rounds.
pub mod Totality
pub mod Live
pub mod Drained
pub mod Bounds
use project.Prelude.{
  ℕ, zero, suc, ◌+◌, ◌-◌, List, [], ◌∷◌, ◌++◌, length, take, drop, Status, ok, err, no_fuel, true,
  false, ltb,
}
use project.Socket.Buffer.{window, store_at, Received}
use project.Socket.{Sock, Written, write_error, written, write, Read, read_error, got, read, close}

-- The body after the call of `write`: an error and a count of 0 close the socket.
unfoldable pub after_write : (ℕ → Sock → Status × Sock) → Written → Sock → Status × Sock
after_write again write_error s = (err, close s)
after_write again (written zero) s = (err, close s)
after_write again (written (suc n)) s = again (suc n) s

unfoldable pub send_loop : ℕ → ℕ → List ℕ → ℕ → Sock → Status × Sock
unfolding after_write
send_loop zero size src total s = (no_fuel, s)
send_loop (suc fuel) size src total s = elim (ltb total size) [
  | false ↦ (ok, s)
  | true ↦
      let (r, s') = write (window size total src) s in
      after_write (λ n t. send_loop fuel size src (total + n) t) r s'
]

unfoldable pub send_all : ℕ → List ℕ → Sock → Status × Sock
unfolding send_loop
send_all size src s = send_loop (suc size) size src 0 s

unfoldable pub after_read : (List ℕ → Sock → Received) → List ℕ → Read → Sock → Received
after_read again dest read_error s = (err, dest, close s)
after_read again dest (got []) s = (err, dest, close s)
after_read again dest (got (b ∷ bs)) s = again (b ∷ bs) s

unfoldable pub receive_loop : ℕ → ℕ → List ℕ → ℕ → Sock → Received
unfolding after_read
receive_loop zero size dest total s = (no_fuel, dest, s)
receive_loop (suc fuel) size dest total s = elim (ltb total size) [
  | false ↦ (ok, dest, s)
  | true ↦
      let (r, s') = read (size - total) s in
      after_read
        (λ bytes t. receive_loop fuel size (store_at total bytes dest) (total + length bytes) t)
        dest r s'
]

unfoldable pub receive_all : ℕ → List ℕ → Sock → Received
unfolding receive_loop
receive_all size dest s = receive_loop (suc size) size dest 0 s
