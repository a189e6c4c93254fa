-- ===== src/Client/Transfer.antt =====
-- `sendAll` and `receiveAll` of InfoDumping/InfoDumping.cpp.
-- Unlike the server's, their counters are of type `unsigned int`: the -1 of a failed call becomes
-- 4294967295, and sums wrap. A loop may go on for ever, so it takes fuel.
pub mod Live
pub mod Errors
use project.Prelude.{
  ℕ, zero, suc, ◌+◌, ◌-◌, ◌^◌, ◌%◌, List, [], Status, ok, err, no_fuel, true, false, length, ltb,
  ◌==◌, if◌then◌else◌,
}
use project.Socket.{Sock, Written, write_error, written, write, Read, read_error, got, read, close}
use project.Socket.Buffer.{window, store_at, Received}

abbrev pub uint_mod : ℕ
uint_mod = 2 ^ 32

-- `unsigned int bytesSent = send(...)`
unfoldable pub sent_count : Written → ℕ
sent_count write_error = uint_mod - 1
sent_count (written n) = n

-- The body after the call of `send`. The test `bytesSent < 0` is there, and never holds.
unfoldable pub after_send : (ℕ → Sock → Status × Sock) → ℕ → Sock → Status × Sock
after_send again count s =
    if ltb count 0 then (err, close s) else if count == 0 then (err, close s) else again count s

unfoldable pub send_loop : ℕ → ℕ → List ℕ → ℕ → Sock → Status × Sock
send_loop zero size src total s = (no_fuel, s)
send_loop (suc fuel) size src total s = elim (ltb total size) [
  | false ↦ (ok, s)
  | true ↦
      let (r, s') = write (window size total src) s in
      after_send (λ n t. send_loop fuel size src ((total + n) % uint_mod) t) (sent_count r) s'
]

unfoldable pub send_all : ℕ → ℕ → List ℕ → Sock → Status × Sock
unfolding send_loop after_send sent_count
send_all fuel size src s = send_loop fuel size src 0 s

-- `unsigned int bytesReceived = recv(...)`, and the bytes that the call stored.
unfoldable pub read_count : Read → ℕ
read_count read_error = uint_mod - 1
read_count (got bytes) = length bytes

unfoldable pub read_bytes : Read → List ℕ
read_bytes read_error = []
read_bytes (got bytes) = bytes

-- The body after the call of `recv`.
unfoldable pub after_recv : (ℕ → Sock → Received) → List ℕ → ℕ → Sock → Received
after_recv again dest count s =
    if ltb count 0
    then (err, dest, close s)
    else if count == 0
    then (err, dest, close s)
    else again count s

unfoldable pub receive_loop : ℕ → ℕ → List ℕ → ℕ → Sock → Received
receive_loop zero size dest total s = (no_fuel, dest, s)
receive_loop (suc fuel) size dest total s = elim (ltb total size) [
  | false ↦ (ok, dest, s)
  | true ↦
      let (r, s') = read (size - total) s in
      after_recv
        (λ n t.
          receive_loop fuel size (store_at total (read_bytes r) dest) ((total + n) % uint_mod) t)
        dest (read_count r) s'
]

unfoldable pub receive_all : ℕ → ℕ → List ℕ → Sock → Received
unfolding receive_loop after_recv read_count read_bytes
receive_all fuel size dest s = receive_loop fuel size dest 0 s
