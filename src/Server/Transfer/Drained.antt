-- ===== src/Server/Transfer/Drained.antt =====
-- How much `receiveAll` of server_linux/server.cpp takes from a connection, whatever the network
-- answers.
use project.Prelude.{
  ℕ, zero, suc, ◌+◌, ◌-◌, ◌≤◌, ◌<◌, ◌≡◌, inl, inr, List, [], ◌∷◌, length, Status, ok, err, arith,
  ltb, Bool-cases,
}
use project.Socket.{Sock, Read, read, close}
use project.Socket.Buffer.{store_at, Received}
use project.Socket.Counts.{Reads, lost, taken, read-Reads}
use project.Server.Transfer.{after_read, receive_loop, receive_all}

-- All `n` bytes were taken, or the transfer failed and took some bytes or none.
pub data Drained (n m : ℕ) : Status → Sock → Type 0 where
  all : (t : Sock) → n + length t.input ≡ m → Drained n m ok t
  part : (t : Sock) → length t.input ≤ m → Drained n m err t

-- A transfer behind another that took `k` bytes.
shift_end :
    (n m n' m' k : ℕ) (r : Status) (t : Sock)
    → k + n ≡ n'
    → k + m ≡ m'
    → Drained n m r t
    → Drained n' m' r t
shift_end n m n' m' k r t p q (all _ e) = all t (omega arith)
shift_end n m n' m' k r t p q (part _ le) = part t (omega arith)

after_read-Drained :
    (again : List ℕ → Sock → Received) (dest : List ℕ) (n k : ℕ) (s : Sock)
    → ((b : ℕ) (bs : List ℕ) (t : Sock)
        → length (b ∷ bs) ≤ k
        → length (b ∷ bs) + length t.input ≡ length s.input
        → Drained n (length s.input) (again (b ∷ bs) t).0 (again (b ∷ bs) t).2)
    → (r : Read) (t : Sock) → Reads k s r t
    → Drained n (length s.input) (after_read again dest r t).0 (after_read again dest r t).2
unfolding after_read close
after_read-Drained again dest n k s h r t (lost _ e) = part _ (omega arith)
after_read-Drained again dest n k s h r t (taken [] _ le e) = part _ (omega arith)
after_read-Drained again dest n k s h r t (taken (b ∷ bs) _ le e) = h b bs t le e

receive_loop-Drained :
    (fuel size : ℕ) (dest : List ℕ) (total : ℕ) (s : Sock)
    → size - total < fuel
    → Drained
        (size - total)
        (length s.input)
        (receive_loop fuel size dest total s).0
        (receive_loop fuel size dest total s).2
unfolding receive_loop
receive_loop-Drained zero size dest total s h = absurd (omega arith)
receive_loop-Drained (suc fuel) size dest total s h = elim (Bool-cases (ltb total size)) [
  | inr stop ↦ rw (stop, receive_loop) (all s (ground arith))
  | inl more ↦
      let some_left : total < size = ground arith in
      rw (more, receive_loop)
        (after_read-Drained
          (λ bs t. receive_loop fuel size (store_at total bs dest) (total + length bs) t) dest
          (size - total) (size - total) s
          (λ b bs t le e.
            let n : ℕ = length (b ∷ bs) in
            let later = receive_loop fuel size (store_at total (b ∷ bs) dest) (total + n) t in
            shift_end (size - (total + n)) (length t.input) (size - total) (length s.input) n
              later.0 later.2 (omega arith) e
              (receive_loop-Drained fuel size (store_at total (b ∷ bs) dest) (total + n) t
                (omega arith)))
          (read (size - total) s).0 (read (size - total) s).1 (read-Reads (size - total) s))
]

-- `receiveAll` takes exactly `size` bytes where it returns 0, and at most all that there are where it
-- returns 1.
pub receive_all-Drained :
    (size : ℕ) (dest : List ℕ) (s : Sock)
    → Drained size (length s.input) (receive_all size dest s).0 (receive_all size dest s).2
unfolding receive_all
receive_all-Drained size dest s =
    let whole : size - 0 ≡ size = omega arith in
    rw whole at (receive_loop-Drained (suc size) size dest 0 s (omega arith))
