-- ===== src/Socket/Buffer.antt =====
-- The buffers of `sendAll` and `receiveAll`, in both programs.
use project.Prelude.{ℕ, ◌+◌, ◌-◌, List, ◌++◌, length, take, drop, Status}
use project.Socket.{Sock}

-- The bytes that a round of `sendAll` hands to `write`.
abbrev pub window : ℕ → ℕ → List ℕ → List ℕ
window size total src = take (size - total) (drop total src)

-- The bytes that a call of `read` stores at `dest + total`.
abbrev pub store_at : ℕ → List ℕ → List ℕ → List ℕ
store_at total bytes dest = take total dest ++ (bytes ++ drop (total + length bytes) dest)

abbrev pub Received : Type 0
Received = Status × List ℕ × Sock
