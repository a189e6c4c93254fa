-- ===== src/Alone/Signal.antt =====
-- The stand-alone client, kernel/executable/main.cpp, with the server of server_linux/server.cpp: the
-- server's signal.
use project.Prelude.{ℕ, true, err, ◌≡◌, List}
use project.Socket.{Sock}
use project.Socket.Buffer.{Received}

-- A call of `receiveAll` that fails with the stream's end: it has stored what it was sent in front of the
-- buffer's old bytes, has sent nothing, and has closed the connection.
pub record Short (buffer : List ℕ) (s : Sock) (r : Received) : Type 0 where
  pub status : r.0 ≡ err
  pub stored : r.1 ≡ buffer
  pub silent : r.2.output ≡ s.output
  pub shut : r.2.closed ≡ true
