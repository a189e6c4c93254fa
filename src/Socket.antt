-- ===== src/Socket.antt =====
-- One end of a TCP connection, and the system calls on it that both programs make: `write` and
-- `send`, `read` and `recv`, `close` and `closesocket`. What the network does is not the program's:
-- `calls` answers each call in turn, with an error or with a number of bytes that it is ready to
-- move, of which a call moves at most what it was asked for and what there is. A connection is one
-- whose peer closes it behind what it sends: a read that finds nothing left is at the end of the
-- stream, and no read waits for ever. A write that fails gives -1: the signal SIGPIPE, which by
-- default ends a process that writes to a connection its peer has closed, is not represented.
pub mod Buffer
pub mod Delivery
pub mod Runs
pub mod Counts
use project.Prelude.{
  ℕ, suc, ◌+◌, min, ◌≡◌, Bool, true, false, List, ◌++◌, length, take, drop, if◌then◌else◌,
}

pub data Outcome : Type 0 where
  moved : ℕ → Outcome
  failure : Outcome

pub record Sock : Type 0 where
  -- what the peer has sent and the program has not read yet; its end is the end of the stream
  pub input : List ℕ
  -- what the program has sent
  pub output : List ℕ
  pub closed : Bool
  pub calls : ℕ → Outcome
  pub clock : ℕ

-- -1, or the count of the bytes moved (for a read, the bytes).
pub data Written : Type 0 where
  write_error : Written
  written : ℕ → Written

pub data Read : Type 0 where
  read_error : Read
  got : List ℕ → Read

abbrev tick : Sock → Sock
tick s = record s { clock = suc s.clock }

write_with : Outcome → List ℕ → Sock → Written × Sock
write_with failure buf s = (write_error, tick s)
write_with (moved k) buf s =
    let n = min k (length buf) in (written n, record (tick s) { output = s.output ++ take n buf })

-- A call on a closed descriptor fails.
unfoldable pub write : List ℕ → Sock → Written × Sock
unfolding write_with
write buf s = if s.closed then (write_error, tick s) else write_with (s.calls s.clock) buf s

read_with : Outcome → ℕ → Sock → Read × Sock
read_with failure size s = (read_error, tick s)
read_with (moved k) size s =
    let n = min k (min size (length s.input)) in
    (got (take n s.input), record (tick s) { input = drop n s.input })

unfoldable pub read : ℕ → Sock → Read × Sock
unfolding read_with
read size s = if s.closed then (read_error, tick s) else read_with (s.calls s.clock) size s

unfoldable pub close : Sock → Sock
close s = record s { closed = true }
