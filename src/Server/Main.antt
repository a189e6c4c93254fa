-- ===== src/Server/Main.antt =====
-- `main` of server_linux/server.cpp: its options, and the clients that it accepts. The threads
-- share the disk. A schedule says which thread does a round of its loop next; rounds of two threads
-- do not overlap.
pub mod Options
pub mod Reach
pub mod Exits
pub mod Rounds
use project.Prelude.{
  ℕ, zero, suc, ◌^◌, ◌-◌, Bool, true, false, List, [], ◌∷◌, length, ◌==◌, if◌then◌else◌, Status, ok,
  err, exit, fault, no_fuel,
}
use project.Socket.{Sock}
use project.Server.Files.{FilePath, Disk}
use project.Server.Receive.{Host}
use project.Server.Session.{client_thread}

-- -1, as a 32-bit word.
abbrev pub minus_one : ℕ
minus_one = 2 ^ 32 - 1

-- What `getopt_long` returns, with the word that `atoi` gives for the argument.
pub data Opt : Type 0 where
  help : Opt
  port_is interval_is : ℕ → Opt
  unknown : Opt

pub record Settings : Type 0 where
  pub port_num : ℕ
  pub interval : ℕ

pub data Parsed : Type 0 where
  exits : ℕ → Parsed
  runs : Settings → Parsed

-- The tests behind the loop.
unfoldable pub check_settings : Settings → Parsed
check_settings s =
    if s.port_num == minus_one then exits 1 else if s.interval == minus_one then exits 1 else runs s

unfoldable pub parse_opts : List Opt → Settings → Parsed
unfolding check_settings
parse_opts [] s = check_settings s
parse_opts (help ∷ opts) s = exits 0
parse_opts (port_is n ∷ opts) s = parse_opts opts (record s { port_num = n })
parse_opts (interval_is n ∷ opts) s = parse_opts opts (record s { interval = n })
parse_opts (unknown ∷ opts) s = exits 1

-- Whether `socket`, `bind` and `listen` succeed.
pub record Listening : Type 0 where
  pub creates : Bool
  pub binds : Bool
  pub listens : Bool

-- `main`, up to its loop.
unfoldable pub start : Listening → List Opt → Parsed
unfolding parse_opts
start l opts = elim (parse_opts opts (record { port_num = minus_one; interval = minus_one })) [
  | exits code ↦ exits code
  | runs s ↦
      if l.creates
      then (if l.binds then (if l.listens then runs s else exits 1) else exits 1)
      else exits 1
]

-- A client that has a thread: its address and port, and the connection.
pub record Client : Type 0 where
  pub peer : List ℕ
  pub sock : Sock

-- A server that has ended, by `exit(1)` or by undefined behaviour, is not running.
pub record Server : Type 0 where
  pub disk : Disk
  pub clients : List Client
  pub running : Bool

pub data Event : Type 0 where
  -- a client connects; whether `pthread_create` succeeds
  connects : Client → Bool → Event
  -- `accept` fails
  refuses : Event
  -- the thread at this index does a round
  works : ℕ → Event

-- The client of a thread that goes on, is served to its end, or ends the process.
unfoldable pub after_round : Client → List Client → Status × Host → Server
after_round c others (no_fuel, h) = record {
  disk = h.disk;
  clients = record c { sock = h.sock } ∷ others;
  running = true;
}
after_round c others (exit, h) = record { disk = h.disk; clients = c ∷ others; running = false }
after_round c others (fault, h) = record { disk = h.disk; clients = c ∷ others; running = false }
after_round c others (other, h) = record { disk = h.disk; clients = others; running = true }

-- A round needs no more fuel than one above what the client has sent.
unfoldable pub client_round : FilePath → Client → Disk → Status × Host
unfolding client_thread
client_round cwd c disk =
    client_thread c.peer (suc (length c.sock.input)) cwd 1 (record { sock = c.sock; disk = disk })

unfoldable pub work : FilePath → ℕ → List Client → Disk → Server
unfolding after_round client_round
work cwd k [] disk = record { disk = disk; clients = []; running = true }
work cwd zero (c ∷ cs) disk = after_round c cs (client_round cwd c disk)
work cwd (suc k) (c ∷ cs) disk = let r = work cwd k cs disk in record r { clients = c ∷ r.clients }

unfoldable pub handle : FilePath → Event → Server → Server
unfolding work
handle cwd (connects c created) s = if created then record s { clients = c ∷ s.clients } else s
handle cwd refuses s = record s { running = false }
handle cwd (works k) s = work cwd k s.clients s.disk

-- A run of the server.
unfoldable pub serve : FilePath → List Event → Server → Server
unfolding handle
serve cwd [] s = s
serve cwd (event ∷ events) s =
    let s' = handle cwd event s in if s.running then serve cwd events s' else s
