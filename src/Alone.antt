-- ===== src/Alone.antt =====
-- The stand-alone client, kernel/executable/main.cpp: one program with the text of
-- InfoDumping/InfoDumping.cpp and InfoDumping/main.cpp, but with a `SIZE` of its own, without
-- timestamps, and without a directory for each round.
pub mod Signal
pub mod Misread
use project.Prelude.{ℕ, Bool, Option, List, [], codes, Status}
use project.Socket.{Sock}
use project.Socket.Buffer.{Received}
use project.Wire.{alone_size}
use project.Client.Args.{Args}
use project.Client.Connection.{Winsock, Effects}
use project.Client.Files.{Node}
use project.Client.Send.{Step}
use project.Client.Netstat.{NetStatInfo}
use project.Client.Registry.{Key, Printer}
use project.Client.Dumps.{Machine, Shell}
use project.Client.Round.{Windows, Station}
use project.Client.Session.{State, Target}
use project.Client.Main.{Surroundings, Outcome, Build}

unfoldable pub my_min : ℕ → ℕ → ℕ
my_min = project.Client.Send.my_min

unfoldable pub send_all : ℕ → ℕ → List ℕ → Sock → Status × Sock
send_all = project.Client.Transfer.send_all

unfoldable pub receive_all : ℕ → ℕ → List ℕ → Sock → Received
receive_all = project.Client.Transfer.receive_all

unfoldable pub send_file : ℕ → Option (List ℕ) → Sock → Status × Sock
send_file = project.Client.Send.send_file alone_size

unfoldable pub send_dir : ℕ → List ℕ → Node → Step
send_dir = project.Client.Send.send_dir alone_size

unfoldable pub parse_args : List (List ℕ) → Option Args
parse_args = project.Client.Args.parse_args

unfoldable pub construct_connection : Winsock → Effects → ℕ × Effects
construct_connection = project.Client.Connection.construct_connection

-- The file is "\ramDump.raw".
unfoldable pub dump_ram : Windows → List ℕ → Station → Station
dump_ram w dir = project.Client.Round.dump_image w dir []

unfoldable pub directory_exists : Option ℕ → Bool
directory_exists = project.Client.Round.directory_exists

unfoldable pub enumerate_key : List ℕ → Key → Printer
enumerate_key = project.Client.Registry.Enumerate.enumerate_key

-- The files are "\HCR_registry_dump.json" and the like.
unfoldable pub dump_registers : Windows → List ℕ → Station → Status × Station
dump_registers w dir = project.Client.Round.dump_keys w dir []

-- The file is "\Process_info_dump.csv".
unfoldable pub dump_process_info : Shell → List ℕ → Machine → Machine
dump_process_info sh dir = project.Client.Dumps.dump_process_info sh dir []

unfoldable pub parse_netstat_output : List ℕ → List NetStatInfo
parse_netstat_output = project.Client.Netstat.parse_netstat_output

unfoldable pub net_stat_info_to_json : List NetStatInfo → List ℕ
net_stat_info_to_json = project.Client.Netstat.Json.net_stat_info_to_json

-- The files are "\net_adapter_stats.json", "\netstat.txt" and "\netstat.json".
unfoldable pub dum_net : Shell → List ℕ → Machine → Machine
dum_net sh dir = project.Client.Dumps.dum_net sh dir []

-- Each round dumps into the same directory, which is made once, before the loop.
abbrev pub fixed : List ℕ → ℕ → Target
fixed new_dir round = record { path = new_dir; timestamp = []; made = [] }

abbrev pub alone : Build
alone = record { room = alone_size; target = fixed }

unfoldable pub main_loop : ℕ → Windows → List ℕ → ℕ → State → Status × State
main_loop fuel w new_dir = project.Client.Session.main_loop alone_size fuel w (fixed new_dir)

unfoldable pub tmain : ℕ → ℕ → Surroundings → Station → Outcome × Station
tmain = project.Client.Main.tmain alone
