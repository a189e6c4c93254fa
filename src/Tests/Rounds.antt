-- ===== src/Tests/Rounds.antt =====
-- The theorems on the client's rounds at concrete inputs: all dumps succeed.
use project.Prelude.{
  ℕ, ◌≡◌, ◌≢◌, refl, sym, true, false, none, some, List, [], ◌∷◌, ◌++◌, append-nil, codes, arith,
  bytes_eq, bytes_eq_refl, if◌then◌else◌, fault,
}
use project.Socket.{Sock}
use project.Socket.Delivery.{IsLive}
use project.Wire.{size}
use project.Wire.Format.{Forest, encode, dump_message}
use project.Image.Driver.{install_driver}
use project.Client.Args.{Flag, server, port, dir}
use project.Client.Files.{Node, node, Entries, is_dots, sent_as_file}
use project.Client.Files.Shows.{Shows, shows_dir, lists_end}
use project.Client.Netstat.Table.{print_lines}
use project.Client.Dumps.{Shell, netstat_command, netstat_text}
use project.Client.Round.{Windows, Station, image_path, dump_all}
use project.Client.Round.Complete.{GivesImage, Prints, Complete, dump_all-Complete}
use project.Client.Session.{State, Target, prepared, main_loop}
use project.Client.Session.Rounds.{dumps, main_loop_round}
use project.Client.Main.{
  Surroundings, logging, undefined, log_dir, log_target, make_dump_dir, get_current_timestamp,
  tmain,
}
use project.Client.Main.Stamp.{log_name}
use project.Client.Main.First.{loop, first_dumps, tmain_first}
use project.Client.Main.Unset.{tmain_unset}
use project.Client.Args.Words.{words}
use project.Tests.{conn, conn-IsLive, info, client, path, path-log_name, held, held-Shows}
use project.Tests.Wires.{options, reached, heads, listed, listed_lines, listed_table}
use project.Tests.Images.{memory, runs, device, taken, system}
use project.Tests.Hives.{here, stamp, blank, tree, hives-ShowsHive, heads-inside, listed-IsPlainRow}
use project.Tests.Clients.{noon}

-- Only `netstat` leaves something, the table in its file.
abbrev shell : List ℕ → List ℕ → Shell
shell place timestamp = record {
  run = λ command disk p.
      if bytes_eq command (netstat_command place timestamp)
      then (if bytes_eq p (netstat_text place timestamp)
          then some (print_lines (heads ++ listed_lines))
          else disk p)
      else disk p;
  writable = λ p. true;
}

abbrev windows : Node → List ℕ → List ℕ → Windows
windows seen place timestamp = record {
  attributes = λ p. none;
  creates = λ p. true;
  shell = shell place timestamp;
  system = system;
  device = device;
  written = taken;
  root = λ label. tree;
  view = λ p disk. seen;
}

abbrev station : Station
station = record { machine = blank; drivers = []; made = [] }

windows-GivesImage :
    (seen : Node) (place timestamp : List ℕ)
    → GivesImage (windows seen place timestamp) (image_path place timestamp) [] memory runs
unfolding install_driver bytes_eq
windows-GivesImage seen place timestamp = record {
  opens = refl;
  loads = refl;
  accepts = refl;
  informs = refl;
  ordered = (omega arith, (omega arith, tt));
  ready = record { seeks = λ a. refl; reads = λ a n. refl; takes = λ k n. refl };
}

shell-Prints : (place timestamp : List ℕ) → Prints (shell place timestamp) place timestamp listed
unfolding bytes_eq
shell-Prints place timestamp = record {
  processes = λ d p apart. refl;
  adapters = λ d p apart. refl;
  connections = λ d p apart. rw (bytes_eq_refl (netstat_command place timestamp)) (rw apart refl);
  heads = heads;
  four = refl;
  inside = heads-inside;
  lines = listed_lines;
  rows = listed_table;
  plain = listed-IsPlainRow;
  opens = refl;
  prints = λ d. rw (bytes_eq_refl (netstat_command place timestamp)) refl;
}

dump_all-Complete_example :
    Complete
      (windows held here stamp)
      here
      stamp
      memory
      runs
      listed
      station
      (dump_all (windows held here stamp) here stamp station)
dump_all-Complete_example =
    dump_all-Complete (windows held here stamp) here stamp memory runs listed station
      (windows-GivesImage held here stamp) (shell-Prints here stamp) hives-ShowsHive

target : ℕ → Target
target round = record { path = path; timestamp = stamp; made = [] }

abbrev session : State
session = record { host = client; station = station }

dumped : (dumps (windows held path stamp) (target 4) station).0 ≢ fault
unfolding target
dumped e =
    let all =
      dump_all-Complete (windows held path stamp) path stamp memory runs listed station
        (windows-GivesImage held path stamp) (shell-Prints path stamp) hives-ShowsHive in
    let done = all.status in cc

main_loop_round_example :
    (s : Sock) × (main_loop size 20000 (windows held path stamp) target 5 session
      ≡ main_loop size 20000 (windows held path stamp) target 4 (record {
        host = record client { sock = s };
        station = (dumps (windows held path stamp) (target 4) station).1;
      }))
    × (s.output ≡ [] ++ encode size project.Tests.tree)
    × (s.input ≡ [])
    × IsLive s
unfolding target
main_loop_round_example =
    main_loop_round size 20000 (windows held path stamp) target 4 project.Tests.log_name
      project.Tests.tree session [] (omega arith) (omega arith) (omega arith) dumped held-Shows
      project.Tests.tree-IsTree path-log_name (conn-IsLive (dump_message size))
      (sym (append-nil (dump_message size)))

abbrev out_path : List ℕ
out_path = codes "C:" ++ (codes "\\" ++ codes "out")

abbrev log_path : List ℕ
log_path = log_dir out_path noon

-- The log directory is seen as an empty one.
abbrev empty : Node
empty = node (info 16) Entries.end

abbrev around : Surroundings
around = record {
  words = words options;
  current_dir = codes "C:";
  winsock = reached;
  connection = λ s. conn (dump_message size);
  windows = windows empty log_path (get_current_timestamp noon);
  time = λ round. noon;
}

around-Shows :
    Shows (log_name noon) (around.windows.view log_path blank.disk) project.Tests.Clients.tree
unfolding sent_as_file is_dots bytes_eq
around-Shows =
    shows_dir (log_name noon) (info 16) _ 16 Forest.end refl refl refl refl refl lists_end

started : (first_dumps (logging around) 4 around out_path station).0 ≢ fault
unfolding log_target make_dump_dir
started e =
    let stamp_now : List ℕ = get_current_timestamp noon in
    let all =
      dump_all-Complete around.windows log_path stamp_now memory runs listed
        (prepared (log_target around out_path 4) (make_dump_dir around.windows out_path station))
        (windows-GivesImage empty log_path stamp_now) (shell-Prints log_path stamp_now)
        hives-ShowsHive in
    let done = all.status in cc

tmain_first_example :
    (sock : Sock) × (tmain (logging around) 20000 5 around station
      ≡ loop (logging around) 20000 4 around out_path (record {
        host = record { sock = sock; cwd = codes "C:" };
        station = (first_dumps (logging around) 4 around out_path station).1;
      }))
    × (sock.output ≡ [] ++ encode size project.Tests.Clients.tree)
    × (sock.input ≡ [])
tmain_first_example =
    tmain_first 20000 4 around station options (codes "-p") (codes "80") (codes "out") out_path
      ((4, false) ∷ []) ((12, true) ∷ []) 8 project.Tests.Clients.tree [] refl refl refl refl refl
      refl (((λ e. omega arith), refl), tt) (λ e. omega arith) (conn-IsLive (dump_message size))
      (sym (append-nil (dump_message size))) (omega arith) started around-Shows
      project.Tests.Clients.tree-IsTree

abbrev doubled : List (Flag × List ℕ)
doubled = (dir, codes "out") ∷ (server, codes "h") ∷ (dir, codes "o") ∷ []

tmain_unset_example :
    (tmain (logging around) 20000 5 (record around { words = words doubled }) station).0 ≡ undefined
tmain_unset_example =
    tmain_unset (logging around) 20000 5 (record around { words = words doubled }) station port
      doubled refl refl ((λ e. cc), ((λ e. cc), ((λ e. cc), tt)))
