-- ===== src/Tests/Servers.antt =====
-- The theorems on the whole server at concrete inputs.
use project.Prelude.{ℕ, ◌≡◌, refl, true, false, List, [], ◌∷◌, ◌++◌, codes, bytes_eq, arith}
use project.Wire.{size, file_tag, dir_tag}
use project.Wire.Format.{success_message, header, encode, IsName}
use project.Server.Files.{directory, regular, lookup, Disk}
use project.Server.Files.Laws.{with_items}
use project.Server.Transfer.{receive_all}
use project.Server.Transfer.Bounds.{Within, receive_all-Within}
use project.Server.Receive.{join, write_dir}
use project.Server.Receive.Live.{Stored}
use project.Server.Receive.Lone.{write_dir_file}
use project.Server.Main.{
  Client, Event, connects, works, Opt, port_is, interval_is, Settings, parse_opts, minus_one, serve,
}
use project.Server.Main.{client_round}
use project.Server.Main.Rounds.{RoundEnds, stored_in, client_round-RoundEnds}
use project.Server.Main.Exits.{Repeats, serve_stops}
use project.Server.Main.Options.{reference, parse_opts-reference}
use project.Tests.{conn, conn-IsLive, cwd, peer, disk, tree, content, file_name, log_name}

receive_all-Within_example :
    Within 3 (0 ∷ 0 ∷ 0 ∷ 0 ∷ []) (receive_all 3 (0 ∷ 0 ∷ 0 ∷ 0 ∷ []) (conn (1 ∷ 2 ∷ []))).1
receive_all-Within_example =
    receive_all-Within 3 (0 ∷ 0 ∷ 0 ∷ 0 ∷ []) (conn (1 ∷ 2 ∷ [])) (omega arith)

file_name-IsName : IsName size file_name
file_name-IsName = record { fits = omega arith; bytes = (omega arith, tt) }

log_name-IsName : IsName size log_name
log_name-IsName = record {
  fits = omega arith;
  bytes = (omega arith, (omega arith, (omega arith, tt)));
}

abbrev lone : List ℕ
lone = success_message size ++ (header size file_tag 3 file_name ++ content)

write_dir_file_example :
    Stored lone
      (with_items disk ((join cwd file_name, regular content) ∷ []))
      (record { sock = conn (lone ++ []); disk = disk })
      (write_dir peer 1 true cwd (record { sock = conn (lone ++ []); disk = disk }))
unfolding lookup
write_dir_file_example =
    write_dir_file peer file_name content 0 cwd (record { sock = conn (lone ++ []); disk = disk })
      [] file_name-IsName (omega arith) (refl, refl, tt) (conn-IsLive (lone ++ [])) refl

abbrev caller : Client
caller = record { peer = peer; sock = conn (encode size tree) }

abbrev idle : Client
idle = record { peer = codes "10.0.0.3:81"; sock = conn [] }

abbrev events : List Event
events = connects caller true ∷ connects idle true ∷ works 1 ∷ works 0 ∷ []

abbrev again : List ℕ
again = success_message size ++ (header size dir_tag 0 log_name ++ [])

abbrev repeater : Client
repeater = record { peer = peer; sock = conn again }

abbrev used : Disk
used = record disk {
  items = (join cwd peer, directory) ∷ (join (join cwd peer) log_name, directory) ∷ [];
}

repeater-Repeats : Repeats cwd used repeater
unfolding lookup bytes_eq
repeater-Repeats = record {
  name = log_name;
  tail = [];
  own = directory;
  item = directory;
  valid = log_name-IsName;
  mine = refl;
  taken = refl;
  live = conn-IsLive again;
  sends = refl;
}

serve_stops_example :
    serve cwd
      (works 1 ∷ events)
      (record { disk = used; clients = idle ∷ repeater ∷ caller ∷ []; running = true })
    ≡ record { disk = used; clients = idle ∷ repeater ∷ caller ∷ []; running = false }
serve_stops_example =
    serve_stops cwd
      (record { disk = used; clients = idle ∷ repeater ∷ caller ∷ []; running = true }) (idle ∷ [])
      repeater (caller ∷ []) events refl refl repeater-Repeats

abbrev unset_settings : Settings
unset_settings = record { port_num = minus_one; interval = minus_one }

abbrev opts : List Opt
opts = port_is 80 ∷ interval_is 5 ∷ port_is 81 ∷ []

parse_opts-reference_example : parse_opts opts unset_settings ≡ reference unset_settings opts
parse_opts-reference_example = parse_opts-reference opts unset_settings

client_round-RoundEnds_example :
    RoundEnds (client_round cwd caller disk).0 (stored_in cwd caller disk).0
client_round-RoundEnds_example = client_round-RoundEnds cwd caller disk
