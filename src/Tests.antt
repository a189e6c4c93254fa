-- ===== src/Tests.antt =====
-- The theorems at concrete inputs: a log directory with one small file, sent over connections that
-- move at most seven bytes at a time.
pub mod Images
pub mod Wires
pub mod Servers
pub mod Clients
pub mod Hives
pub mod Rounds
pub mod Pairs
use project.Prelude.{
  ℕ, suc, ◌+◌, ◌<◌, ◌≡◌, ◌≢◌, refl, sym, ◌∙◌, true, false, none, some, List, [], ◌∷◌, ◌++◌,
  append-nil, length, codes, bytes_eq, Status, ok, arith, lengths,
}
use project.Socket.{moved, Sock}
use project.Socket.Delivery.{IsLive}
use project.Wire.{size, box_size}
use project.Wire.Format.{
  Forest, Tree, file, dir, also, encode, IsName, IsTree, dump_message, behind_flag,
}
use project.Client.Files.{Info, Node, node, Entries, entry, base_name, is_dots, sent_as_file}
use project.Client.Files.Shows.{Shows, shows_file, shows_dir, lists_end, lists_dots, lists_child}
use project.Client.Send.{send_dir}
use project.Client.Send.Puts.{Put}
use project.Client.Send.Live.{send_dir-encode}
use project.Server.Files.{FilePath, Disk, lookup}
use project.Server.Files.Laws.{with_items, IsFresh}
use project.Server.Receive.{join, write_dir}
use project.Server.Receive.Live.{Stored}
use project.Server.Receive.Trees.{listing, write_dir_nested}
use project.Server.Receive.Top.{arrival, write_dir_first}
use project.Server.Session.{client_thread}
use project.Server.Session.Rounds.{client_thread_round}
use project.Dump.{dump_arrives}

abbrev pub conn : List ℕ → Sock
conn input = record { input = input; output = []; closed = false; calls = λ n. moved 7; clock = 0 }

pub conn-IsLive : (input : List ℕ) → IsLive (conn input)
conn-IsLive input = record { opened = refl; moves = λ n. (6, refl) }

abbrev pub log_name : List ℕ
log_name = codes "log"

abbrev pub file_name : List ℕ
file_name = codes "a"

abbrev pub content : List ℕ
content = 1 ∷ 2 ∷ 3 ∷ []

abbrev pub inside : Forest
inside = also (file file_name content) Forest.end

abbrev pub tree : Tree
tree = dir log_name inside

pub tree-IsTree : IsTree size tree
tree-IsTree = (
  record { fits = omega arith; bytes = (omega arith, (omega arith, (omega arith, tt))) },
  ((record { fits = omega arith; bytes = (omega arith, tt) }, omega arith), tt),
)

abbrev pub info : ℕ → Info
info a = record {
  attributes = some a;
  opens = true;
  file_size = some 3;
  content = some content;
  enters = true;
  lists = true;
  leaves = true;
  error_text = [];
}

-- 32 is the attribute of a file to be archived, 16 that of a directory.
abbrev pub held : Node
held = node (info 16) (
    entry (codes ".") (node (info 16) Entries.end)
      (entry file_name (node (info 32) Entries.end) Entries.end))

pub held-Shows : Shows log_name held tree
unfolding sent_as_file is_dots bytes_eq
held-Shows = shows_dir log_name (info 16) _ 16 inside refl refl refl refl refl (
    lists_dots (codes ".") _ refl (
      lists_child refl ((λ e. omega arith), tt)
        (shows_file file_name content (info 32) Entries.end 32 refl refl refl refl refl) lists_end))

abbrev pub path : List ℕ
path = codes "C:\\log"

pub path-log_name : base_name path ≡ some log_name
unfolding base_name
path-log_name = refl

abbrev pub cwd : FilePath
cwd = codes "/srv"

abbrev pub peer : List ℕ
peer = codes "10.0.0.2:80"

abbrev pub disk : Disk
disk = record { items = []; denied = λ p. false }

abbrev pub client : project.Client.Send.Host
client = record { sock = conn (dump_message size); cwd = codes "C:" }

abbrev pub server : project.Server.Receive.Host
server = record { sock = conn (encode size tree); disk = disk }

pub disk-IsFresh : IsFresh (arrival peer cwd tree (lookup (join cwd peer) disk.items)) disk
unfolding lookup listing bytes_eq
disk-IsFresh = (refl, refl, (refl, refl, (refl, refl, tt)))

disk-IsFresh_nested : IsFresh (listing cwd tree) disk
unfolding lookup listing bytes_eq
disk-IsFresh_nested = (refl, refl, (refl, refl, tt))

abbrev pub fuel : ℕ
fuel = suc (length (encode size tree))

pub whole : encode size tree ≡ encode size tree ++ []
whole = sym (append-nil (encode size tree))

send_dir-encode_example :
    Put (encode size tree) client.cwd client (send_dir size 20000 path held client)
send_dir-encode_example =
    send_dir-encode size 20000 path log_name held tree client (omega arith) (omega arith)
      (omega arith) held-Shows tree-IsTree path-log_name (conn-IsLive (dump_message size))

write_dir_nested_example :
    Stored
      (encode size tree)
      (with_items disk (listing cwd tree))
      server
      (write_dir peer fuel false cwd server)
write_dir_nested_example =
    write_dir_nested peer tree fuel cwd server [] tree-IsTree (omega arith) disk-IsFresh_nested
      (conn-IsLive (encode size tree)) whole

write_dir_first_example :
    Stored
      (encode size tree)
      (with_items disk (arrival peer cwd tree (lookup (join cwd peer) disk.items)))
      server
      (write_dir peer fuel true cwd server)
write_dir_first_example =
    write_dir_first peer log_name inside fuel cwd server [] tree-IsTree (omega arith) disk-IsFresh
      (conn-IsLive (encode size tree)) whole

dump_arrives_example :
    ((send_dir size 20000 path held client).0 ≡ ok)
    × Stored
        (encode size tree)
        (with_items disk (arrival peer cwd tree (lookup (join cwd peer) disk.items)))
        server
        (write_dir peer fuel true cwd server)
dump_arrives_example =
    dump_arrives peer path log_name held inside 20000 fuel client server cwd (encode size tree) []
      (omega arith) held-Shows tree-IsTree path-log_name (conn-IsLive (dump_message size))
      send_dir-encode_example.sends.output (omega arith) disk-IsFresh
      (conn-IsLive (encode size tree)) whole

client_thread_round_example :
    (s : Sock) × (client_thread peer fuel cwd 5 server
      ≡ client_thread peer fuel cwd 4 (record {
        sock = s;
        disk = with_items disk (arrival peer cwd tree (lookup (join cwd peer) disk.items));
      }))
    × (s.output ≡ [] ++ dump_message size)
    × (s.input ≡ [])
    × IsLive s
client_thread_round_example =
    client_thread_round peer log_name inside fuel cwd 4 server [] tree-IsTree (omega arith)
      disk-IsFresh (conn-IsLive (encode size tree)) whole

pub elsewhere : (rest : List ℕ) → codes "/etc" ≢ cwd ++ rest
elsewhere rest e = ground arith
