-- ===== src/Client/Dumps/Network.antt =====
-- The network dump of InfoDumping/InfoDumping.cpp, from the table that `netstat` prints to the JSON.
use project.Prelude.{
  ℕ, ◌≡◌, ◌≢◌, refl, true, false, some, List, [], ◌∷◌, ◌++◌, append_assoc, if◌then◌else◌, bytes_eq,
  bytes_eq_refl, length, All,
}
use project.Json.{array, Reads}
use project.Client.Netstat.{NetStatInfo, parse_netstat_output}
use project.Client.Netstat.Json.{net_stat_info_to_json}
use project.Client.Netstat.Table.{
  Connection, Table, all_read, print_lines, parse_netstat_output-print_lines,
}
use project.Client.Netstat.Denotes.{IsPlainRow, row_values, net_stat_info_to_json-Reads}
use project.Client.Dumps.{
  Machine, Shell, system, write_text, read_text, adapter_command, netstat_text, netstat_json,
  netstat_command, dum_net,
}

-- What `dum_net` leaves: the two commands ran in order, the file is JSON of the connections, and each
-- other file is what the commands left.
pub record NetDumped (sh : Shell) (dir timestamp : List ℕ) (infos : List NetStatInfo)
    (w w' : Machine) : Type 0 where
  pub commands :
      w'.ran ≡ w.ran ++ (adapter_command dir timestamp ∷ netstat_command dir timestamp ∷ [])
  pub text : List ℕ
  pub stored : w'.disk (netstat_json dir timestamp) ≡ some text
  pub json : Reads (array (row_values infos)) text []
  pub others :
      (path : List ℕ)
      → bytes_eq path (netstat_json dir timestamp) ≡ false
      → w'.disk path
        ≡ sh.run
            (netstat_command dir timestamp)
            (sh.run (adapter_command dir timestamp) w.disk)
            path

-- The machine behind the two commands.
abbrev after_commands : Shell → List ℕ → List ℕ → Machine → Machine
after_commands sh dir timestamp w = record {
  disk = sh.run (netstat_command dir timestamp) (sh.run (adapter_command dir timestamp) w.disk);
  ran = (w.ran ++ adapter_command dir timestamp ∷ []) ++ netstat_command dir timestamp ∷ [];
}

read_text_found : (path t : List ℕ) (w : Machine) → w.disk path ≡ some t → read_text path w ≡ t
unfolding read_text
read_text_found path t w e = rw (e, read_text) refl

write_text_open :
    (sh : Shell) (path t : List ℕ) (w : Machine)
    → sh.writable path ≡ true
    → write_text sh path t w
      ≡ record w { disk = λ other. if bytes_eq other path then some t else w.disk other }
unfolding write_text
write_text_open sh path t w e = rw e refl

dum_net_lem :
    (sh : Shell) (dir timestamp : List ℕ) (w : Machine) (t : List ℕ)
    → (after_commands sh dir timestamp w).disk (netstat_text dir timestamp) ≡ some t
    → dum_net sh dir timestamp w
      ≡ write_text sh
          (netstat_json dir timestamp)
          (net_stat_info_to_json (parse_netstat_output t))
          (after_commands sh dir timestamp w)
unfolding dum_net system
dum_net_lem sh dir timestamp w t e =
    rw (read_text_found (netstat_text dir timestamp) t (after_commands sh dir timestamp w) e) refl

written-NetDumped :
    (sh : Shell) (dir timestamp : List ℕ) (w : Machine) (infos : List NetStatInfo)
    → All IsPlainRow infos
    → NetDumped sh dir timestamp infos w (record (after_commands sh dir timestamp w) {
      disk = λ other.
          if bytes_eq other (netstat_json dir timestamp)
          then some (net_stat_info_to_json infos)
          else (after_commands sh dir timestamp w).disk other;
    })
written-NetDumped sh dir timestamp w infos plain = record {
  commands =
      append_assoc w.ran (adapter_command dir timestamp ∷ []) (netstat_command dir timestamp ∷ []);
  text = net_stat_info_to_json infos;
  stored = rw (bytes_eq_refl (netstat_json dir timestamp)) refl;
  json = net_stat_info_to_json-Reads infos plain;
  others = λ path other. rw other refl;
}

-- The command for the connections leaves a text with four header lines and a line for each connection:
-- its protocol, its two addresses, its state if the protocol has one, and its process, each with one
-- space or more before it, and with no character that is space or that JSON wants escaped; the file
-- for the JSON opens. Then `dum_net` runs its two commands in order, the file has a JSON array of one
-- object for each connection, in their order and with their columns under their names, except that
-- of a connection without a state the process stands under "State" and nothing under "PID"; and
-- every other file is what the commands left.
pub dum_net-NetDumped :
    (sh : Shell) (dir timestamp : List ℕ) (w : Machine) (heads lines : List (List ℕ))
    (cs : List Connection)
    → length heads ≡ 4
    → All (All (λ c. c ≢ 10)) heads
    → Table cs lines
    → All IsPlainRow (all_read cs)
    → sh.writable (netstat_json dir timestamp) ≡ true
    → sh.run
        (netstat_command dir timestamp)
        (sh.run (adapter_command dir timestamp) w.disk)
        (netstat_text dir timestamp)
      ≡ some (print_lines (heads ++ lines))
    → NetDumped sh dir timestamp (all_read cs) w (dum_net sh dir timestamp w)
dum_net-NetDumped sh dir timestamp w heads lines cs four inside table plain opens printed =
    rw (dum_net_lem sh dir timestamp w (print_lines (heads ++ lines)) printed) (
      rw (parse_netstat_output-print_lines heads lines cs four inside table) (
        rw
          (write_text_open sh (netstat_json dir timestamp) (net_stat_info_to_json (all_read cs))
            (after_commands sh dir timestamp w) opens)
          (written-NetDumped sh dir timestamp w (all_read cs) plain)))
