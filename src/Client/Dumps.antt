-- ===== src/Client/Dumps.antt =====
-- `dump_process_info` and `dum_net` of InfoDumping/InfoDumping.cpp. A command that `system` runs is
-- a function of the files; what it does is a parameter.
pub mod Network
use project.Prelude.{
  ℕ, Bool, true, false, Option, none, some, List, [], ◌∷◌, ◌++◌, codes, bytes_eq, if◌then◌else◌,
}
use project.Client.Netstat.{parse_netstat_output}
use project.Client.Netstat.Json.{net_stat_info_to_json}

-- The text of the file at a path.
abbrev pub Disk : Type 0
Disk = List ℕ → Option (List ℕ)

-- The disk, and the commands that were run, in their order.
pub record Machine : Type 0 where
  pub disk : Disk
  pub ran : List (List ℕ)

-- What runs the commands, and which paths a new file can be opened at.
pub record Shell : Type 0 where
  pub run : List ℕ → Disk → Disk
  pub writable : List ℕ → Bool

unfoldable pub system : Shell → List ℕ → Machine → Machine
system sh command w = record { disk = sh.run command w.disk; ran = w.ran ++ command ∷ [] }

-- A file with this text at the path.
abbrev pub put : List ℕ → List ℕ → Machine → Machine
put path t w = record w { disk = λ other. if bytes_eq other path then some t else w.disk other }

-- `Tofstream` and what is inserted into it; where it does not open, nothing is written.
unfoldable pub write_text : Shell → List ℕ → List ℕ → Machine → Machine
unfolding bytes_eq
write_text sh path t w = if sh.writable path then put path t w else w

-- `Tifstream`, read to its end; where it does not open, the text is empty.
unfoldable pub read_text : List ℕ → Machine → List ℕ
read_text path w = elim (w.disk path) [ none ↦ [] | some t ↦ t ]

abbrev pub process_text : List ℕ → List ℕ → List ℕ
process_text dir timestamp = dir ++ (codes "\\Process_info_dump" ++ (timestamp ++ codes ".csv"))

abbrev pub process_command : List ℕ → List ℕ → List ℕ
process_command dir timestamp = codes "tasklist /v /FO csv > " ++ process_text dir timestamp

unfoldable pub dump_process_info : Shell → List ℕ → List ℕ → Machine → Machine
unfolding system
dump_process_info sh dir timestamp w = system sh (process_command dir timestamp) w

abbrev pub adapter_text : List ℕ → List ℕ → List ℕ
adapter_text dir timestamp = dir ++ (codes "\\net_adapter_stats" ++ (timestamp ++ codes ".json"))

abbrev pub adapter_command : List ℕ → List ℕ → List ℕ
adapter_command dir timestamp =
    codes "powershell -Command \"Get-NetAdapterStatistics | ConvertTo-Json | Out-File -FilePath "
    ++ adapter_text dir timestamp

abbrev pub netstat_text : List ℕ → List ℕ → List ℕ
netstat_text dir timestamp = dir ++ (codes "\\netstat" ++ (timestamp ++ codes ".txt"))

abbrev pub netstat_json : List ℕ → List ℕ → List ℕ
netstat_json dir timestamp = dir ++ (codes "\\netstat" ++ (timestamp ++ codes ".json"))

abbrev pub netstat_command : List ℕ → List ℕ → List ℕ
netstat_command dir timestamp = codes "netstat -aon > " ++ netstat_text dir timestamp

unfoldable pub dum_net : Shell → List ℕ → List ℕ → Machine → Machine
unfolding system write_text read_text parse_netstat_output net_stat_info_to_json
dum_net sh dir timestamp w =
    let w₁ = system sh (adapter_command dir timestamp) w in
    let w₂ = system sh (netstat_command dir timestamp) w₁ in
    let infos = parse_netstat_output (read_text (netstat_text dir timestamp) w₂) in
    write_text sh (netstat_json dir timestamp) (net_stat_info_to_json infos) w₂
