-- ===== src/Client/Session.antt =====
-- The loop of `_tmain` of InfoDumping/main.cpp, behind the connection.
pub mod Rounds
use project.Prelude.{
  ℕ, zero, suc, List, ◌++◌, Bool, true, false, c_string, has_nul, bytes_eq, Status, ok, err, exit,
  fault, no_fuel,
}
use project.Socket.{close}
use project.Wire.{box_size, blank, dump_text}
use project.Client.Transfer.{receive_all}
use project.Client.Send.{Host, send_dir}
use project.Client.Round.{Windows, Station, dump_all}

pub record State : Type 0 where
  pub host : Host
  pub station : Station

-- Where a round dumps to: the directory, the timestamp in the files' names, and the directories that
-- are made for it.
pub record Target : Type 0 where
  pub path : List ℕ
  pub timestamp : List ℕ
  pub made : List (List ℕ)

-- `closesocket`, behind the loop; the program then returns -1.
unfoldable pub leave : State → Status × State
leave st = (err, record st { host = record st.host { sock = close st.host.sock } })

-- The station when the dumps begin.
abbrev pub prepared : Target → Station → Station
prepared t st = record st { made = st.made ++ t.made }

-- `fuel` is what one transfer is given, `room` is `SIZE`, and the count is of the rounds to follow.
-- The result of `receiveAll` is not looked at, nor are those of the dumps; only a result of 1 of
-- `sendDir` ends the loop.
module _ (room fuel : ℕ) (w : Windows) (target : ℕ → Target) where
  unfoldable pub main_loop : ℕ → State → Status × State
  unfolding receive_all send_dir leave dump_all
  main_loop zero st = (no_fuel, st)
  main_loop (suc rounds) st =
      let (ignored, msg, s) = receive_all fuel (box_size room) (blank room) st.host.sock in
      let h = record st.host { sock = s } in
      let t = target rounds in
      let (dumped, station) = dump_all w t.path t.timestamp (prepared t st.station) in
      let (sent, h') = send_dir room fuel t.path (w.view t.path station.machine.disk) h in
      elim (has_nul msg) [
        | false ↦ (fault, record st { host = h })
        | true ↦ elim (bytes_eq (c_string msg) dump_text) [
          | false ↦ leave (record st { host = h })
          | true ↦ elim dumped [
            | fault ↦ (fault, record { host = h; station = station })
            | _ ↦ elim sent [
              | ok ↦ main_loop rounds (record { host = h'; station = station })
              | err ↦ leave (record { host = h'; station = station })
              | other ↦ (other, record { host = h'; station = station })
            ]
          ]
        ]
      ]
