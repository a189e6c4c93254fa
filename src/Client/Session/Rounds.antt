-- ===== src/Client/Session/Rounds.antt =====
-- One round of the client's loop on a connection on which no call fails.
use project.Prelude.{
  ℕ, ◌^◌, suc, ◌<◌, ◌≡◌, sym, ◌∙◌, ap, List, ◌++◌, length, drop, drop-length, length-replicate,
  append-nil, append_cancel_left, arith, put_string, c_string, has_nul, has_nul-append, bytes_eq,
  bytes_eq_refl, true, some, ◌≢◌, refl, Status, ok, err, exit, fault, no_fuel,
}
use project.Socket.{Sock}
use project.Socket.Delivery.{IsLive, Sends-IsLive, Receives-IsLive}
use project.Wire.{box_size, blank, dump_text}
use project.Wire.Layout.{c_string-put_string}
use project.Wire.Format.{Tree, encode, IsTree, dump_message, length-dump}
use project.Client.Transfer.{receive_all}
use project.Client.Transfer.Live.{receive_all-Filled}
use project.Client.Files.{Node, base_name}
use project.Client.Files.Shows.{Shows}
use project.Client.Send.{Host, send_dir}
use project.Client.Send.Live.{send_dir-encode}
use project.Client.Round.{Windows, Station, dump_all}
use project.Client.Session.{State, Target, prepared, main_loop}

dump_message-text : (room : ℕ) → bytes_eq (c_string (dump_message room)) dump_text ≡ true
dump_message-text room =
    rw (c_string-put_string dump_text (blank room) (omega arith)) (bytes_eq_refl dump_text)

dump_message-has_nul : (room : ℕ) → has_nul (dump_message room) ≡ true
unfolding put_string
dump_message-has_nul room = has_nul-append dump_text (drop (suc (length dump_text)) (blank room))

-- Behind dumps that the program survives.
after_dumped :
    (r : Status) (a b : Status × State)
    → r ≢ fault
    → (elim r as (λ x. Status × State) [ fault ↦ a | _ ↦ b ]) ≡ b
after_dumped ok a b h = refl
after_dumped err a b h = refl
after_dumped exit a b h = refl
after_dumped fault a b h = absurd (h refl)
after_dumped no_fuel a b h = refl

-- The dumps of one round.
abbrev pub dumps : Windows → Target → Station → Status × Station
dumps w t station = dump_all w t.path t.timestamp (prepared t station)

-- A round, on a connection on which no call fails, with the signal first in what it delivers, a
-- `SIZE` that is not 0 and keeps a box below 2 ^ 32 bytes, and more fuel than a box has bytes.
-- The dumps do not end the program, and on the directory that they leave every Windows call
-- succeeds, and its names and sizes fit a box. Then the client reads exactly the signal, dumps,
-- sends exactly the encoding of the tree that the directory then holds, is in the same current
-- directory as before, and goes on with the next round from there.
pub main_loop_round :
    (room fuel : ℕ) (w : Windows) (target : ℕ → Target) (rounds : ℕ) (name : List ℕ) (t : Tree)
    (st : State) (tail : List ℕ)
    → 0 < room
    → box_size room < 2 ^ 32
    → box_size room < fuel
    → (dumps w (target rounds) st.station).0 ≢ fault
    → Shows name (w.view (target rounds).path (dumps w (target rounds) st.station).1.machine.disk) t
    → IsTree room t
    → base_name (target rounds).path ≡ some name
    → IsLive st.host.sock
    → st.host.sock.input ≡ dump_message room ++ tail
    → (s : Sock) × (main_loop room fuel w target (suc rounds) st
        ≡ main_loop room fuel w target rounds (record {
          host = record st.host { sock = s };
          station = (dumps w (target rounds) st.station).1;
        }))
      × (s.output ≡ st.host.sock.output ++ encode room t)
      × (s.input ≡ tail)
      × IsLive s
unfolding main_loop
main_loop_round room fuel w target rounds name t st tail chunked counted enough survived shows v
      named l e =
    let h : Host = st.host in
    let filled =
      receive_all-Filled fuel (box_size room) (blank room) (dump_message room) tail h.sock enough
        (omega arith) (length-dump room) e l in
    let s1 : Sock = (receive_all fuel (box_size room) (blank room) h.sock).2 in
    let full : (receive_all fuel (box_size room) (blank room) h.sock).1 ≡ dump_message room =
      filled.dest
      ∙ ap (λ xs. dump_message room ++ xs)
          (drop-length (box_size room) (blank room) (rw length-replicate (omega arith)))
      ∙ append-nil (dump_message room) in
    let h1 : Host = record h { sock = s1 } in
    let live = Receives-IsLive filled.receives l in
    let path : List ℕ = (target rounds).path in
    let after : Station = (dumps w (target rounds) st.station).1 in
    let held : Node = w.view path after.machine.disk in
    let put =
      send_dir-encode room fuel path name held t h1 chunked counted enough shows v named live in
    let h2 : Host = (send_dir room fuel path held h1).1 in
    (
      h2.sock,
      rw (full, dump_message-has_nul room, main_loop)
          (rw (full, dump_message-text room)
            (after_dumped (dumps w (target rounds) st.station).0 _ _ survived
              ∙ rw (put.status) (
                  ap
                    (λ d.
                      main_loop room fuel w target rounds
                        (record { host = record { sock = h2.sock; cwd = d }; station = after }))
                    put.cwd))),
      put.sends.output ∙ ap (λ xs. xs ++ encode room t) filled.receives.output,
      put.sends.input
          ∙ append_cancel_left (dump_message room) s1.input tail (sym filled.receives.input ∙ e),
      Sends-IsLive put.sends live,
    )
