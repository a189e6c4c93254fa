-- ===== src/Client/Main/First.antt =====
-- The first round of `_tmain` of InfoDumping/main.cpp, from the command line on.
use project.Prelude.{
  ℕ, suc, ◌<◌, ◌≡◌, ◌≢◌, refl, ◌∙◌, ap, Bool, true, false, some, List, [], ◌∷◌, ◌++◌, All, codes,
  length, arith, ◌==◌, sym, Status, fault,
}
use project.Socket.{Sock}
use project.Socket.Delivery.{IsLive}
use project.Wire.{size, box_size}
use project.Wire.Format.{Tree, encode, IsTree, dump_message}
use project.Client.Args.{Flag, to, parse_args}
use project.Client.Args.Words.{words, named_args, parse_args-words}
use project.Client.Connection.{invalid_socket, goes_on}
use project.Client.Connection.First.{IsRefused, construct_connection_first}
use project.Client.Files.Shows.{Shows}
use project.Client.Session.{State, main_loop}
use project.Client.Round.{Station}
use project.Client.Session.Rounds.{dumps, main_loop_round}
use project.Client.Main.{
  Build, logging, Surroundings, Outcome, looped, log_dir, log_target, make_dump_dir, connect,
  run_args, tmain,
}
use project.Client.Main.Stamp.{log_name, base_name-log_dir}

-- The loop, and the station that it leaves.
abbrev pub loop : Build → ℕ → ℕ → Surroundings → List ℕ → State → Outcome × Station
loop b fuel rounds w new_dir st =
    let r = main_loop b.room fuel w.windows (b.target new_dir) rounds st in (looped r, r.1.station)

connect_first :
    (b : Build) (fuel rounds : ℕ) (w : Surroundings) (new_dir : List ℕ) (st : Station)
    (refused rest : List (ℕ × Bool)) (s : ℕ)
    → w.winsock.starts ≡ true
    → w.winsock.addresses ≡ some (refused ++ (s, true) ∷ rest)
    → All IsRefused refused
    → s ≢ invalid_socket
    → connect b fuel rounds w new_dir st
      ≡ loop b fuel rounds w new_dir (record {
        host = record { sock = w.connection s; cwd = w.current_dir };
        station = make_dump_dir w.windows new_dir st;
      })
unfolding connect goes_on
connect_first b fuel rounds w new_dir st refused rest s starts resolved h made =
    let first =
      construct_connection_first w.winsock refused rest s (record { closed = []; cleanups = 0 })
        starts resolved h made in
    let valid : (s == invalid_socket) ≡ false = ground arith in
    rw (first, connect) (rw (valid, goes_on) refl)

tmain_words :
    (b : Build) (fuel rounds : ℕ) (w : Surroundings) (st : Station) (options : List (Flag × List ℕ))
    (address port_text dir_name : List ℕ)
    → w.words ≡ words options
    → length options ≡ 3
    → named_args options ≡ record {
      port_number = to port_text;
      server_address = to address;
      output_dir_name = to dir_name;
    }
    → tmain b fuel rounds w st
      ≡ connect b fuel rounds w (w.current_dir ++ (codes "\\" ++ dir_name)) st
unfolding tmain run_args
tmain_words b fuel rounds w st options address port_text dir_name typed three given =
    let parsed = ap parse_args typed ∙ parse_args-words options three ∙ ap some given in
    rw (parsed, tmain) refl

-- The dumps of the first round, when the loop has `rounds` to go behind it.
abbrev pub first_dumps : Build → ℕ → Surroundings → List ℕ → Station → Status × Station
first_dumps b rounds w new_dir st =
    dumps w.windows (b.target new_dir rounds) (make_dump_dir w.windows new_dir st)

-- A command line with the three options in any order, Winsock and the name resolution succeed, and an
-- address connects after others that refuse; on its connection no call fails, and it delivers the
-- signal first. The dumps do not end the program; on the log directory that they leave, named after
-- the time, every Windows call succeeds, and its names and sizes fit a box; and the fuel is more
-- than a box has bytes. Then the program reads exactly the signal, dumps into the log directory,
-- sends exactly the encoding of its tree, in the server's sight under the name "log" and the time,
-- and goes on with its next round.
pub tmain_first :
    (fuel rounds : ℕ) (w : Surroundings) (st : Station) (options : List (Flag × List ℕ))
    (address port_text dir_name new_dir : List ℕ) (refused rest : List (ℕ × Bool)) (s : ℕ)
    (t : Tree) (tail : List ℕ)
    → w.words ≡ words options
    → length options ≡ 3
    → named_args options ≡ record {
      port_number = to port_text;
      server_address = to address;
      output_dir_name = to dir_name;
    }
    → new_dir ≡ w.current_dir ++ (codes "\\" ++ dir_name)
    → w.winsock.starts ≡ true
    → w.winsock.addresses ≡ some (refused ++ (s, true) ∷ rest)
    → All IsRefused refused
    → s ≢ invalid_socket
    → IsLive (w.connection s)
    → (w.connection s).input ≡ dump_message size ++ tail
    → box_size size < fuel
    → (first_dumps (logging w) rounds w new_dir st).0 ≢ fault
    → Shows
        (log_name (w.time rounds))
        (w.windows.view
          (log_dir new_dir (w.time rounds))
          (first_dumps (logging w) rounds w new_dir st).1.machine.disk)
        t
    → IsTree size t
    → (sock : Sock) × (tmain (logging w) fuel (suc rounds) w st
        ≡ loop (logging w) fuel rounds w new_dir (record {
          host = record { sock = sock; cwd = w.current_dir };
          station = (first_dumps (logging w) rounds w new_dir st).1;
        }))
      × (sock.output ≡ (w.connection s).output ++ encode size t)
      × (sock.input ≡ tail)
unfolding log_target
tmain_first fuel rounds w st options address port_text dir_name new_dir refused rest s t tail typed
      three given there starts resolved h made live signal enough survived shows v =
    let begun =
      tmain_words (logging w) fuel (suc rounds) w st options address port_text dir_name typed three
        given
      ∙ ap (λ d. connect (logging w) fuel (suc rounds) w d st) (sym there)
      ∙ connect_first (logging w) fuel (suc rounds) w new_dir st refused rest s starts resolved h
          made in
    let (sock, same, sent, left, _) =
      main_loop_round size fuel w.windows (log_target w new_dir) rounds (log_name (w.time rounds)) t
        (record {
          host = record { sock = w.connection s; cwd = w.current_dir };
          station = make_dump_dir w.windows new_dir st;
        })
        tail (omega arith) (omega arith) enough survived shows v
        (base_name-log_dir new_dir (w.time rounds)) live signal in
    (sock, begun ∙ ap (λ (r : Status × State). (looped r, r.1.station)) same, sent, left)
