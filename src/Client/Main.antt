-- ===== src/Client/Main.antt =====
-- `_tmain` of InfoDumping/main.cpp around its loop: the command line, the two directories and the
-- connection.
pub mod Stamp
pub mod First
pub mod Unset
use project.Prelude.{
  ℕ, ◌+◌, ◌/◌, ◌%◌, ◌^◌, ◌-◌, Bool, true, false, Option, none, some, List, [], ◌∷◌, ◌++◌, codes,
  if◌then◌else◌, Status,
}
use project.Wire.{size}
use project.Socket.{Sock}
use project.Client.Args.{Pointer, unset, null, to, Args, parse_args}
use project.Client.Connection.{Winsock, Effects, construct_connection, goes_on}
use project.Client.Files.{backslash}
use project.Client.Send.{Host}
use project.Client.Session.{State, Target, main_loop}
use project.Client.Round.{Windows, Station, ensure_dir}

-- `std::tm`, with the months from 1 and the years of the calendar.
pub record Time : Type 0 where
  pub year : ℕ
  pub month : ℕ
  pub day : ℕ
  pub hour : ℕ
  pub minute : ℕ
  pub second : ℕ

-- Two digits, and four.
abbrev pub two : ℕ → List ℕ → List ℕ
two n rest = (48 + n / 10 % 10) ∷ (48 + n % 10) ∷ rest

abbrev pub four : ℕ → List ℕ → List ℕ
four n rest = (48 + n / 1000 % 10) ∷ (48 + n / 100 % 10) ∷ two n rest

-- `_%Y%m%d_%H%M%S`
unfoldable pub get_current_timestamp : Time → List ℕ
get_current_timestamp t =
    95 ∷ four t.year (two t.month (two t.day (95 ∷ two t.hour (two t.minute (two t.second [])))))

unfoldable pub log_dir : List ℕ → Time → List ℕ
unfolding get_current_timestamp
log_dir new_dir t = new_dir ++ (codes "\\log" ++ get_current_timestamp t)

-- What the program meets: the words of the command line behind the program's name, the current
-- directory, Winsock, the connection behind a socket, the machine, and the time of each round.
pub record Surroundings : Type 0 where
  pub words : List (List ℕ)
  pub current_dir : List ℕ
  pub winsock : Winsock
  pub connection : ℕ → Sock
  pub windows : Windows
  pub time : ℕ → Time

-- The directory of a round, made where it is not there yet.
unfoldable pub log_target : Surroundings → List ℕ → ℕ → Target
unfolding log_dir ensure_dir get_current_timestamp
log_target w new_dir round =
    let path = log_dir new_dir (w.time round) in
    record {
      path = path;
      timestamp = get_current_timestamp (w.time round);
      made = ensure_dir w.windows path;
    }

-- A client program, which has the text of `_tmain` with a `SIZE` of its own and dumps each round
-- somewhere under its directory.
pub record Build : Type 0 where
  pub room : ℕ
  pub target : List ℕ → ℕ → Target

-- The client of InfoDumping.
abbrev pub logging : Surroundings → Build
logging w = record { room = size; target = log_target w }

-- How the station changes where the dump directory is missing.
unfoldable pub make_dump_dir : Windows → List ℕ → Station → Station
unfolding ensure_dir
make_dump_dir w path st = record st { made = st.made ++ ensure_dir w path }

pub data Outcome : Type 0 where
  -- the program returns this 32-bit word
  returns : ℕ → Outcome
  -- a pointer that was not set is used
  undefined : Outcome
  -- how the loop ends
  looped : Status × State → Outcome

-- The part behind the command line, with a station for what the program leaves.
unfoldable pub connect : Build → ℕ → ℕ → Surroundings → List ℕ → Station → Outcome × Station
unfolding make_dump_dir construct_connection goes_on main_loop
connect b fuel rounds w new_dir st =
    let st' = make_dump_dir w.windows new_dir st in
    let (s, effects) = construct_connection w.winsock (record { closed = []; cleanups = 0 }) in
    if goes_on s
    then (let r = main_loop b.room fuel w.windows (b.target new_dir) rounds (record {
      host = record { sock = w.connection s; cwd = w.current_dir };
      station = st';
    }) in
        (looped r, r.1.station))
    else (returns 1, st')

-- The directory's name is used first, then the address and the port.
unfoldable pub run_args : Build → ℕ → ℕ → Surroundings → Args → Station → Outcome × Station
unfolding connect make_dump_dir
run_args b fuel rounds w a st = elim a.output_dir_name [
  | unset ↦ (undefined, st)
  | null ↦ (undefined, st)
  | to dir ↦
      let new_dir = w.current_dir ++ (codes "\\" ++ dir) in
      elim a.server_address [
        | unset ↦ (undefined, make_dump_dir w.windows new_dir st)
        | null ↦ (undefined, make_dump_dir w.windows new_dir st)
        | to address ↦ elim a.port_number [
          | unset ↦ (undefined, make_dump_dir w.windows new_dir st)
          | null ↦ (undefined, make_dump_dir w.windows new_dir st)
          | to port ↦ connect b fuel rounds w new_dir st
        ]
      ]
]

unfoldable pub tmain : Build → ℕ → ℕ → Surroundings → Station → Outcome × Station
unfolding parse_args run_args
tmain b fuel rounds w st = elim (parse_args w.words) [
  | none ↦ (returns (2 ^ 32 - 1), st)
  | some a ↦ run_args b fuel rounds w a st
]
