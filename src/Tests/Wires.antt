-- ===== src/Tests/Wires.antt =====
-- The theorems on single transfers, the command line and the connection at concrete inputs.
use project.Prelude.{
  ℕ, ◌≡◌, refl, false, true, none, some, inr, List, [], ◌∷◌, ◌++◌, ok, arith, codes,
  length-replicate, take, drop, replicate,
}
use project.Socket.{Sock, failure, write, read}
use project.Socket.Buffer.{window}
use project.Socket.Runs.{Sent, Filled}
use project.Wire.{Box, size, encode_box, decode_box}
use project.Wire.Layout.{decode_box-encode_box}
use project.Server.Transfer.{receive_all}
use project.Server.Transfer.Live.{receive_all-Filled}
use project.Client.Transfer.Live.{send_all-Sent}
use project.Client.Transfer.Errors.{send_all_first_error, receive_all_first_error}
use project.Client.Args.{Flag, server, port, dir, parse_args}
use project.Client.Args.Words.{words, named_args, parse_args-words}
use project.Client.Connection.{Winsock, Effects, construct_connection, goes_on}
use project.Client.Connection.First.{construct_connection_first, construct_connection_unnoticed}
use project.Client.Netstat.{is_space, parse_netstat_output}
use project.Client.Netstat.Table.{
  IsToken, IsGap, Spaced, line_end, cell, Connection, Table, no_connections, connection, all_read,
  print_lines, parse_netstat_output-print_lines,
}
use project.Tests.{conn, conn-IsLive}

abbrev broken : Sock
broken = record (conn []) { calls = λ n. failure }

abbrev word : List ℕ
word = 7 ∷ 8 ∷ 9 ∷ []

abbrev box : Box
box = record { file_type = 1; file_size = 300; name_data = replicate size 65 }

decode_box-encode_box_example : decode_box (encode_box box) ≡ box
decode_box-encode_box_example = decode_box-encode_box size box (record {
  type_fits = omega arith;
  size_fits = omega arith;
  data_fits = length-replicate size 65;
})

receive_all-Filled_example :
    Filled word
      (word ++ drop 3 (0 ∷ 0 ∷ 0 ∷ 0 ∷ []))
      (conn (word ++ 1 ∷ []))
      (receive_all 3 (0 ∷ 0 ∷ 0 ∷ 0 ∷ []) (conn (word ++ 1 ∷ [])))
receive_all-Filled_example =
    receive_all-Filled 3 (0 ∷ 0 ∷ 0 ∷ 0 ∷ []) word (1 ∷ []) (conn (word ++ 1 ∷ [])) refl refl
      (conn-IsLive (word ++ 1 ∷ []))

send_all-Sent_example :
    Sent (take 3 word) (conn []) (project.Client.Transfer.send_all 9 3 word (conn []))
send_all-Sent_example =
    send_all-Sent 9 3 word (conn []) (omega arith) (omega arith) (omega arith) (conn-IsLive [])

send_all_first_error_example :
    project.Client.Transfer.send_all 9 3 word broken ≡ (ok, (write (window 3 0 word) broken).1)
unfolding write
send_all_first_error_example =
    send_all_first_error 9 3 word broken (omega arith) (omega arith) (omega arith) refl

receive_all_first_error_example :
    project.Client.Transfer.receive_all 9 3 word broken ≡ (ok, word, (read 3 broken).1)
unfolding read
receive_all_first_error_example =
    receive_all_first_error 9 3 word broken (omega arith) (omega arith) (omega arith) refl

abbrev pub options : List (Flag × List ℕ)
options = (dir, codes "out") ∷ (server, codes "-p") ∷ (port, codes "80") ∷ []

parse_args-words_example : parse_args (words options) ≡ some (named_args options)
parse_args-words_example = parse_args-words options refl

abbrev pub reached : Winsock
reached = record { starts = true; addresses = some ((4, false) ∷ (8, true) ∷ (12, true) ∷ []) }

abbrev unreached : Winsock
unreached = record { starts = true; addresses = some ((4, false) ∷ (8, false) ∷ []) }

abbrev unresolved : Winsock
unresolved = record { starts = true; addresses = none }

abbrev no_effects : Effects
no_effects = record { closed = []; cleanups = 0 }

construct_connection_first_example :
    construct_connection reached no_effects ≡ (8, record no_effects { closed = 4 ∷ [] })
construct_connection_first_example =
    construct_connection_first reached ((4, false) ∷ []) ((12, true) ∷ []) 8 no_effects refl refl
      (((λ e. omega arith), refl), tt) (λ e. omega arith)

construct_connection_unnoticed_example :
    goes_on (construct_connection unresolved no_effects).0 ≡ true
construct_connection_unnoticed_example =
    construct_connection_unnoticed unresolved no_effects (inr refl)

pub letter : (c : ℕ) → is_space c ≡ false → IsToken (c ∷ [])
letter c visible = ((λ e. cc), (visible, tt))

abbrev pub heads : List (List ℕ)
heads = [] ∷ codes "A" ∷ [] ∷ codes "P" ∷ []

-- One connection with a state, and one without.
abbrev pub listed : List Connection
listed =
    record {
      protocol = codes "T";
      local_address = codes "a";
      foreign_address = codes "b";
      state = some (codes "S");
      pid = codes "4";
    }
    ∷ record {
      protocol = codes "U";
      local_address = codes "a";
      foreign_address = codes "*";
      state = none;
      pid = codes "9";
    }
    ∷ []

abbrev pub listed_lines : List (List ℕ)
listed_lines = codes "  T    a      b  S   4" ∷ codes "  U    a      *      9" ∷ []

space : IsGap 32
unfolding is_space
space = (refl, (λ e. omega arith))

pub stateless_line :
    Spaced (codes "U" ∷ codes "a" ∷ codes "*" ∷ codes "9" ∷ []) (codes "  U    a      *      9")
unfolding is_space
stateless_line =
    cell 32 (codes " ") (codes "U") space (space, tt) (letter 85 refl)
      (cell 32 (codes "   ") (codes "a") space (space, (space, (space, tt))) (letter 97 refl)
        (cell 32 (codes "     ") (codes "*") space (space, (space, (space, (space, (space, tt)))))
          (letter 42 refl)
          (cell 32 (codes "     ") (codes "9") space (space, (space, (space, (space, (space, tt)))))
            (letter 57 refl) (line_end [] tt))))

listed_line :
    Spaced
      (codes "T" ∷ codes "a" ∷ codes "b" ∷ codes "S" ∷ codes "4" ∷ [])
      (codes "  T    a      b  S   4")
unfolding is_space
listed_line =
    cell 32 (codes " ") (codes "T") space (space, tt) (letter 84 refl)
      (cell 32 (codes "   ") (codes "a") space (space, (space, (space, tt))) (letter 97 refl)
        (cell 32 (codes "     ") (codes "b") space (space, (space, (space, (space, (space, tt)))))
          (letter 98 refl)
          (cell 32 (codes " ") (codes "S") space (space, tt) (letter 83 refl)
            (cell 32 (codes "  ") (codes "4") space (space, (space, tt)) (letter 52 refl)
              (line_end [] tt)))))

pub listed_table : Table listed listed_lines
listed_table = connection _ listed_line (connection _ stateless_line no_connections)

parse_netstat_output-print_lines_example :
    parse_netstat_output (print_lines (heads ++ listed_lines)) ≡ all_read listed
parse_netstat_output-print_lines_example =
    parse_netstat_output-print_lines heads listed_lines listed refl
      (tt, (((λ e. omega arith), tt), (tt, (((λ e. omega arith), tt), tt)))) listed_table
