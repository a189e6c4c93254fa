-- ===== src/Client/Args/Words.antt =====
-- `parseArgs` of InfoDumping/InfoDumping.cpp on options that are spelled out.
use project.Prelude.{ℕ, suc, ◌*◌, ◌≡◌, refl, some, List, [], ◌∷◌, length, arith, codes, ◌==◌, true}
use project.Client.Args.{
  Args, no_args, Pointer, unset, Flag, server, port, dir, to, assign, flag_of_code, read_word,
  parse_words, parse_args,
}

abbrev pub spelling : Flag → List ℕ
spelling server = codes "-i"
spelling port = codes "-p"
spelling dir = codes "-d"

-- The command line of a list of options with their values.
unfoldable pub words : List (Flag × List ℕ) → List (List ℕ)
words [] = []
words ((flag, value) ∷ options) = spelling flag ∷ value ∷ words options

-- The last value of the options of one kind, or the pointer as it was.
abbrev pub last_address : Pointer → List (Flag × List ℕ) → Pointer
last_address p [] = p
last_address p ((server, value) ∷ options) = last_address (to value) options
last_address p (other ∷ options) = last_address p options

abbrev pub last_port : Pointer → List (Flag × List ℕ) → Pointer
last_port p [] = p
last_port p ((port, value) ∷ options) = last_port (to value) options
last_port p (other ∷ options) = last_port p options

abbrev pub last_dir : Pointer → List (Flag × List ℕ) → Pointer
last_dir p [] = p
last_dir p ((dir, value) ∷ options) = last_dir (to value) options
last_dir p (other ∷ options) = last_dir p options

-- The three pointers that the options set.
abbrev pub named_args : List (Flag × List ℕ) → Args
named_args options = record {
  port_number = last_port unset options;
  server_address = last_address unset options;
  output_dir_name = last_dir unset options;
}

parse_words-words :
    (options : List (Flag × List ℕ)) (a : Args)
    → parse_words (words options) a
      ≡ some (record {
        port_number = last_port a.port_number options;
        server_address = last_address a.server_address options;
        output_dir_name = last_dir a.output_dir_name options;
      })
unfolding parse_words words read_word flag_of_code assign
parse_words-words [] a = refl
parse_words-words ((server, value) ∷ options) a = parse_words-words options _
parse_words-words ((port, value) ∷ options) a = parse_words-words options _
parse_words-words ((dir, value) ∷ options) a = parse_words-words options _

length-words : (options : List (Flag × List ℕ)) → length (words options) ≡ 2 * length options
unfolding words
length-words [] = refl
length-words ((flag, value) ∷ options) = let rest = length-words options in omega arith

-- Three options in any order, whatever their values spell: the command line is accepted; the server's
-- address is the value of the last `-i`, the port that of the last `-p`, and the directory that of
-- the last `-d`, and each is not set where its option is missing.
pub parse_args-words :
    (options : List (Flag × List ℕ))
    → length options ≡ 3
    → parse_args (words options) ≡ some (named_args options)
unfolding parse_args
parse_args-words options three =
    let seven : (suc (length (words options)) == 7) ≡ true =
      let size = length-words options in ground arith in
    rw seven (parse_words-words options no_args)
