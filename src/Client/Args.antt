-- ===== src/Client/Args.antt =====
-- `InfoDumping::parseArgs` of InfoDumping/InfoDumping.cpp. A text is the codes before its NUL.
pub mod Words
use project.Prelude.{
  ℕ, suc, ◌+◌, Option, none, some, List, [], ◌∷◌, length, ◌==◌, if◌then◌else◌, true, false,
}

-- The caller's pointers: one that was never set, the null behind the last argument, or an argument.
pub data Pointer : Type 0 where
  unset null : Pointer
  to : List ℕ → Pointer

pub record Args : Type 0 where
  pub port_number : Pointer
  pub server_address : Pointer
  pub output_dir_name : Pointer

abbrev pub no_args : Args
no_args = record { port_number = unset; server_address = unset; output_dir_name = unset }

pub data Flag : Type 0 where
  server port dir : Flag

-- `switch (argv[i][1])`
unfoldable pub flag_of_code : ℕ → Option Flag
flag_of_code c =
    if c == 105
    then some server
    else if c == 112
    then some port
    else if c == 100
    then some dir
    else none

unfoldable pub assign : Flag → Pointer → Args → Args
assign server p a = record a { server_address = p }
assign port p a = record a { port_number = p }
assign dir p a = record a { output_dir_name = p }

-- A word that starts with '-' and has a second character is an option, whatever follows that
-- character; any other word ends the options.
pub data Word : Type 0 where
  option : Option Flag → Word
  other : Word

unfoldable pub read_word : List ℕ → Word
unfolding flag_of_code
read_word [] = other
read_word (c ∷ []) = other
read_word (c ∷ d ∷ cs) = if c == 45 then option (flag_of_code d) else other

-- The loop over the arguments behind the program's name; `none` is the result -1.
unfoldable pub parse_words : List (List ℕ) → Args → Option Args
unfolding read_word assign
parse_words [] a = some a
parse_words (word ∷ []) a = elim (read_word word) [
  | other ↦ some a
  | option none ↦ none
  | option (some flag) ↦ some (assign flag null a)
]
parse_words (word ∷ value ∷ rest) a = elim (read_word word) [
  | other ↦ some a
  | option none ↦ none
  | option (some flag) ↦ parse_words rest (assign flag (to value) a)
]

-- `argc` counts the program's name.
unfoldable pub parse_args : List (List ℕ) → Option Args
unfolding parse_words
parse_args words = if suc (length words) == 7 then parse_words words no_args else none
