-- ===== src/Client/Netstat.antt =====
-- `parseNetstatOutput` of InfoDumping/InfoDumping.cpp. A text is its codes.
pub mod Table
pub mod Json
pub mod Denotes
use project.Prelude.{
  ℕ, Bool, true, false, ◌||◌, Option, none, some, List, [], ◌∷◌, ◌++◌, drop, leb, ◌&&◌, ◌==◌, map,
}

pub record NetStatInfo : Type 0 where
  pub protocol : List ℕ
  pub local_address : List ℕ
  pub foreign_address : List ℕ
  pub state : List ℕ
  pub pid : List ℕ

-- `isspace`: the codes from 9 to 13, and the space.
unfoldable pub is_space : ℕ → Bool
is_space c = leb 9 c && leb c 13 || c == 32

-- A piece that was read, unless it is empty.
unfoldable pub emit : List ℕ → List (List ℕ) → List (List ℕ)
emit [] pieces = pieces
emit (c ∷ cs) pieces = (c ∷ cs) ∷ pieces

-- `lineStream >> token` until it fails, with the part of a token that is read already.
unfoldable pub tokens_from : List ℕ → List ℕ → List (List ℕ)
unfolding emit is_space
tokens_from acc [] = emit acc []
tokens_from acc (c ∷ cs) = elim (is_space c) [
  | true ↦ emit acc (tokens_from [] cs)
  | false ↦ tokens_from (acc ++ c ∷ []) cs
]

-- `std::getline(iss, line)` until it fails; behind the last newline an empty line is none.
unfoldable pub lines_from : List ℕ → List ℕ → List (List ℕ)
unfolding emit
lines_from acc [] = emit acc []
lines_from acc (c ∷ cs) = elim (c == 10) [
  | true ↦ acc ∷ lines_from [] cs
  | false ↦ lines_from (acc ++ c ∷ []) cs
]

-- A line of at least four tokens is a row; a fifth token is the process, and further ones are lost.
unfoldable pub row : List (List ℕ) → Option NetStatInfo
row (a ∷ b ∷ c ∷ d ∷ []) =
    some (record { protocol = a; local_address = b; foreign_address = c; state = d; pid = [] })
row (a ∷ b ∷ c ∷ d ∷ e ∷ more) =
    some (record { protocol = a; local_address = b; foreign_address = c; state = d; pid = e })
row few = none

unfoldable pub rows : List (List ℕ) → List NetStatInfo
unfolding row tokens_from
rows [] = []
rows (line ∷ lines) =
    let rest = rows lines in
    elim (row (tokens_from [] line)) [ some info ↦ info ∷ rest | none ↦ rest ]

-- Behind the four lines of the header.
unfoldable pub parse_netstat_output : List ℕ → List NetStatInfo
unfolding rows lines_from
parse_netstat_output text = rows (drop 4 (lines_from [] text))
