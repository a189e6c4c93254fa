-- ===== src/Client/Netstat/Table.antt =====
-- `parseNetstatOutput` of InfoDumping/InfoDumping.cpp on a table that is printed column by column, with any spacing.
use project.Prelude.{
  ℕ, ◌≡◌, ◌≢◌, refl, ap, sym, subst, ◌∙◌, true, false, Option, none, some, List, [], ◌∷◌, ◌++◌,
  append_assoc, append-nil, All, drop, drop-append, length, ◌==◌, arith,
}
use project.Client.Netstat.{
  NetStatInfo, is_space, emit, tokens_from, lines_from, row, rows, parse_netstat_output,
}

-- A text of one character or more, none of which is space.
abbrev pub IsToken : List ℕ → Type 0
IsToken t = (t ≢ []) × All (λ c. is_space c ≡ false) t

-- A space between columns, of any kind but the newline.
abbrev pub IsGap : ℕ → Type 0
IsGap c = (is_space c ≡ true) × (c ≢ 10)

-- A line with those cells: each behind a gap of one space or more, and any gap at the end.
pub data Spaced : List (List ℕ) → List ℕ → Type 0 where
  line_end : (gap : List ℕ) → All IsGap gap → Spaced [] gap
  cell :
      {ts : List (List ℕ)} {rest : List ℕ} (c : ℕ) (gap t : List ℕ)
      → IsGap c
      → All IsGap gap
      → IsToken t
      → Spaced ts rest
      → Spaced (t ∷ ts) (c ∷ (gap ++ (t ++ rest)))

-- Each line with its newline.
unfoldable pub print_lines : List (List ℕ) → List ℕ
print_lines [] = []
print_lines (l ∷ ls) = l ++ 10 ∷ print_lines ls

-- A connection as `netstat` lists it; that of a protocol without connections has no state.
pub record Connection : Type 0 where
  pub protocol : List ℕ
  pub local_address : List ℕ
  pub foreign_address : List ℕ
  pub state : Option (List ℕ)
  pub pid : List ℕ

abbrev pub cells : Connection → List (List ℕ)
cells c =
    c.protocol
    ∷ c.local_address
    ∷ c.foreign_address
    ∷ (elim c.state [ none ↦ c.pid ∷ [] | some state ↦ state ∷ c.pid ∷ [] ])

-- A line for each connection.
pub data Table : List Connection → List (List ℕ) → Type 0 where
  no_connections : Table [] []
  connection :
      {cs : List Connection} {lines : List (List ℕ)} {line : List ℕ} (c : Connection)
      → Spaced (cells c) line
      → Table cs lines
      → Table (c ∷ cs) (line ∷ lines)

-- What is read of a connection: where there is no state, the process in its place.
abbrev pub as_read : Connection → NetStatInfo
as_read c = elim c.state [
  | none ↦ record {
    protocol = c.protocol;
    local_address = c.local_address;
    foreign_address = c.foreign_address;
    state = c.pid;
    pid = [];
  }
  | some state ↦ record {
    protocol = c.protocol;
    local_address = c.local_address;
    foreign_address = c.foreign_address;
    state = state;
    pid = c.pid;
  }
]

abbrev pub all_read : List Connection → List NetStatInfo
all_read [] = []
all_read (c ∷ cs) = as_read c ∷ all_read cs

tokens_from-append :
    (acc t rest : List ℕ)
    → All (λ c. is_space c ≡ false) t
    → tokens_from acc (t ++ rest) ≡ tokens_from (acc ++ t) rest
unfolding tokens_from
tokens_from-append acc [] rest h = ap (λ a. tokens_from a rest) (sym (append-nil acc))
tokens_from-append acc (c ∷ t) rest (visible, h) =
    rw (visible, tokens_from)
      (tokens_from-append (acc ++ c ∷ []) t rest h
        ∙ ap (λ a. tokens_from a rest) (append_assoc acc (c ∷ []) t))

emit_full : (t : List ℕ) (ts : List (List ℕ)) → t ≢ [] → emit t ts ≡ t ∷ ts
unfolding emit
emit_full [] ts full = absurd (full refl)
emit_full (c ∷ t) ts full = refl

tokens_from-gap :
    (gap rest : List ℕ) → All IsGap gap → tokens_from [] (gap ++ rest) ≡ tokens_from [] rest
unfolding tokens_from emit
tokens_from-gap [] rest h = refl
tokens_from-gap (c ∷ gap) rest ((space, _), h) =
    rw (space, tokens_from) (tokens_from-gap gap rest h)

tokens_from-line_end : (acc gap : List ℕ) → All IsGap gap → tokens_from acc gap ≡ emit acc []
unfolding tokens_from emit
tokens_from-line_end acc [] h = refl
tokens_from-line_end acc (c ∷ gap) ((space, _), h) =
    rw (space, tokens_from) (ap (emit acc) (tokens_from-line_end [] gap h))

tokens_from-Spaced :
    {ts : List (List ℕ)} {line : List ℕ} (acc : List ℕ)
    → Spaced ts line
    → tokens_from acc line ≡ emit acc ts
unfolding tokens_from
tokens_from-Spaced acc (line_end gap h) = tokens_from-line_end acc gap h
tokens_from-Spaced acc (cell {ts} {rest} c gap t (space, _) gaps (full, visible) more) =
    rw (space, tokens_from)
      (ap (emit acc) (
        tokens_from-gap gap (t ++ rest) gaps
        ∙ tokens_from-append [] t rest visible
        ∙ tokens_from-Spaced t more
        ∙ emit_full t ts full))

lines_from-append :
    (acc l rest : List ℕ)
    → All (λ c. c ≢ 10) l
    → lines_from acc (l ++ 10 ∷ rest) ≡ (acc ++ l) ∷ lines_from [] rest
unfolding lines_from
lines_from-append acc [] rest h = ap (λ a. a ∷ lines_from [] rest) (sym (append-nil acc))
lines_from-append acc (c ∷ l) rest (inside, h) =
    let other : (c == 10) ≡ false = ground arith in
    rw (other, lines_from)
      (lines_from-append (acc ++ c ∷ []) l rest h
        ∙ ap (λ a. a ∷ lines_from [] rest) (append_assoc acc (c ∷ []) l))

lines_from-print_lines :
    (ls : List (List ℕ)) → All (All (λ c. c ≢ 10)) ls → lines_from [] (print_lines ls) ≡ ls
unfolding print_lines lines_from
lines_from-print_lines [] h = refl
lines_from-print_lines (l ∷ ls) (inside, h) =
    lines_from-append [] l (print_lines ls) inside ∙ ap (λ r. l ∷ r) (lines_from-print_lines ls h)

-- A line of the table is read as its connection.
row-cells : (c : Connection) → row (cells c) ≡ some (as_read c)
unfolding row
row-cells c = row_of c.state
  where
    row_of :
        (state : Option (List ℕ))
        → row (cells (record c { state = state })) ≡ some (as_read (record c { state = state }))
    row_of none = refl
    row_of (some state) = refl

rows-Table :
    {cs : List Connection} {lines : List (List ℕ)} → Table cs lines → rows lines ≡ all_read cs
unfolding rows emit
rows-Table no_connections = refl
rows-Table (connection {cs} {lines} {line} c spaced more) =
    let read : row (tokens_from [] line) ≡ some (as_read c) =
      ap row (tokens_from-Spaced [] spaced) ∙ row-cells c in
    rw (read, rows) (ap (λ rest. as_read c ∷ rest) (rows-Table more))

visible_inside : (c : ℕ) → is_space c ≡ false → c ≢ 10
unfolding is_space
visible_inside c visible e = ground arith

gap_inside :
    (gap rest : List ℕ) → All IsGap gap → All (λ c. c ≢ 10) rest → All (λ c. c ≢ 10) (gap ++ rest)
gap_inside [] rest h r = r
gap_inside (c ∷ gap) rest ((_, other), h) r = (other, gap_inside gap rest h r)

token_inside :
    (t rest : List ℕ)
    → All (λ c. is_space c ≡ false) t
    → All (λ c. c ≢ 10) rest
    → All (λ c. c ≢ 10) (t ++ rest)
token_inside [] rest h r = r
token_inside (c ∷ t) rest (visible, h) r = (visible_inside c visible, token_inside t rest h r)

Spaced-inside : {ts : List (List ℕ)} {line : List ℕ} → Spaced ts line → All (λ c. c ≢ 10) line
Spaced-inside (line_end gap h) = subst (All (λ c. c ≢ 10)) (append-nil gap) (gap_inside gap [] h tt)
Spaced-inside (cell {ts} {rest} c gap t (_, other) gaps (_, visible) more) =
    (other, gap_inside gap (t ++ rest) gaps (token_inside t rest visible (Spaced-inside more)))

table_inside :
    (heads : List (List ℕ)) {cs : List Connection} {lines : List (List ℕ)}
    → All (All (λ c. c ≢ 10)) heads
    → Table cs lines
    → All (All (λ c. c ≢ 10)) (heads ++ lines)
table_inside [] h no_connections = tt
table_inside [] h (connection c spaced more) = (Spaced-inside spaced, table_inside [] h more)
table_inside (l ∷ heads) (inside, h) table = (inside, table_inside heads h table)

-- Four header lines, and a line for each connection, whose four or five columns have a character each
-- and no space, and stand behind one space or more: `parseNetstatOutput` gives one entry for each
-- connection, in their order, with its columns in their fields; only where there is no state, the
-- process is in the field of the state, and the field of the process is empty.
pub parse_netstat_output-print_lines :
    (heads lines : List (List ℕ)) (cs : List Connection)
    → length heads ≡ 4
    → All (All (λ c. c ≢ 10)) heads
    → Table cs lines
    → parse_netstat_output (print_lines (heads ++ lines)) ≡ all_read cs
unfolding parse_netstat_output
parse_netstat_output-print_lines heads lines cs four inside table =
    ap (λ ls. rows (drop 4 ls))
      (lines_from-print_lines (heads ++ lines) (table_inside heads inside table))
    ∙ ap rows (drop-append 4 heads lines (sym four))
    ∙ rows-Table table
