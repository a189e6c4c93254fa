-- ===== src/Client/Registry/Value.antt =====
-- The values of a key in `EnumerateKey` of InfoDumping/InfoDumping.cpp.
use project.Prelude.{
  ℕ, zero, suc, ◌+◌, ◌*◌, ◌^◌, true, false, Option, none, some, List, [], ◌∷◌, ◌++◌, length, take,
  replicate, codes, ltb, ◌==◌, le_value, if◌then◌else◌,
}
use project.Client.Registry.{
  Printer, say, ◌>>◌, Entry, Info, nonzero, unit_bytes, print_wide, numeral, say_hex,
}

-- Pairs of bytes as 16-bit units.
unfoldable pub units : List ℕ → List ℕ
units [] = []
units (a ∷ []) = []
units (a ∷ b ∷ bs) = (a + 256 * b) ∷ units bs

-- The units before the next 0, and those behind it; `none` where there is no 0.
unfoldable pub next_string : List ℕ → Option (List ℕ × List ℕ)
next_string [] = none
next_string (u ∷ us) =
    let rest = next_string us in
    if u == 0
    then some ([], us)
    else (elim rest [ none ↦ none | some (s, later) ↦ some (u ∷ s, later) ])

-- What stands behind a string: a comma, unless another 0 follows.
unfoldable pub comma_before : List ℕ → Option (List ℕ)
comma_before [] = none
comma_before (u ∷ us) = some (if u == 0 then [] else codes ",\n")

-- The strings of a REG_MULTI_SZ; the count bounds them.
unfoldable pub say_strings : ℕ → List ℕ → Printer
unfolding next_string comma_before nonzero unit_bytes ◌>>◌
say_strings zero us hex = none
say_strings (suc n) [] hex = none
say_strings (suc n) (u ∷ us) hex = elim (u == 0) [
  | true ↦ some ([], hex)
  | false ↦ elim (next_string (u ∷ us)) [
    | none ↦ none
    | some (s, later) ↦ elim (comma_before later) [
      | none ↦ none
      | some comma ↦
          (do
            say (codes "        \"" ++ (nonzero (unit_bytes s) ++ codes "\""))
            say comma
            say_strings n later)
            hex
    ]
  ]
]

-- The four bytes of a number; `none` where the data is shorter.
unfoldable pub say_number : (List ℕ → ℕ) → List ℕ → Printer
unfolding numeral
say_number value bytes hex =
    if ltb (length bytes) 4 then none else some (numeral hex (value (take 4 bytes)), hex)

-- `(tmp[0] << 24) | (tmp[1] << 16) | (tmp[2] << 8) | tmp[3]`
unfoldable pub be_value : List ℕ → ℕ
be_value [] = 0
be_value (b ∷ bs) = 256 ^ length bs * b + be_value bs

abbrev pub data_key : List ℕ
data_key = codes "      \"Data\": "

-- What follows the text `"Type": `, for each of the types that the function knows. The test for
-- REG_DWORD_LITTLE_ENDIAN comes after that for REG_DWORD, which is the same number.
unfoldable pub say_data : ℕ → List ℕ → List ℕ → Printer
unfolding ◌>>◌ nonzero units say_strings say_number say_hex be_value
say_data kind bytes behind =
    if kind == 1
    then say
        (codes "\"REG_SZ\",\n" ++ (data_key ++ (codes "\"" ++ (nonzero bytes ++ codes "\"\n"))))
    else if kind == 2
    then say (codes "\"REG_EXPAND_SZ\",\n" ++ (nonzero bytes ++ codes "\"\n"))
    else if kind == 7
    then (do
      say (codes "\"REG_MULTI_SZ\",\n" ++ (data_key ++ codes "[\n"))
      say_strings (length (bytes ++ behind)) (units (bytes ++ behind))
      say (codes "\n      ]\n"))
    else if kind == 6
    then say (codes "\"REG_LINK\",\n" ++ (nonzero bytes ++ codes "\"\n"))
    else if kind == 3
    then (do
      say (codes "\"REG_BINARY\",\n" ++ (data_key ++ codes "\""))
      say_hex bytes
      say (codes "\"\n"))
    else if kind == 9
    then (do
      say (codes "\"REG_FULL_RESOURCE_DESCRIPTOR\",\n" ++ (data_key ++ codes "\""))
      say_hex bytes
      say (codes "\"\n"))
    else if kind == 4
    then (do
      say (codes "\"REG_DWORD\",\n" ++ data_key)
      say_number le_value bytes
      say (codes "\n"))
    else if kind == 5
    then (do
      say (codes "\"REG_DWORD_BIG_ENDIAN\",\n" ++ codes "  \"Data\": ")
      say_number be_value bytes
      say (codes "\n"))
    else say []

unfoldable pub name_json : List ℕ → List ℕ
unfolding print_wide
name_json [] = codes "      \"Name\": \"" ++ (codes "(Default)" ++ codes "\",\n")
name_json (u ∷ us) = codes "      \"Name\": \"" ++ (print_wide (u ∷ us) ++ codes "\",\n")

unfoldable pub say_entry : Entry → List ℕ → Printer
unfolding ◌>>◌ name_json say_data
say_entry e behind = do
  say (codes "    {\n" ++ (name_json e.name ++ codes "      \"Type\": "))
  say_data e.kind e.data_bytes behind
  say (codes "    }")

-- The loop over the values from the index `i` on. Behind the first, the buffer is zeros, ten of them
-- more than the longest data has.
unfoldable pub say_entries : ℕ → ℕ → List Entry → List ℕ → Printer
unfolding ◌>>◌ say_entry
say_entries i count [] behind = say []
say_entries i count (e ∷ es) behind = do
  say_entry e behind
  say ((if ltb (suc i) count then codes "," else []) ++ codes "\n")
  say_entries (suc i) count es (replicate 10 0)

-- The part for the values.
unfoldable pub say_values : Info → Printer
unfolding ◌>>◌ say_entries
say_values info =
    if ltb 0 info.value_count
    then (do
      say (codes "  \"Values\": [\n")
      say_entries 0 info.value_count info.entries info.behind
      say (codes "  ]\n"))
    else say []
