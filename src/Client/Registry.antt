-- ===== src/Client/Registry.antt =====
-- `EnumerateKey` of InfoDumping/InfoDumping.cpp, on a registry as the Windows calls answer about it.
-- A printer stands for what the function inserts into the stream: it takes and gives the stream's
-- number base (`true` after `std::hex`, which stays), and is `none` where a buffer is read past its
-- end.
pub mod Numeral
pub mod Value
pub mod Prints
pub mod Shows
pub mod Strings
pub mod Means
pub mod Says
pub mod Data
pub mod Denotes
pub mod Frame
pub mod Tree
pub mod Enumerate
pub mod Dump
pub mod Hives
use project.Prelude.{
  ℕ, zero, suc, ◌+◌, ◌*◌, ◌/◌, ◌%◌, Bool, true, false, not, ◌||◌, Option, none, some, List, [], ◌∷◌,
  ◌++◌, length, take, replicate, codes, ltb, ◌==◌, le_value, if◌then◌else◌,
}

abbrev pub Printer : Type 0
Printer = Bool → Option (List ℕ × Bool)

abbrev pub say : List ℕ → Printer
say t hex = some (t, hex)

infixl 5 ◌>>◌
unfoldable pub ◌>>◌ : Printer → Printer → Printer
◌>>◌ m k hex = elim (m hex) [
  | none ↦ none
  | some (t, hex') ↦ elim (k hex') [ none ↦ none | some (u, last) ↦ some (t ++ u, last) ]
]

-- A value as `RegEnumValue` gives it: the units of its name, its type, and the bytes of its data.
pub record Entry : Type 0 where
  pub name : List ℕ
  pub kind : ℕ
  pub data_bytes : List ℕ

-- What `RegQueryInfoKey` and `RegEnumValue` answer about an open key; `behind` are the bytes that
-- stand in the new buffer behind the data of the first value.
pub record Info : Type 0 where
  pub subkey_count : ℕ
  pub value_count : ℕ
  pub entries : List Entry
  pub behind : List ℕ

mutual
  pub data Key : Type 0 where
    -- `RegOpenKeyEx` fails
    closed : Key
    opened : Info → Keys → Key

  -- The keys that `RegEnumKey` lists, with their names.
  pub data Keys : Type 0 where
    no_keys : Keys
    subkey : List ℕ → Key → Keys → Keys

-- The bytes of a row that are not 0.
unfoldable pub nonzero : List ℕ → List ℕ
nonzero [] = []
nonzero (b ∷ bs) = let rest = nonzero bs in if b == 0 then rest else b ∷ rest

-- The bytes of 16-bit units.
unfoldable pub unit_bytes : List ℕ → List ℕ
unit_bytes [] = []
unit_bytes (u ∷ us) = (u % 256) ∷ (u / 256 % 256) ∷ unit_bytes us

-- A name, byte by byte, with the 0 behind it.
unfoldable pub print_wide : List ℕ → List ℕ
unfolding nonzero unit_bytes
print_wide units = nonzero (unit_bytes (units ++ 0 ∷ []))

-- A digit of base 10 or 16.
unfoldable pub digit : ℕ → ℕ
digit d = if ltb d 10 then 48 + d else 87 + d

-- An unsigned number in the stream's base, in front of the digits that are there; the count bounds
-- the digits.
unfoldable pub digits_from : ℕ → Bool → ℕ → List ℕ → List ℕ
unfolding digit
digits_from zero hex n acc = acc
digits_from (suc count) hex n acc =
    let low = if hex then n % 16 else n % 10 in
    let high = if hex then n / 16 else n / 10 in
    elim (high == 0) [
      | true ↦ digit low ∷ acc
      | false ↦ digits_from count hex high (digit low ∷ acc)
    ]

unfoldable pub numeral : Bool → ℕ → List ℕ
unfolding digits_from
numeral hex n = digits_from (suc n) hex n []

-- `std::setw(2) << std::setfill('0') << (int)byte`
unfoldable pub hex_bytes : List ℕ → List ℕ
unfolding digit
hex_bytes [] = []
hex_bytes (b ∷ bs) = digit (b / 16) ∷ digit (b % 16) ∷ hex_bytes bs

-- The loop that prints bytes in base 16: the base is set in its body.
unfoldable pub say_hex : List ℕ → Printer
unfolding hex_bytes
say_hex [] hex = some ([], hex)
say_hex (b ∷ bs) hex = some (hex_bytes (b ∷ bs), true)
