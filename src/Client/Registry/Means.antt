-- ===== src/Client/Registry/Means.antt =====
-- What the bytes of names and of data mean: the texts and the numbers that the dump of a key is to have,
-- by relations that do without the functions of InfoDumping/InfoDumping.cpp.
use project.Prelude.{
  ℕ, ◌+◌, ◌*◌, ◌/◌, ◌%◌, ◌<◌, ◌≡◌, ◌≢◌, refl, ap, ◌∙◌, true, false, List, [], ◌∷◌, ◌++◌, All, ◌==◌,
  ltb, le_value, arith, take,
}
use project.Client.Registry.{nonzero, unit_bytes, print_wide, digit, hex_bytes}
use project.Client.Registry.Value.{be_value}

-- The bytes that are not 0.
pub data WithoutZeros : List ℕ → List ℕ → Type 0 where
  all_seen : WithoutZeros [] []
  leaves_out : {bytes t : List ℕ} → WithoutZeros bytes t → WithoutZeros (0 ∷ bytes) t
  keeps :
      {bytes t : List ℕ} (b : ℕ) → b ≢ 0 → WithoutZeros bytes t → WithoutZeros (b ∷ bytes) (b ∷ t)

-- 16-bit units, and their bytes, the low one first.
pub data LittleEndian : List ℕ → List ℕ → Type 0 where
  no_units : LittleEndian [] []
  unit :
      {units bytes : List ℕ} (low high : ℕ)
      → low < 256
      → high < 256
      → LittleEndian units bytes
      → LittleEndian ((low + 256 * high) ∷ units) (low ∷ high ∷ bytes)

-- The text of units: their bytes without the zeros.
pub record Spells (units t : List ℕ) : Type 0 where
  pub bytes : List ℕ
  pub halves : LittleEndian units bytes
  pub visible : WithoutZeros bytes t

-- The digits 0 to 9 and a to f.
pub data HexDigit : ℕ → ℕ → Type 0 where
  decimal : (d : ℕ) → d < 10 → HexDigit d (48 + d)
  a_to_f : (k : ℕ) → k < 6 → HexDigit (10 + k) (97 + k)

-- Two digits for each byte, the high one first.
pub data HexText : List ℕ → List ℕ → Type 0 where
  no_bytes : HexText [] []
  byte :
      {bytes t : List ℕ} {c d : ℕ} (high low : ℕ)
      → HexDigit high c
      → HexDigit low d
      → HexText bytes t
      → HexText ((16 * high + low) ∷ bytes) (c ∷ d ∷ t)

pub nonzero-WithoutZeros : {bytes t : List ℕ} → WithoutZeros bytes t → nonzero bytes ≡ t
unfolding nonzero
nonzero-WithoutZeros all_seen = refl
nonzero-WithoutZeros (leaves_out w) = nonzero-WithoutZeros w
nonzero-WithoutZeros (keeps {bytes} {t} b other w) =
    let differs : (b == 0) ≡ false = ground arith in
    rw (differs, nonzero) (ap (λ r. b ∷ r) (nonzero-WithoutZeros w))

pub unit_bytes-LittleEndian : {us bytes : List ℕ} → LittleEndian us bytes → unit_bytes us ≡ bytes
unfolding unit_bytes
unit_bytes-LittleEndian no_units = refl
unit_bytes-LittleEndian (unit {units} {bytes} low high l h le) =
    let first : (low + 256 * high) % 256 ≡ low = omega arith in
    let second : (low + 256 * high) / 256 % 256 ≡ high = omega arith in
    rw (first, second, unit_bytes) (ap (λ r. low ∷ high ∷ r) (unit_bytes-LittleEndian le))

pub Spells-nonzero : {us t : List ℕ} → Spells us t → nonzero (unit_bytes us) ≡ t
Spells-nonzero s = ap nonzero (unit_bytes-LittleEndian s.halves) ∙ nonzero-WithoutZeros s.visible

LittleEndian-ended :
    {us bytes : List ℕ} → LittleEndian us bytes → LittleEndian (us ++ 0 ∷ []) (bytes ++ 0 ∷ 0 ∷ [])
LittleEndian-ended no_units = unit 0 0 (omega arith) (omega arith) no_units
LittleEndian-ended (unit low high l h le) = unit low high l h (LittleEndian-ended le)

WithoutZeros-ended :
    {bytes t : List ℕ} → WithoutZeros bytes t → WithoutZeros (bytes ++ 0 ∷ 0 ∷ []) t
WithoutZeros-ended all_seen = leaves_out (leaves_out all_seen)
WithoutZeros-ended (leaves_out w) = leaves_out (WithoutZeros-ended w)
WithoutZeros-ended (keeps b other w) = keeps b other (WithoutZeros-ended w)

pub print_wide-Spells : {us t : List ℕ} → Spells us t → print_wide us ≡ t
unfolding print_wide
print_wide-Spells s = Spells-nonzero (record {
  bytes = s.bytes ++ 0 ∷ 0 ∷ [];
  halves = LittleEndian-ended s.halves;
  visible = WithoutZeros-ended s.visible;
})

digit-HexDigit : {d c : ℕ} → HexDigit d c → (d < 16) × (digit d ≡ c)
unfolding digit
digit-HexDigit (decimal d lt) =
    let low : ltb d 10 ≡ true = ground arith in (omega arith, rw (low, digit) refl)
digit-HexDigit (a_to_f k lt) =
    let high : ltb (10 + k) 10 ≡ false = ground arith in
    (omega arith, rw (high, digit) (omega arith))

pub hex_bytes-HexText :
    {bytes t : List ℕ} → HexText bytes t → All (λ c. c < 256) bytes × (hex_bytes bytes ≡ t)
unfolding hex_bytes
hex_bytes-HexText no_bytes = (tt, refl)
hex_bytes-HexText (byte {bytes} {t} {c} {d} high low h l more) =
    let (hl, he) = digit-HexDigit h in
    let (ll, le) = digit-HexDigit l in
    let rest = hex_bytes-HexText more in
    let first : (16 * high + low) / 16 ≡ high = omega arith in
    let second : (16 * high + low) % 16 ≡ low = omega arith in
    ((omega arith, rest.0), rw (first, second, hex_bytes) (rw (he, le, rest.1) refl))

pub le_value_lem :
    (a b c d : ℕ) (rest : List ℕ)
    → le_value (take 4 (a ∷ b ∷ c ∷ d ∷ rest)) ≡ a + 256 * b + 65536 * c + 16777216 * d
unfolding le_value take
le_value_lem a b c d rest = omega arith

pub be_value_lem :
    (a b c d : ℕ) (rest : List ℕ)
    → be_value (take 4 (a ∷ b ∷ c ∷ d ∷ rest)) ≡ 16777216 * a + 65536 * b + 256 * c + d
unfolding be_value take
be_value_lem a b c d rest = omega arith
