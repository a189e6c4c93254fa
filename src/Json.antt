-- ===== src/Json.antt =====
-- A part of the grammar of JSON, as a relation between a value and a text: what the dumps of
-- InfoDumping/InfoDumping.cpp are compared with. No code.
use project.Prelude.{
  ℕ, ◌+◌, ◌-◌, ◌*◌, ◌≤◌, ◌<◌, ◌≡◌, ◌≢◌, Bool, true, not, ltb, ◌&&◌, ◌||◌, ◌==◌, List, [], ◌∷◌, ◌++◌,
  All, arith,
}

mutual
  pub data Json : Type 0 where
    text : List ℕ → Json
    number : ℕ → Json
    array : Items → Json
    object : Members → Json

  pub data Items : Type 0 where
    no_items : Items
    item : Json → Items → Items

  pub data Members : Type 0 where
    no_members : Members
    member : List ℕ → Json → Members → Members

unfoldable pub is_blank : ℕ → Bool
is_blank c = (c == 32 || c == 10) || (c == 9 || c == 13)

-- A character that stands for itself between quotes: no control character, quote or backslash.
abbrev pub IsPlain : ℕ → Type 0
IsPlain c = (32 ≤ c) × (c ≢ 34) × (c ≢ 92)

abbrev pub IsDigit : ℕ → Type 0
IsDigit c = (48 ≤ c) × (c ≤ 57)

-- No zero in front of other digits.
abbrev pub IsNumeral : ℕ → List ℕ → Type 0
IsNumeral d [] = Unit
IsNumeral d (e ∷ ds) = d ≢ 48

-- The value of a row of digits behind others of the value `n`.
unfoldable pub value_from : ℕ → List ℕ → ℕ
value_from n [] = n
value_from n (c ∷ cs) = value_from (10 * n + (c - 48)) cs

-- `Reads j input rest`: the text for `j` stands in front of `rest` in `input`.
mutual
  pub data Reads : Json → List ℕ → List ℕ → Type 0 where
    blank :
        {j : Json} {input rest : List ℕ} (c : ℕ)
        → is_blank c ≡ true
        → Reads j input rest
        → Reads j (c ∷ input) rest
    trail :
        {j : Json} {input rest : List ℕ} (c : ℕ)
        → is_blank c ≡ true
        → Reads j input (c ∷ rest)
        → Reads j input rest
    quoted :
        (s : List ℕ) {rest : List ℕ} → All IsPlain s → Reads (text s) (34 ∷ (s ++ 34 ∷ rest)) rest
    digits :
        (d : ℕ) (ds : List ℕ) {rest : List ℕ}
        → All IsDigit (d ∷ ds)
        → IsNumeral d ds
        → Reads (number (value_from 0 (d ∷ ds))) ((d ∷ ds) ++ rest) rest
    empty_array :
        (w : List ℕ) {rest : List ℕ}
        → All (λ c. is_blank c ≡ true) w
        → Reads (array no_items) (91 ∷ (w ++ 93 ∷ rest)) rest
    brackets :
        {items : Items} {input rest : List ℕ}
        → ReadsItems items input (93 ∷ rest)
        → Reads (array items) (91 ∷ input) rest
    braces :
        {members : Members} {input rest : List ℕ}
        → ReadsMembers members input (125 ∷ rest)
        → Reads (object members) (123 ∷ input) rest

  -- One item or more, with commas between them.
  pub data ReadsItems : Items → List ℕ → List ℕ → Type 0 where
    last_item :
        {j : Json} {input rest : List ℕ}
        → Reads j input rest
        → ReadsItems (item j no_items) input rest
    next_item :
        {j : Json} {items : Items} {input more rest : List ℕ}
        → Reads j input (44 ∷ more)
        → ReadsItems items more rest
        → ReadsItems (item j items) input rest

  -- One member or more, with commas between them.
  pub data ReadsMembers : Members → List ℕ → List ℕ → Type 0 where
    blank_before :
        {members : Members} {input rest : List ℕ} (c : ℕ)
        → is_blank c ≡ true
        → ReadsMembers members input rest
        → ReadsMembers members (c ∷ input) rest
    last_member :
        {j : Json} {input rest : List ℕ} (key : List ℕ)
        → All IsPlain key
        → Reads j input rest
        → ReadsMembers (member key j no_members) (34 ∷ (key ++ 34 ∷ 58 ∷ input)) rest
    next_member :
        {j : Json} {members : Members} {input more rest : List ℕ} (key : List ℕ)
        → All IsPlain key
        → Reads j input (44 ∷ more)
        → ReadsMembers members more rest
        → ReadsMembers (member key j members) (34 ∷ (key ++ 34 ∷ 58 ∷ input)) rest

abbrev pub IsBlank : List ℕ → Type 0
IsBlank w = All (λ c. is_blank c ≡ true) w

pub blanks :
    {j : Json} {input rest : List ℕ} (w : List ℕ)
    → IsBlank w
    → Reads j input rest
    → Reads j (w ++ input) rest
blanks [] h r = r
blanks (c ∷ w) (b, h) r = blank c b (blanks w h r)

pub trails :
    {j : Json} {input rest : List ℕ} (w : List ℕ)
    → IsBlank w
    → Reads j input (w ++ rest)
    → Reads j input rest
trails [] h r = r
trails (c ∷ w) (b, h) r = trails w h (trail c b r)

pub blanks_before :
    {members : Members} {input rest : List ℕ} (w : List ℕ)
    → IsBlank w
    → ReadsMembers members input rest
    → ReadsMembers members (w ++ input) rest
blanks_before [] h r = r
blanks_before (c ∷ w) (b, h) r = blank_before c b (blanks_before w h r)

pub blank_items :
    {items : Items} {input rest : List ℕ} (c : ℕ)
    → is_blank c ≡ true
    → ReadsItems items input rest
    → ReadsItems items (c ∷ input) rest
blank_items c b (last_item r) = last_item (blank c b r)
blank_items c b (next_item r more) = next_item (blank c b r) more

-- `IsPlain` of every character, as a test: of the constant texts.
unfoldable pub unescaped : List ℕ → Bool
unescaped [] = true
unescaped (c ∷ cs) = (ltb 31 c && not (c == 34)) && (not (c == 92) && unescaped cs)

pub unescaped→IsPlain : (s : List ℕ) → unescaped s ≡ true → All IsPlain s
unfolding unescaped
unescaped→IsPlain [] h = tt
unescaped→IsPlain (c ∷ cs) h =
    let low : 31 < c = ground arith in
    let rest : unescaped cs ≡ true = ground arith in
    ((omega arith, (λ e. ground arith), (λ e. ground arith)), unescaped→IsPlain cs rest)

trail_members :
    {members : Members} {input rest : List ℕ} (c : ℕ)
    → is_blank c ≡ true
    → ReadsMembers members input (c ∷ rest)
    → ReadsMembers members input rest
trail_members c b (blank_before d e r) = blank_before d e (trail_members c b r)
trail_members c b (last_member key k r) = last_member key k (trail c b r)
trail_members c b (next_member key k r more) = next_member key k r (trail_members c b more)

pub trails_members :
    {members : Members} {input rest : List ℕ} (w : List ℕ)
    → IsBlank w
    → ReadsMembers members input (w ++ rest)
    → ReadsMembers members input rest
trails_members [] h r = r
trails_members (c ∷ w) (b, h) r = trails_members w h (trail_members c b r)

pub trail_items :
    {items : Items} {input rest : List ℕ} (c : ℕ)
    → is_blank c ≡ true
    → ReadsItems items input (c ∷ rest)
    → ReadsItems items input rest
trail_items c b (last_item r) = last_item (trail c b r)
trail_items c b (next_item r more) = next_item r (trail_items c b more)

pub trails_items :
    {items : Items} {input rest : List ℕ} (w : List ℕ)
    → IsBlank w
    → ReadsItems items input (w ++ rest)
    → ReadsItems items input rest
trails_items [] h r = r
trails_items (c ∷ w) (b, h) r = trails_items w h (trail_items c b r)
