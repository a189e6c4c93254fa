-- ===== src/Client/Registry/Data.antt =====
-- The data of a value as JSON: `EnumerateKey` of InfoDumping/InfoDumping.cpp.
use project.Prelude.{
  ℕ, suc, ◌+◌, ◌/◌, ◌%◌, ◌≤◌, ◌<◌, ◌≡◌, refl, Bool, true, false, List, [], ◌∷◌, ◌++◌, append_assoc,
  length, take, All, codes, le_value, ltb, arith, subst,
}
use project.Client.Registry.Strings.{
  multi, texts, units-unit_bytes, multi_fits, multi_lt, say_strings-Emits,
}
use project.Json.{
  array, no_items, empty_array, brackets, blank_items, trails_items, Json, text, number, Items,
  no_members, member, is_blank, IsPlain, Reads, blank, trail, quoted, digits, value_from,
  ReadsItems, ReadsMembers, blank_before, last_member, next_member, blanks_before, IsBlank,
  unescaped, unescaped→IsPlain,
}
use project.Client.Registry.{
  Printer, say, ◌>>◌, unit_bytes, nonzero, digit, hex_bytes, say_hex, numeral,
}
use project.Client.Registry.Numeral.{IsDecimal, numeral-IsDecimal}
use project.Client.Registry.Prints.{Prints, between-Prints, Emits}
use project.Client.Registry.Value.{be_value, units, say_strings, say_data, say_number, data_key}
use project.Client.Registry.Shows.{
  ShowsData, shows_string, shows_binary, shows_resource, shows_number, shows_big_number,
  shows_no_strings, shows_strings,
}

digit-IsPlain : (d : ℕ) → d < 16 → IsPlain (digit d)
unfolding digit
digit-IsPlain d lt = (ground arith, (λ e. ground arith), (λ e. ground arith))

hex_bytes-IsPlain : (bs : List ℕ) → All (λ c. c < 256) bs → All IsPlain (hex_bytes bs)
unfolding hex_bytes
hex_bytes-IsPlain [] h = tt
hex_bytes-IsPlain (b ∷ bs) (lt, h) = (
  digit-IsPlain (b / 16) (omega arith),
  (digit-IsPlain (b % 16) (omega arith), hex_bytes-IsPlain bs h),
)

abbrev pub ReadsType : List ℕ → Json → List ℕ → List ℕ → Type 0
ReadsType label j input rest =
    ReadsMembers (member (codes "Type") (text label) (member (codes "Data") j no_members))
      (codes "\"Type\": " ++ input) rest

type_data_at :
    {j : Json} {input rest : List ℕ} (gap label : List ℕ)
    → IsBlank gap
    → unescaped label ≡ true
    → Reads j input (10 ∷ rest)
    → ReadsType label j
        (34 ∷ (label ++ (codes "\",\n" ++ (gap ++ (codes "\"Data\": " ++ input)))))
        rest
unfolding is_blank unescaped
type_data_at gap label b plain r =
    next_member (codes "Type") (unescaped→IsPlain (codes "Type") refl)
      (blank 32 refl (quoted label (unescaped→IsPlain label plain)))
      (blank_before 10 refl (
        blanks_before gap b (
          last_member (codes "Data") (unescaped→IsPlain (codes "Data") refl)
            (blank 32 refl (trail 10 refl r)))))

type_data :
    {j : Json} {input rest : List ℕ} (label : List ℕ)
    → unescaped label ≡ true
    → Reads j input (10 ∷ rest)
    → ReadsType label j (34 ∷ (label ++ (codes "\",\n" ++ (data_key ++ input)))) rest
unfolding is_blank
type_data label plain r =
    type_data_at (codes "      ") label (refl, (refl, (refl, (refl, (refl, (refl, tt)))))) plain r

hex_data :
    (label bytes : List ℕ) (rest : List ℕ)
    → unescaped label ≡ true
    → All (λ c. c < 256) bytes
    → ReadsType label
        (text (hex_bytes bytes))
        (34
          ∷ (label
              ++ (codes "\",\n" ++ (data_key ++ 34 ∷ ((hex_bytes bytes ++ codes "\"\n") ++ rest)))))
        rest
hex_data label bytes rest plain h =
    rw (append_assoc (hex_bytes bytes) (codes "\"\n") rest)
      (type_data label plain (quoted (hex_bytes bytes) (hex_bytes-IsPlain bytes h)))

decimal-Reads : (n : ℕ) (t rest : List ℕ) → IsDecimal n [] t → Reads (number n) (t ++ rest) rest
unfolding value_from
decimal-Reads n t rest h = rw h.split (
    subst (λ m. Reads (number m) ((h.first ∷ h.others) ++ rest) rest) h.value
      (digits h.first h.others h.digits h.numeral))

number_data :
    (gap label : List ℕ) (n : ℕ) (t rest : List ℕ)
    → IsBlank gap
    → unescaped label ≡ true
    → IsDecimal n [] t
    → ReadsType label
        (number n)
        (34
          ∷ (label ++ (codes "\",\n" ++ (gap ++ (codes "\"Data\": " ++ ((t ++ 10 ∷ []) ++ rest))))))
        rest
number_data gap label n t rest b plain h =
    rw (append_assoc t (10 ∷ []) rest)
      (type_data_at gap label b plain (decimal-Reads n t (10 ∷ rest) h))

say_number-Prints :
    (value : List ℕ → ℕ) (bytes : List ℕ)
    → 4 ≤ length bytes
    → Prints (say_number value bytes) false (numeral false (value (take 4 bytes))) false
unfolding say_number
say_number-Prints value bytes four =
    let enough : ltb (length bytes) 4 ≡ false = ground arith in
    record { result = rw (enough, say_number) refl }

number-Emits :
    (gap label : List ℕ) (value : List ℕ → ℕ) (bytes : List ℕ)
    → IsBlank gap
    → unescaped label ≡ true
    → 4 ≤ length bytes
    → Emits
        (say (34 ∷ (label ++ (codes "\",\n" ++ (gap ++ codes "\"Data\": "))))
          >> (say_number value bytes >> say (codes "\n")))
        false
        false
        (ReadsType label (number (value (take 4 bytes))))
number-Emits gap label value bytes b plain four =
    let n : ℕ = value (take 4 bytes) in
    let front : List ℕ = 34 ∷ (label ++ (codes "\",\n" ++ (gap ++ codes "\"Data\": "))) in
    record {
      out = front ++ (numeral false n ++ codes "\n");
      prints = between-Prints front (codes "\n") (say_number-Prints value bytes four);
      read = λ rest.
          let same : (front ++ (numeral false n ++ codes "\n")) ++ rest
              ≡ 34
                ∷ (label
                    ++ (codes "\",\n"
                        ++ (gap
                            ++ (codes "\"Data\": "
                                ++ ((numeral false n ++ codes "\n") ++ rest))))) =
            simp append_assoc in
          rw same (number_data gap label n (numeral false n) rest b plain (numeral-IsDecimal n));
    }

abbrev strings_front : List ℕ
strings_front = codes "\"REG_MULTI_SZ\",\n" ++ (data_key ++ codes "[\n")

abbrev strings_end : List ℕ
strings_end = codes "\n      ]\n"

no_strings-Emits :
    (n : ℕ) (us : List ℕ) (a : Bool)
    → Emits
        (say strings_front >> (say_strings (suc n) (0 ∷ us) >> say strings_end))
        a
        a
        (ReadsType (codes "REG_MULTI_SZ") (array no_items))
unfolding say_strings is_blank unescaped
no_strings-Emits n us a = record {
  out = strings_front ++ ([] ++ strings_end);
  prints =
      let none_printed : Prints (say_strings (suc n) (0 ∷ us)) a [] a = record { result = refl } in
      between-Prints strings_front strings_end none_printed;
  read = λ rest. type_data (codes "REG_MULTI_SZ") refl (
      empty_array (codes "\n\n      ")
        (refl, (refl, (refl, (refl, (refl, (refl, (refl, (refl, tt)))))))));
}

strings-Emits :
    (m : Printer) (a : Bool) (items : Items)
    → Emits m a a (ReadsItems items)
    → Emits
        (say strings_front >> (m >> say strings_end))
        a
        a
        (ReadsType (codes "REG_MULTI_SZ") (array items))
unfolding is_blank unescaped
strings-Emits m a items d = record {
  out = strings_front ++ (d.out ++ strings_end);
  prints = between-Prints strings_front strings_end d.prints;
  read = λ rest. rw (append_assoc d.out strings_end rest) (
      type_data (codes "REG_MULTI_SZ") refl (
        brackets (
          blank_items 10 refl (
            trails_items (codes "\n      ")
              (refl, (refl, (refl, (refl, (refl, (refl, (refl, tt)))))))
              (d.read (strings_end ++ rest))))));
}

pub data-Emits :
    {kind : ℕ} {bytes label : List ℕ} {a b : Bool} {j : Json} (behind : List ℕ)
    → ShowsData kind bytes a label j b
    → Emits (say_data kind bytes behind) a b (ReadsType label j)
unfolding say_data say_hex ◌>>◌ unescaped is_blank
data-Emits behind (shows_string bytes a h) = record {
  out = codes "\"REG_SZ\",\n" ++ (data_key ++ (codes "\"" ++ (nonzero bytes ++ codes "\"\n")));
  prints = record { result = refl };
  read = λ rest.
      rw (append_assoc (nonzero bytes) (codes "\"\n") rest)
        (type_data (codes "REG_SZ") refl (quoted (nonzero bytes) h));
}
data-Emits behind (shows_binary b bytes a h) = record {
  out =
      codes "\"REG_BINARY\",\n"
      ++ (data_key ++ (codes "\"" ++ (hex_bytes (b ∷ bytes) ++ codes "\"\n")));
  prints = record { result = refl };
  read = λ rest. hex_data (codes "REG_BINARY") (b ∷ bytes) rest refl h;
}
data-Emits behind (shows_resource b bytes a h) = record {
  out =
      codes "\"REG_FULL_RESOURCE_DESCRIPTOR\",\n"
      ++ (data_key ++ (codes "\"" ++ (hex_bytes (b ∷ bytes) ++ codes "\"\n")));
  prints = record { result = refl };
  read = λ rest. hex_data (codes "REG_FULL_RESOURCE_DESCRIPTOR") (b ∷ bytes) rest refl h;
}
data-Emits behind (shows_number bytes four) =
    number-Emits (codes "      ") (codes "REG_DWORD") le_value bytes
      (refl, (refl, (refl, (refl, (refl, (refl, tt)))))) refl four
data-Emits behind (shows_big_number bytes four) =
    number-Emits (codes "  ") (codes "REG_DWORD_BIG_ENDIAN") be_value bytes (refl, (refl, tt)) refl
      four
data-Emits behind (shows_no_strings a) = no_strings-Emits (suc (length behind)) (units behind) a
data-Emits behind (shows_strings s ss a h) =
    let bytes : List ℕ = unit_bytes (multi (s ∷ ss)) in
    let n : ℕ = length (bytes ++ behind) in
    let same : units (bytes ++ behind) ≡ multi (s ∷ ss) ++ units behind =
      units-unit_bytes (multi (s ∷ ss)) behind (multi_fits (s ∷ ss) h) in
    let enough : length (s ∷ []) + length ss < n =
      let lt = multi_lt (s ∷ ss) behind in omega arith in
    strings-Emits (say_strings n (units (bytes ++ behind))) a (texts (s ∷ ss))
      (rw same (say_strings-Emits n a s ss (units behind) enough h))
