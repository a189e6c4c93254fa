-- ===== src/Client/Registry/Shows.antt =====
-- What the dump of a key is to say, for keys whose dump is JSON. A base is the number base of the
-- stream before and behind.
use project.Prelude.{
  ℕ, suc, ◌≤◌, ◌<◌, ◌≡◌, Bool, true, false, List, [], ◌∷◌, length, take, All, codes, le_value,
}
use project.Json.{
  Json, text, number, array, object, Items, no_items, item, no_members, member, IsPlain,
}
use project.Client.Registry.Value.{be_value}
use project.Client.Registry.Strings.{multi, texts, IsString}
use project.Client.Registry.{
  unit_bytes, Entry, Info, Key, opened, Keys, no_keys, subkey, nonzero, print_wide, hex_bytes,
}

-- The kind, the data, the base before, the name of the type, the value, the base behind.
pub data ShowsData : ℕ → List ℕ → Bool → List ℕ → Json → Bool → Type 0 where
  shows_string :
      (bytes : List ℕ) (a : Bool)
      → All IsPlain (nonzero bytes)
      → ShowsData 1 bytes a (codes "REG_SZ") (text (nonzero bytes)) a
  shows_binary :
      (b : ℕ) (bytes : List ℕ) (a : Bool)
      → All (λ c. c < 256) (b ∷ bytes)
      → ShowsData 3 (b ∷ bytes) a (codes "REG_BINARY") (text (hex_bytes (b ∷ bytes))) true
  shows_resource :
      (b : ℕ) (bytes : List ℕ) (a : Bool)
      → All (λ c. c < 256) (b ∷ bytes)
      → ShowsData 9
          (b ∷ bytes)
          a
          (codes "REG_FULL_RESOURCE_DESCRIPTOR")
          (text (hex_bytes (b ∷ bytes)))
          true
  -- The numbers in base 10 only.
  shows_number :
      (bytes : List ℕ)
      → 4 ≤ length bytes
      → ShowsData 4 bytes false (codes "REG_DWORD") (number (le_value (take 4 bytes))) false
  shows_big_number :
      (bytes : List ℕ)
      → 4 ≤ length bytes
      → ShowsData 5 bytes false
          (codes "REG_DWORD_BIG_ENDIAN")
          (number (be_value (take 4 bytes)))
          false
  -- The data of a REG_MULTI_SZ with no string is the last 0 alone.
  shows_no_strings :
      (a : Bool) → ShowsData 7 (unit_bytes (multi [])) a (codes "REG_MULTI_SZ") (array no_items) a
  shows_strings :
      (s : List ℕ) (ss : List (List ℕ)) (a : Bool)
      → All IsString (s ∷ ss)
      → ShowsData 7
          (unit_bytes (multi (s ∷ ss)))
          a
          (codes "REG_MULTI_SZ")
          (array (texts (s ∷ ss)))
          a

abbrev pub entry_name : List ℕ → List ℕ
entry_name [] = codes "(Default)"
entry_name (u ∷ us) = print_wide (u ∷ us)

abbrev pub entry_value : List ℕ → List ℕ → Json → Json
entry_value name label j = object (
    member (codes "Name") (text (entry_name name))
      (member (codes "Type") (text label) (member (codes "Data") j no_members)))

-- One value or more.
pub data ShowsEntries : List Entry → Bool → Items → Bool → Type 0 where
  shows_last :
      (e : Entry) {a b : Bool} {label : List ℕ} {j : Json}
      → All IsPlain (entry_name e.name)
      → ShowsData e.kind e.data_bytes a label j b
      → ShowsEntries (e ∷ []) a (item (entry_value e.name label j) no_items) b
  shows_next :
      (e : Entry) {next : Entry} {es : List Entry} {a b c : Bool} {label : List ℕ} {j : Json}
      {items : Items}
      → All IsPlain (entry_name e.name)
      → ShowsData e.kind e.data_bytes a label j b
      → ShowsEntries (next ∷ es) b items c
      → ShowsEntries (e ∷ next ∷ es) a (item (entry_value e.name label j) items) c

abbrev pub count : Keys → ℕ
count no_keys = 0
count (subkey name key keys) = suc (count keys)

mutual
  -- A key that opens, with the numbers of subkeys and values that the queries give for it, and with a
  -- value at least.
  pub data Shows : List ℕ → Key → Bool → Json → Bool → Type 0 where
    shows_leaf :
        {a b : Bool} {items : Items} (name : List ℕ) (info : Info) (keys : Keys)
        → All IsPlain (print_wide name)
        → info.subkey_count ≡ 0
        → info.value_count ≡ length info.entries
        → ShowsEntries info.entries a items b
        → Shows name
            (opened info keys)
            a
            (object (
              member
                (codes "Key")
                (text (print_wide name))
                (member (codes "Values") (array items) no_members)))
            b
    shows_tree :
        {a b c : Bool} {items subkeys : Items} (name : List ℕ) (info : Info) (keys : Keys)
        → All IsPlain (print_wide name)
        → info.subkey_count ≡ count keys
        → info.value_count ≡ length info.entries
        → ShowsKeys keys a subkeys b
        → ShowsEntries info.entries b items c
        → Shows name
            (opened info keys)
            a
            (object (
              member (codes "Key") (text (print_wide name)) (
                member
                  (codes "Subkeys")
                  (array subkeys)
                  (member (codes "Values") (array items) no_members))))
            c

  -- One subkey or more, which all open.
  pub data ShowsKeys : Keys → Bool → Items → Bool → Type 0 where
    shows_last_key :
        {key : Key} {a b : Bool} {j : Json} (name : List ℕ)
        → Shows name key a j b
        → ShowsKeys (subkey name key no_keys) a (item j no_items) b
    shows_next_key :
        {key next : Key} {next_name : List ℕ} {keys : Keys} {a b c : Bool} {j : Json}
        {items : Items} (name : List ℕ)
        → Shows name key a j b
        → ShowsKeys (subkey next_name next keys) b items c
        → ShowsKeys (subkey name key (subkey next_name next keys)) a (item j items) c
