-- ===== src/Client/Registry/Says.antt =====
-- What the dump of a key is to say, for keys whose dump is JSON, without the functions of
-- `EnumerateKey` of InfoDumping/InfoDumping.cpp. A base is the number base of the stream before and
-- behind: `true` is 16.
pub mod Agree
use project.Prelude.{
  ℕ, ◌+◌, ◌*◌, ◌<◌, ◌≡◌, ◌≢◌, Bool, true, false, List, [], ◌∷◌, ◌++◌, length, All, codes,
}
use project.Json.{
  Json, text, number, array, object, Items, no_items, item, no_members, member, IsPlain,
}
use project.Client.Registry.{Entry, Info, Key, opened, Keys, no_keys, subkey}
use project.Client.Registry.Shows.{count}
use project.Client.Registry.Means.{WithoutZeros, LittleEndian, Spells, HexText}

-- The units of a REG_MULTI_SZ, and its strings: each has a unit at least, none of which is 0, and a 0
-- behind it, and another 0 stands behind the last.
pub data SaysStrings : List ℕ → Items → Type 0 where
  last_zero : SaysStrings (0 ∷ []) no_items
  string :
      {us t : List ℕ} {items : Items} (s : List ℕ)
      → s ≢ []
      → All (λ u. (u ≢ 0) × (u < 65536)) s
      → Spells s t
      → All IsPlain t
      → SaysStrings us items
      → SaysStrings (s ++ 0 ∷ us) (item (text t) items)

-- The kind, the data, the base before, the name of the type, the value, the base behind.
pub data SaysData : ℕ → List ℕ → Bool → List ℕ → Json → Bool → Type 0 where
  says_string :
      {bytes t : List ℕ} (a : Bool)
      → WithoutZeros bytes t
      → All IsPlain t
      → SaysData 1 bytes a (codes "REG_SZ") (text t) a
  says_binary :
      {t : List ℕ} (b : ℕ) (bytes : List ℕ) (a : Bool)
      → HexText (b ∷ bytes) t
      → SaysData 3 (b ∷ bytes) a (codes "REG_BINARY") (text t) true
  says_resource :
      {t : List ℕ} (b : ℕ) (bytes : List ℕ) (a : Bool)
      → HexText (b ∷ bytes) t
      → SaysData 9 (b ∷ bytes) a (codes "REG_FULL_RESOURCE_DESCRIPTOR") (text t) true
  -- The numbers in base 10 only.
  says_number :
      (a b c d : ℕ) (rest : List ℕ)
      → SaysData 4
          (a ∷ b ∷ c ∷ d ∷ rest)
          false
          (codes "REG_DWORD")
          (number (a + 256 * b + 65536 * c + 16777216 * d))
          false
  says_big_number :
      (a b c d : ℕ) (rest : List ℕ)
      → SaysData 5
          (a ∷ b ∷ c ∷ d ∷ rest)
          false
          (codes "REG_DWORD_BIG_ENDIAN")
          (number (16777216 * a + 65536 * b + 256 * c + d))
          false
  says_strings :
      {us bytes : List ℕ} {items : Items} (a : Bool)
      → LittleEndian us bytes
      → SaysStrings us items
      → SaysData 7 bytes a (codes "REG_MULTI_SZ") (array items) a

-- The name of a value, as it is to be printed.
pub data SaysName : List ℕ → List ℕ → Type 0 where
  default_name : SaysName [] (codes "(Default)")
  own_name : {t : List ℕ} (u : ℕ) (us : List ℕ) → Spells (u ∷ us) t → SaysName (u ∷ us) t

abbrev pub value_json : List ℕ → List ℕ → Json → Json
value_json name label j = object (
    member (codes "Name") (text name)
      (member (codes "Type") (text label) (member (codes "Data") j no_members)))

-- One value or more.
pub data SaysEntries : List Entry → Bool → Items → Bool → Type 0 where
  says_last :
      (e : Entry) {a b : Bool} {name label : List ℕ} {j : Json}
      → SaysName e.name name
      → All IsPlain name
      → SaysData e.kind e.data_bytes a label j b
      → SaysEntries (e ∷ []) a (item (value_json name label j) no_items) b
  says_next :
      (e : Entry) {next : Entry} {es : List Entry} {a b c : Bool} {name label : List ℕ} {j : Json}
      {items : Items}
      → SaysName e.name name
      → All IsPlain name
      → SaysData e.kind e.data_bytes a label j b
      → SaysEntries (next ∷ es) b items c
      → SaysEntries (e ∷ next ∷ es) a (item (value_json name label j) items) c

mutual
  -- A key that opens, with the numbers of subkeys and values that the queries give for it, and with a
  -- value at least.
  pub data Says : List ℕ → Key → Bool → Json → Bool → Type 0 where
    says_leaf :
        {a b : Bool} {items : Items} {t : List ℕ} (name : List ℕ) (info : Info) (keys : Keys)
        → Spells name t
        → All IsPlain t
        → info.subkey_count ≡ 0
        → info.value_count ≡ length info.entries
        → SaysEntries info.entries a items b
        → Says name
            (opened info keys)
            a
            (object
              (member (codes "Key") (text t) (member (codes "Values") (array items) no_members)))
            b
    says_tree :
        {a b c : Bool} {items subkeys : Items} {t : List ℕ} (name : List ℕ) (info : Info)
        (keys : Keys)
        → Spells name t
        → All IsPlain t
        → info.subkey_count ≡ count keys
        → info.value_count ≡ length info.entries
        → SaysKeys keys a subkeys b
        → SaysEntries info.entries b items c
        → Says name
            (opened info keys)
            a
            (object (
              member (codes "Key") (text t) (
                member
                  (codes "Subkeys")
                  (array subkeys)
                  (member (codes "Values") (array items) no_members))))
            c

  -- One subkey or more, which all open.
  pub data SaysKeys : Keys → Bool → Items → Bool → Type 0 where
    says_last_key :
        {key : Key} {a b : Bool} {j : Json} (name : List ℕ)
        → Says name key a j b
        → SaysKeys (subkey name key no_keys) a (item j no_items) b
    says_next_key :
        {key next : Key} {next_name : List ℕ} {keys : Keys} {a b c : Bool} {j : Json}
        {items : Items} (name : List ℕ)
        → Says name key a j b
        → SaysKeys (subkey next_name next keys) b items c
        → SaysKeys (subkey name key (subkey next_name next keys)) a (item j items) c
