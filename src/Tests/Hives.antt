-- ===== src/Tests/Hives.antt =====
-- The theorems on the registry dump and the network dump at concrete inputs.
use project.Prelude.{
  ℕ, ◌≡◌, ◌≢◌, refl, sym, subst, Bool, true, false, none, some, List, [], ◌∷◌, ◌++◌, ◌+◌, ◌*◌, ◌<◌,
  codes, All, err, arith,
}
use project.Json.{
  Json, text, number, array, object, member, no_members, Items, no_items, item, unescaped,
  unescaped→IsPlain,
}
use project.Client.Registry.{Entry, Key, opened, no_keys, subkey}
use project.Client.Registry.Means.{
  WithoutZeros, all_seen, leaves_out, keeps, LittleEndian, no_units, unit, Spells, decimal, a_to_f,
  HexText, no_bytes, byte,
}
use project.Client.Registry.Says.{
  SaysStrings, last_zero, string, says_string, says_binary, says_number, says_strings, default_name,
  own_name, SaysEntries, says_last, says_next, value_json, Says, says_leaf, says_tree,
  says_last_key,
}
use project.Client.Registry.Dump.{Hive, hives, dump_hives}
use project.Client.Registry.Hives.{ShowsHive, Dumped, dump_hives-Stops}
use project.Client.Netstat.Table.{print_lines, all_read}
use project.Client.Netstat.Denotes.{IsPlainRow}
use project.Client.Dumps.{Machine, Shell, dum_net}
use project.Client.Dumps.Network.{NetDumped, dum_net-NetDumped}
use project.Tests.Wires.{heads, listed, listed_lines, listed_table}

-- A text, a number, and three bytes.
abbrev word : Entry
word = record { name = codes "w"; kind = 1; data_bytes = 104 ∷ 0 ∷ 105 ∷ 0 ∷ 0 ∷ 0 ∷ [] }

abbrev size : Entry
size = record { name = []; kind = 4; data_bytes = 44 ∷ 1 ∷ 0 ∷ 0 ∷ [] }

-- "a" and "bc", with a 0 behind each and another one at the end.
abbrev names : Entry
names = record {
  name = codes "n";
  kind = 7;
  data_bytes = 97 ∷ 0 ∷ 0 ∷ 0 ∷ 98 ∷ 0 ∷ 99 ∷ 0 ∷ 0 ∷ 0 ∷ 0 ∷ 0 ∷ [];
}

abbrev blob : Entry
blob = record { name = codes "b"; kind = 3; data_bytes = 0 ∷ 171 ∷ 255 ∷ [] }

abbrev values : Items
values = item (value_json (codes "w") (codes "REG_SZ") (text (codes "hi"))) (
    item
      (value_json (codes "n") (codes "REG_MULTI_SZ")
        (array (item (text (codes "a")) (item (text (codes "bc")) no_items))))
      (item (value_json (codes "(Default)") (codes "REG_DWORD") (number 300))
        (item (value_json (codes "b") (codes "REG_BINARY") (text (codes "00abff"))) no_items)))

-- The text of units that have one byte each.
narrow-Spells : (t : List ℕ) → All (λ c. (c ≢ 0) × (c < 256)) t → Spells t t
narrow-Spells [] h = record { bytes = []; halves = no_units; visible = all_seen }
narrow-Spells (c ∷ t) ((other, lt), h) =
    let rest = narrow-Spells t h in
    let same : c + 256 * 0 ≡ c = omega arith in
    record {
      bytes = c ∷ 0 ∷ rest.bytes;
      halves =
          subst (λ u. LittleEndian (u ∷ t) (c ∷ 0 ∷ rest.bytes)) same
            (unit c 0 lt (omega arith) rest.halves);
      visible = keeps c other (leaves_out rest.visible);
    }

one-Spells : (c : ℕ) → c ≢ 0 → c < 256 → Spells (c ∷ []) (c ∷ [])
one-Spells c other lt = narrow-Spells (c ∷ []) ((other, lt), tt)

word_seen : WithoutZeros word.data_bytes (codes "hi")
word_seen =
    keeps 104 (λ e. omega arith)
      (leaves_out (keeps 105 (λ e. omega arith) (leaves_out (leaves_out (leaves_out all_seen)))))

names_units : LittleEndian (97 ∷ 0 ∷ 98 ∷ 99 ∷ 0 ∷ 0 ∷ []) names.data_bytes
names_units = unit 97 0 (omega arith) (omega arith) (
    unit 0 0 (omega arith) (omega arith) (
      unit 98 0 (omega arith) (omega arith) (
        unit 99 0 (omega arith) (omega arith)
          (unit 0 0 (omega arith) (omega arith) (unit 0 0 (omega arith) (omega arith) no_units)))))

names_said :
    SaysStrings
      (97 ∷ 0 ∷ 98 ∷ 99 ∷ 0 ∷ 0 ∷ [])
      (item (text (codes "a")) (item (text (codes "bc")) no_items))
unfolding unescaped
names_said =
    string (codes "a") (λ e. cc) (((λ e. omega arith), omega arith), tt)
      (one-Spells 97 (λ e. omega arith) (omega arith)) (unescaped→IsPlain (codes "a") refl)
      (string (codes "bc") (λ e. cc)
        (((λ e. omega arith), omega arith), (((λ e. omega arith), omega arith), tt))
        (narrow-Spells (codes "bc")
          (((λ e. omega arith), omega arith), (((λ e. omega arith), omega arith), tt)))
        (unescaped→IsPlain (codes "bc") refl) last_zero)

blob_digits : HexText blob.data_bytes (codes "00abff")
blob_digits = byte 0 0 (decimal 0 (omega arith)) (decimal 0 (omega arith)) (
    byte 10 11 (a_to_f 0 (omega arith)) (a_to_f 1 (omega arith))
      (byte 15 15 (a_to_f 5 (omega arith)) (a_to_f 5 (omega arith)) no_bytes))

entries-Says : SaysEntries (word ∷ names ∷ size ∷ blob ∷ []) false values true
unfolding unescaped
entries-Says =
    says_next word (own_name 119 [] (one-Spells 119 (λ e. omega arith) (omega arith)))
      (unescaped→IsPlain (codes "w") refl)
      (says_string false word_seen (unescaped→IsPlain (codes "hi") refl))
      (says_next names (own_name 110 [] (one-Spells 110 (λ e. omega arith) (omega arith)))
        (unescaped→IsPlain (codes "n") refl) (says_strings false names_units names_said)
        (says_next size default_name (unescaped→IsPlain (codes "(Default)") refl)
          (says_number 44 1 0 0 [])
          (says_last blob (own_name 98 [] (one-Spells 98 (λ e. omega arith) (omega arith)))
            (unescaped→IsPlain (codes "b") refl)
            (says_binary 0 (171 ∷ 255 ∷ []) false blob_digits))))

abbrev leaf : Key
leaf =
    opened
      (record {
        subkey_count = 0;
        value_count = 4;
        entries = word ∷ names ∷ size ∷ blob ∷ [];
        behind = [];
      })
      no_keys

abbrev pub tree : Key
tree =
    opened (record { subkey_count = 1; value_count = 1; entries = word ∷ []; behind = [] })
      (subkey (codes "S") leaf no_keys)

abbrev pub all_open : List ℕ → Bool
all_open path = true

abbrev leaf_value : Json
leaf_value =
    object
      (member (codes "Key") (text (codes "S")) (member (codes "Values") (array values) no_members))

abbrev tree_value : Json
tree_value = object (
    member (codes "Key") (text []) (
      member (codes "Subkeys") (array (item leaf_value no_items)) (
        member (codes "Values")
          (array (item (value_json (codes "w") (codes "REG_SZ") (text (codes "hi"))) no_items))
          no_members)))

tree-Says : Says [] tree false tree_value true
unfolding unescaped
tree-Says =
    says_tree [] _ _ (narrow-Spells [] tt) tt refl refl
      (says_last_key (codes "S") (
        says_leaf (codes "S") _ no_keys (one-Spells 83 (λ e. omega arith) (omega arith))
          (unescaped→IsPlain (codes "S") refl) refl refl entries-Says))
      (says_last word (own_name 119 [] (one-Spells 119 (λ e. omega arith) (omega arith)))
        (unescaped→IsPlain (codes "w") refl)
        (says_string true word_seen (unescaped→IsPlain (codes "hi") refl)))

tree-ShowsHive :
    (hive : Hive)
    → hive.opens ≡ true
    → unescaped hive.label ≡ true
    → hive.root ≡ tree
    → ShowsHive hive
tree-ShowsHive hive opens plain same = record {
  file_opens = opens;
  label_plain = unescaped→IsPlain hive.label plain;
  shown = tree_value;
  base = true;
  shows = subst (λ key. Says [] key false tree_value true) (sym same) tree-Says;
}

pub hives-ShowsHive : All ShowsHive (hives (λ label. tree) all_open)
unfolding unescaped
hives-ShowsHive = (
  tree-ShowsHive _ refl refl refl,
  (
    tree-ShowsHive _ refl refl refl,
    (
      tree-ShowsHive _ refl refl refl,
      (tree-ShowsHive _ refl refl refl, (tree-ShowsHive _ refl refl refl, tt)),
    ),
  ),
)

abbrev first : Hive
first = record { file_part = codes "\\HCR"; label = codes "R"; root = tree; opens = true }

abbrev shut : Hive
shut = record first { opens = false }

abbrev first_only : List Hive
first_only = first ∷ []

first_shown : All ShowsHive first_only
unfolding unescaped
first_shown = (tree-ShowsHive first refl refl refl, tt)

dump_hives-Stops_example :
    Dumped
      (codes "C:")
      (codes "_1")
      first_only
      err
      (dump_hives (codes "C:") (codes "_1") (first_only ++ shut ∷ first ∷ []) [])
dump_hives-Stops_example =
    dump_hives-Stops (codes "C:") (codes "_1") first_only shut (first ∷ []) first_shown refl

abbrev pub here : List ℕ
here = codes "C:"

abbrev pub stamp : List ℕ
stamp = codes "_1"

abbrev pub blank : Machine
blank = record { disk = λ path. none; ran = [] }

-- Every command leaves the same table at every path.
abbrev shell : Shell
shell = record {
  run = λ command disk path. some (print_lines (heads ++ listed_lines));
  writable = λ path. true;
}

pub heads-inside : All (All (λ c. c ≢ 10)) heads
heads-inside = (tt, (((λ e. omega arith), tt), (tt, (((λ e. omega arith), tt), tt))))

pub listed-IsPlainRow : All IsPlainRow (all_read listed)
unfolding unescaped
listed-IsPlainRow = (
  (
    unescaped→IsPlain (codes "T") refl,
    unescaped→IsPlain (codes "a") refl,
    unescaped→IsPlain (codes "b") refl,
    unescaped→IsPlain (codes "S") refl,
    unescaped→IsPlain (codes "4") refl,
  ),
  (
    (
      unescaped→IsPlain (codes "U") refl,
      unescaped→IsPlain (codes "a") refl,
      unescaped→IsPlain (codes "*") refl,
      unescaped→IsPlain (codes "9") refl,
      tt,
    ),
    tt,
  ),
)

dum_net-NetDumped_example :
    NetDumped shell here stamp (all_read listed) blank (dum_net shell here stamp blank)
dum_net-NetDumped_example =
    dum_net-NetDumped shell here stamp blank heads listed_lines listed refl heads-inside
      listed_table listed-IsPlainRow refl refl
