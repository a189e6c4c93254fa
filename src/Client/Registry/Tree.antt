-- ===== src/Client/Registry/Tree.antt =====
-- The dump of a whole key as JSON: `EnumerateKey` of InfoDumping/InfoDumping.cpp.
use project.Prelude.{
  ℕ, suc, ◌+◌, ◌<◌, ◌≡◌, refl, Bool, true, false, List, [], ◌∷◌, ◌++◌, append_assoc, All, codes,
  ltb, arith,
}
use project.Json.{
  Json, text, array, object, Items, no_items, item, no_members, member, IsPlain, Reads, ReadsItems,
  ReadsMembers,
}
use project.Client.Registry.{Printer, ◌>>◌, Info, Key, opened, Keys, no_keys, subkey, print_wide}
use project.Client.Registry.Prints.{Prints, Emits, last-Emits, next-Emits}
use project.Client.Registry.Value.{say_values}
use project.Client.Registry.Enumerate.{key_json, say_subkeys, enumerate_key, enumerate_keys}
use project.Client.Registry.Shows.{
  count, Shows, shows_leaf, shows_tree, ShowsKeys, shows_last_key, shows_next_key,
}
use project.Client.Registry.Frame.{
  enumerate_key-opened, enumerate_keys-subkey, enumerate_keys-none, values-Emits, keys_lt,
  subkeys-Emits, key_read,
}

key-Prints :
    {a b c : Bool} {t u : List ℕ} (name : List ℕ) (info : Info) (keys : Keys)
    → Prints (say_subkeys info (enumerate_keys 0 info.subkey_count keys)) a t b
    → Prints (say_values info) b u c
    → Prints (enumerate_key name (opened info keys)) a (key_json name ++ (t ++ (u ++ codes "}"))) c
unfolding ◌>>◌
key-Prints name info keys p q = record {
  result = rw (enumerate_key-opened name info keys, ◌>>◌) (rw (p.result, ◌>>◌) (rw q.result refl));
}

no_subkeys :
    (info : Info) (loop : Printer) (a : Bool)
    → info.subkey_count ≡ 0
    → Prints (say_subkeys info loop) a [] a
unfolding say_subkeys
no_subkeys info loop a e =
    let none_below : ltb 0 info.subkey_count ≡ false = ground arith in
    record { result = rw (none_below, say_subkeys) refl }

leaf-Emits :
    {a b : Bool} {items : Items} (name : List ℕ) (info : Info) (keys : Keys)
    → All IsPlain (print_wide name)
    → info.subkey_count ≡ 0
    → Emits (say_values info) a b (ReadsMembers (member (codes "Values") (array items) no_members))
    → Emits (enumerate_key name (opened info keys)) a b (
        Reads (
          object (
            member
              (codes "Key")
              (text (print_wide name))
              (member (codes "Values") (array items) no_members))))
leaf-Emits {a = a} name info keys h e d = record {
  out = key_json name ++ ([] ++ (d.out ++ codes "}"));
  prints =
      key-Prints name info keys (no_subkeys info (enumerate_keys 0 info.subkey_count keys) a e)
        d.prints;
  read = λ rest.
      let same : (key_json name ++ (d.out ++ codes "}")) ++ rest
          ≡ key_json name ++ (d.out ++ 125 ∷ rest) =
        simp append_assoc in
      rw same (key_read name h (d.read (125 ∷ rest)));
}

tree-Emits :
    {a b c : Bool} {items subkeys : Items} (name : List ℕ) (info : Info) (keys : Keys)
    → All IsPlain (print_wide name)
    → 0 < info.subkey_count
    → Emits (enumerate_keys 0 info.subkey_count keys) a b (ReadsItems subkeys)
    → Emits (say_values info) b c (ReadsMembers (member (codes "Values") (array items) no_members))
    → Emits (enumerate_key name (opened info keys)) a c (
        Reads (
          object (
            member (codes "Key") (text (print_wide name)) (
              member
                (codes "Subkeys")
                (array subkeys)
                (member (codes "Values") (array items) no_members)))))
tree-Emits {items = items} name info keys h lt loop d =
    let below : Emits (say_subkeys info (enumerate_keys 0 info.subkey_count keys)) _ _ _ =
      subkeys-Emits info (enumerate_keys 0 info.subkey_count keys) lt loop in
    record {
      out = key_json name ++ (below.out ++ (d.out ++ codes "}"));
      prints = key-Prints name info keys below.prints d.prints;
      read = λ rest.
          let same : (key_json name ++ (below.out ++ (d.out ++ codes "}"))) ++ rest
              ≡ key_json name ++ (below.out ++ (d.out ++ 125 ∷ rest)) =
            simp append_assoc in
          rw same (
            key_read name h (
              below.read (d.out ++ 125 ∷ rest) (member (codes "Values") (array items) no_members)
                (125 ∷ rest) (d.read (125 ∷ rest))));
    }

last_key-Emits :
    {a b : Bool} {j : Json} (i n : ℕ) (name : List ℕ) (key : Key)
    → i + 1 ≡ n
    → Emits (enumerate_key name key) a b (Reads j)
    → Emits (enumerate_keys i n (subkey name key no_keys)) a b (ReadsItems (item j no_items))
last_key-Emits i n name key e d =
    let last : ltb (suc i) n ≡ false = ground arith in
    rw (enumerate_keys-subkey i n name key no_keys)
      (rw (last, enumerate_keys-none (suc i) n) (last-Emits [] tt d))

next_key-Emits :
    {a b c : Bool} {j : Json} {items : Items} (i n : ℕ) (name : List ℕ) (key : Key) (keys : Keys)
    → suc i < n
    → Emits (enumerate_key name key) a b (Reads j)
    → Emits (enumerate_keys (suc i) n keys) b c (ReadsItems items)
    → Emits (enumerate_keys i n (subkey name key keys)) a c (ReadsItems (item j items))
next_key-Emits i n name key keys lt d more =
    let comma : ltb (suc i) n ≡ true = ground arith in
    rw (enumerate_keys-subkey i n name key keys) (rw comma (next-Emits d more))

mutual
  pub enumerate_key-Emits :
      {a b : Bool} {j : Json} (name : List ℕ) (key : Key)
      → Shows name key a j b
      → Emits (enumerate_key name key) a b (Reads j)
  enumerate_key-Emits n k (shows_leaf name info keys h none_below e shown) =
      leaf-Emits name info keys h none_below (values-Emits info e shown)
  enumerate_key-Emits n k (shows_tree name info keys h many e subkeys shown) =
      let lt : 0 < count keys = keys_lt subkeys in
      tree-Emits name info keys h (omega arith)
        (enumerate_keys-Emits 0 info.subkey_count (omega arith) subkeys) (values-Emits info e shown)

  enumerate_keys-Emits :
      {keys : Keys} {a b : Bool} {items : Items} (i n : ℕ)
      → i + count keys ≡ n
      → ShowsKeys keys a items b
      → Emits (enumerate_keys i n keys) a b (ReadsItems items)
  enumerate_keys-Emits i n e (shows_last_key name shown) =
      last_key-Emits i n name _ (omega arith) (enumerate_key-Emits name _ shown)
  enumerate_keys-Emits i n e
        (shows_next_key {next = next} {next_name = m} {keys = keys} name shown more) =
      next_key-Emits i n name _ (subkey m next keys) (omega arith)
        (enumerate_key-Emits name _ shown) (enumerate_keys-Emits (suc i) n (omega arith) more)
