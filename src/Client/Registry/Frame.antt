-- ===== src/Client/Registry/Frame.antt =====
-- The parts around the loops of `EnumerateKey` of InfoDumping/InfoDumping.cpp as JSON.
use project.Prelude.{
  ℕ, suc, ◌<◌, ◌≡◌, refl, Bool, true, List, [], ◌∷◌, ◌++◌, append_assoc, length, All, codes, ltb,
  if◌then◌else◌, arith,
}
use project.Json.{
  text, array, object, Items, Members, no_members, member, is_blank, IsBlank, IsPlain, Reads, blank,
  trail, quoted, brackets, braces, ReadsItems, ReadsMembers, last_member, next_member,
  blanks_before, blank_before, blank_items, unescaped, unescaped→IsPlain, trail_items,
}
use project.Client.Registry.{
  Printer, say, ◌>>◌, Entry, Info, Key, opened, Keys, no_keys, subkey, print_wide,
}
use project.Client.Registry.Prints.{Emits}
use project.Client.Registry.Value.{say_values, say_entries}
use project.Client.Registry.Denotes.{entries-Emits}
use project.Client.Registry.Enumerate.{key_json, say_subkeys, enumerate_key, enumerate_keys}
use project.Client.Registry.Shows.{
  ShowsEntries, shows_last, shows_next, count, ShowsKeys, shows_last_key, shows_next_key,
}

pub enumerate_key-opened :
    (name : List ℕ) (info : Info) (keys : Keys)
    → enumerate_key name (opened info keys)
      ≡ say (key_json name)
        >> (say_subkeys info (enumerate_keys 0 info.subkey_count keys)
            >> (say_values info >> say (codes "}")))
unfolding enumerate_key
enumerate_key-opened name info keys = refl

pub enumerate_keys-subkey :
    (i n : ℕ) (name : List ℕ) (key : Key) (keys : Keys)
    → enumerate_keys i n (subkey name key keys)
      ≡ enumerate_key name key
        >> (say (if ltb (suc i) n then codes ",\n" else []) >> enumerate_keys (suc i) n keys)
unfolding enumerate_keys
enumerate_keys-subkey i n name key keys = refl

pub enumerate_keys-none : (i n : ℕ) → enumerate_keys i n no_keys ≡ say []
unfolding enumerate_keys
enumerate_keys-none i n = refl

entries_lt :
    {es : List Entry} {a b : Bool} {items : Items} → ShowsEntries es a items b → 0 < length es
entries_lt (shows_last v h shown) = omega arith
entries_lt (shows_next v h shown more) = omega arith

bracket_read :
    {items : Items} {input more : List ℕ}
    → ReadsItems items input (32 ∷ 32 ∷ 93 ∷ more)
    → Reads (array items) (codes " [\n" ++ input) more
unfolding is_blank
bracket_read r =
    blank 32 refl (brackets (blank_items 10 refl (trail_items 32 refl (trail_items 32 refl r))))

two_blanks : IsBlank (codes "  ")
unfolding is_blank
two_blanks = (refl, (refl, tt))

-- The member for the values.
pub values-Emits :
    {a b : Bool} {items : Items} (info : Info)
    → info.value_count ≡ length info.entries
    → ShowsEntries info.entries a items b
    → Emits (say_values info) a b (ReadsMembers (member (codes "Values") (array items) no_members))
unfolding say_values is_blank unescaped ◌>>◌
values-Emits info e shown =
    let lt : 0 < length info.entries = entries_lt shown in
    let more : ltb 0 info.value_count ≡ true = ground arith in
    let d : Emits (say_entries 0 info.value_count info.entries info.behind) _ _ (ReadsItems _) =
      entries-Emits 0 info.value_count info.behind (omega arith) shown in
    record {
      out = codes "  \"Values\": [\n" ++ (d.out ++ codes "  ]\n");
      prints = record { result = rw (more, say_values) (rw (d.prints.result, ◌>>◌) refl) };
      read = λ rest. rw (append_assoc d.out (codes "  ]\n") rest) (
          blanks_before (codes "  ") two_blanks (
            last_member (codes "Values") (unescaped→IsPlain (codes "Values") refl)
              (trail 10 refl (bracket_read (d.read (codes "  ]\n" ++ rest))))));
    }

pub keys_lt : {keys : Keys} {a b : Bool} {items : Items} → ShowsKeys keys a items b → 0 < count keys
keys_lt (shows_last_key name shown) = omega arith
keys_lt (shows_next_key name shown more) = omega arith

-- The member for the subkeys, in front of others.
pub subkeys-Emits :
    {a b : Bool} {items : Items} (info : Info) (loop : Printer)
    → 0 < info.subkey_count
    → Emits loop a b (ReadsItems items)
    → Emits (say_subkeys info loop) a b (λ input rest.
      (members : Members) (last : List ℕ)
      → ReadsMembers members rest last
      → ReadsMembers (member (codes "Subkeys") (array items) members) input last)
unfolding say_subkeys is_blank unescaped ◌>>◌
subkeys-Emits info loop lt d =
    let more : ltb 0 info.subkey_count ≡ true = ground arith in
    record {
      out = codes "  \"Subkeys\": [\n" ++ (d.out ++ codes "  ],\n");
      prints = record { result = rw (more, say_subkeys) (rw (d.prints.result, ◌>>◌) refl) };
      read = λ rest members last r. rw (append_assoc d.out (codes "  ],\n") rest) (
          blanks_before (codes "  ") two_blanks (
            next_member (codes "Subkeys") (unescaped→IsPlain (codes "Subkeys") refl)
              (bracket_read (d.read (codes "  ],\n" ++ rest))) (blank_before 10 refl r)));
    }

pub key_read :
    {members : Members} {input rest : List ℕ} (name : List ℕ)
    → All IsPlain (print_wide name)
    → ReadsMembers members input (125 ∷ rest)
    → Reads
        (object (member (codes "Key") (text (print_wide name)) members))
        (key_json name ++ input)
        rest
unfolding key_json is_blank unescaped
key_read {input = input} name h r = rw (append_assoc (print_wide name) (codes "\",\n") input) (
    braces (
      blank_before 10 refl (
        blanks_before (codes "  ") two_blanks (
          next_member (codes "Key") (unescaped→IsPlain (codes "Key") refl)
            (blank 32 refl (quoted (print_wide name) h)) (blank_before 10 refl r)))))
