-- ===== src/Client/Registry/Says/Agree.antt =====
-- What the dump of a key is to say, in the terms of the functions of InfoDumping/InfoDumping.cpp.
use project.Prelude.{
  ℕ, ◌≡◌, refl, sym, ap, subst, ◌∙◌, Bool, true, false, List, [], ◌∷◌, ◌++◌, All, codes, arith,
}
use project.Json.{
  Json, text, number, array, object, Items, no_items, item, no_members, member, IsPlain,
}
use project.Client.Registry.{unit_bytes, Entry, Key, opened, Keys}
use project.Client.Registry.Means.{
  nonzero-WithoutZeros, unit_bytes-LittleEndian, Spells-nonzero, print_wide-Spells,
  hex_bytes-HexText, le_value_lem, be_value_lem,
}
use project.Client.Registry.Strings.{multi, texts, IsString}
use project.Client.Registry.Shows.{
  ShowsData, shows_string, shows_binary, shows_resource, shows_number, shows_big_number,
  shows_no_strings, shows_strings, entry_name, ShowsEntries, shows_last, shows_next, Shows,
  shows_leaf, shows_tree, ShowsKeys, shows_last_key, shows_next_key,
}
use project.Client.Registry.Says.{
  SaysStrings, last_zero, string, SaysData, says_string, says_binary, says_resource, says_number,
  says_big_number, says_strings, SaysName, default_name, own_name, SaysEntries, says_last,
  says_next, Says, says_leaf, says_tree, SaysKeys, says_last_key, says_next_key, value_json,
}

record Parts (us : List ℕ) (items : Items) : Type 0 where
  strings : List (List ℕ)
  units : us ≡ multi strings
  shown : texts strings ≡ items
  valid : All IsString strings

SaysStrings-Parts : {us : List ℕ} {items : Items} → SaysStrings us items → Parts us items
SaysStrings-Parts last_zero = record { strings = []; units = refl; shown = refl; valid = tt }
SaysStrings-Parts (string {us} {t} {items} s full inside spelled plain more) =
    let rest = SaysStrings-Parts more in
    let e = Spells-nonzero spelled in
    record {
      strings = s ∷ rest.strings;
      units = ap (λ later. s ++ 0 ∷ later) rest.units;
      shown = ap (λ x. item (text x) (texts rest.strings)) e ∙ ap (item (text t)) rest.shown;
      valid = (
        record { some_unit = full; inside = inside; plain = subst (All IsPlain) (sym e) plain },
        rest.valid,
      );
    }

shows_parts :
    (a : Bool) (strings : List (List ℕ))
    → All IsString strings
    → ShowsData 7 (unit_bytes (multi strings)) a (codes "REG_MULTI_SZ") (array (texts strings)) a
shows_parts a [] valid = shows_no_strings a
shows_parts a (s ∷ strings) valid = shows_strings s strings a valid

ShowsData-SaysData :
    {kind : ℕ} {bytes : List ℕ} {a b : Bool} {label : List ℕ} {j : Json}
    → SaysData kind bytes a label j b
    → ShowsData kind bytes a label j b
ShowsData-SaysData (says_string {bytes} a seen plain) =
    let e = nonzero-WithoutZeros seen in
    subst (λ t. ShowsData 1 bytes a (codes "REG_SZ") (text t) a) e
      (shows_string bytes a (subst (All IsPlain) (sym e) plain))
ShowsData-SaysData (says_binary b bytes a hex) =
    let (small, e) = hex_bytes-HexText hex in
    subst (λ t. ShowsData 3 (b ∷ bytes) a (codes "REG_BINARY") (text t) true) e
      (shows_binary b bytes a small)
ShowsData-SaysData (says_resource b bytes a hex) =
    let (small, e) = hex_bytes-HexText hex in
    subst (λ t. ShowsData 9 (b ∷ bytes) a (codes "REG_FULL_RESOURCE_DESCRIPTOR") (text t) true) e
      (shows_resource b bytes a small)
ShowsData-SaysData (says_number a b c d rest) =
    subst (λ n. ShowsData 4 (a ∷ b ∷ c ∷ d ∷ rest) false (codes "REG_DWORD") (number n) false)
      (le_value_lem a b c d rest) (shows_number (a ∷ b ∷ c ∷ d ∷ rest) (omega arith))
ShowsData-SaysData (says_big_number a b c d rest) =
    subst
      (λ n.
        ShowsData 5 (a ∷ b ∷ c ∷ d ∷ rest) false (codes "REG_DWORD_BIG_ENDIAN") (number n) false)
      (be_value_lem a b c d rest) (shows_big_number (a ∷ b ∷ c ∷ d ∷ rest) (omega arith))
ShowsData-SaysData (says_strings {us} {bytes} {items} a halves strings) =
    let parts = SaysStrings-Parts strings in
    let data_same : unit_bytes (multi parts.strings) ≡ bytes =
      ap unit_bytes (sym parts.units) ∙ unit_bytes-LittleEndian halves in
    subst (λ x. ShowsData 7 x a (codes "REG_MULTI_SZ") (array items) a) data_same
      (subst
        (λ x. ShowsData 7 (unit_bytes (multi parts.strings)) a (codes "REG_MULTI_SZ") (array x) a)
        parts.shown (shows_parts a parts.strings parts.valid))

entry_name-SaysName : {name t : List ℕ} → SaysName name t → entry_name name ≡ t
entry_name-SaysName default_name = refl
entry_name-SaysName (own_name u us spelled) = print_wide-Spells spelled

ShowsEntries-SaysEntries :
    {es : List Entry} {a b : Bool} {items : Items}
    → SaysEntries es a items b
    → ShowsEntries es a items b
ShowsEntries-SaysEntries (says_last e {a} {b} {name} {label} {j} named plain says) =
    let same = entry_name-SaysName named in
    subst (λ t. ShowsEntries (e ∷ []) a (item (value_json t label j) no_items) b) same
      (shows_last e (subst (All IsPlain) (sym same) plain) (ShowsData-SaysData says))
ShowsEntries-SaysEntries
      (says_next e {next} {es} {a} {b} {c} {name} {label} {j} {items} named plain says more) =
    let same = entry_name-SaysName named in
    subst (λ t. ShowsEntries (e ∷ next ∷ es) a (item (value_json t label j) items) c) same
      (shows_next e (subst (All IsPlain) (sym same) plain) (ShowsData-SaysData says)
        (ShowsEntries-SaysEntries more))

mutual
  pub Shows-Says :
      {name : List ℕ} {key : Key} {a b : Bool} {j : Json}
      → Says name key a j b
      → Shows name key a j b
  Shows-Says (says_leaf {a} {b} {items} {t} name info keys spelled plain none_below values says) =
      let same = print_wide-Spells spelled in
      subst
        (λ x.
          Shows name (opened info keys) a
            (object
              (member (codes "Key") (text x) (member (codes "Values") (array items) no_members)))
            b)
        same
        (shows_leaf name info keys (subst (All IsPlain) (sym same) plain) none_below values
          (ShowsEntries-SaysEntries says))
  Shows-Says
        (says_tree {a} {b} {c} {items} {subkeys} {t} name info keys spelled plain below values
          says_keys says) =
      let same = print_wide-Spells spelled in
      subst
        (λ x.
          Shows name (opened info keys) a
            (object (
              member (codes "Key") (text x) (
                member (codes "Subkeys") (array subkeys)
                  (member (codes "Values") (array items) no_members))))
            c)
        same
        (shows_tree name info keys (subst (All IsPlain) (sym same) plain) below values
          (ShowsKeys-SaysKeys says_keys) (ShowsEntries-SaysEntries says))

  ShowsKeys-SaysKeys :
      {keys : Keys} {a b : Bool} {items : Items}
      → SaysKeys keys a items b
      → ShowsKeys keys a items b
  ShowsKeys-SaysKeys (says_last_key name says) = shows_last_key name (Shows-Says says)
  ShowsKeys-SaysKeys (says_next_key name says more) =
      shows_next_key name (Shows-Says says) (ShowsKeys-SaysKeys more)
