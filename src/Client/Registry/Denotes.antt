-- ===== src/Client/Registry/Denotes.antt =====
-- The values of a key as JSON: `EnumerateKey` of InfoDumping/InfoDumping.cpp.
use project.Prelude.{
  ℕ, suc, ◌+◌, ◌≡◌, refl, Bool, true, false, List, [], ◌∷◌, ◌++◌, append_assoc, length, All, codes,
  ltb, replicate, arith,
}
use project.Json.{
  Json, text, Items, Members, member, is_blank, IsPlain, Reads, blank, quoted, braces, ReadsItems,
  ReadsMembers, blank_before, next_member, blanks, blanks_before, trails_members, IsBlank,
  unescaped, unescaped→IsPlain,
}
use project.Client.Registry.{Entry, print_wide}
use project.Client.Registry.Prints.{between-Prints, Emits, last-Emits, next-Emits}
use project.Client.Registry.Value.{say_data, say_entry, say_entries, name_json}
use project.Client.Registry.Shows.{
  ShowsData, entry_name, entry_value, ShowsEntries, shows_last, shows_next,
}
use project.Client.Registry.Data.{ReadsType, data-Emits}

name_read :
    {members : Members} {input rest : List ℕ} (name : List ℕ)
    → All IsPlain (entry_name name)
    → ReadsMembers members input rest
    → ReadsMembers
        (member (codes "Name") (text (entry_name name)) members)
        (name_json name ++ (codes "      " ++ input))
        rest
unfolding name_json is_blank unescaped
name_read [] h r =
    blanks_before (codes "      ") (refl, (refl, (refl, (refl, (refl, (refl, tt))))))
      (next_member (codes "Name") (unescaped→IsPlain (codes "Name") refl)
        (blank 32 refl (quoted (codes "(Default)") h))
        (blanks_before (codes "\n      ") (refl, (refl, (refl, (refl, (refl, (refl, (refl, tt)))))))
          r))
name_read {input = input} (u ∷ us) h r =
    rw (append_assoc (print_wide (u ∷ us)) (codes "\",\n") (codes "      " ++ input)) (
      blanks_before (codes "      ") (refl, (refl, (refl, (refl, (refl, (refl, tt))))))
        (next_member (codes "Name") (unescaped→IsPlain (codes "Name") refl)
          (blank 32 refl (quoted (print_wide (u ∷ us)) h))
          (blanks_before (codes "\n      ")
            (refl, (refl, (refl, (refl, (refl, (refl, (refl, tt))))))) r)))

four_blanks : IsBlank (codes "    ")
unfolding is_blank
four_blanks = (refl, (refl, (refl, (refl, tt))))

entry-Emits :
    (e : Entry) {label : List ℕ} {a b : Bool} {j : Json} (behind : List ℕ)
    → All IsPlain (entry_name e.name)
    → ShowsData e.kind e.data_bytes a label j b
    → Emits (say_entry e behind) a b (Reads (entry_value e.name label j))
unfolding say_entry is_blank
entry-Emits e behind h shown =
    let d : Emits (say_data e.kind e.data_bytes behind) _ _ (ReadsType _ _) =
      data-Emits behind shown in
    record {
      out =
          (codes "    {\n" ++ (name_json e.name ++ codes "      \"Type\": "))
          ++ (d.out ++ codes "    }");
      prints =
          between-Prints (codes "    {\n" ++ (name_json e.name ++ codes "      \"Type\": "))
            (codes "    }") d.prints;
      read = λ rest.
          let same : ((codes "    {\n" ++ (name_json e.name ++ codes "      \"Type\": "))
                  ++ (d.out ++ codes "    }"))
                ++ rest
              ≡ codes "    {\n"
                ++ (name_json e.name
                    ++ (codes "      "
                        ++ (codes "\"Type\": " ++ (d.out ++ (codes "    }" ++ rest))))) =
            simp append_assoc in
          rw same (
            blanks (codes "    ") four_blanks (
              braces (
                blank_before 10 refl (
                  trails_members (codes "    ") four_blanks
                    (name_read e.name h (d.read (codes "    }" ++ rest)))))));
    }

-- The loop over the values: the text between the brackets.
pub entries-Emits :
    {es : List Entry} {a b : Bool} {items : Items} (i n : ℕ) (behind : List ℕ)
    → i + length es ≡ n
    → ShowsEntries es a items b
    → Emits (say_entries i n es behind) a b (ReadsItems items)
unfolding say_entries is_blank
entries-Emits i n behind e (shows_last v h shown) =
    let last : ltb (suc i) n ≡ false = ground arith in
    rw last (last-Emits (codes "\n") (refl, tt) (entry-Emits v behind h shown))
entries-Emits i n behind e (shows_next v h shown more) =
    let comma : ltb (suc i) n ≡ true = ground arith in
    rw comma (
      next-Emits (entry-Emits v behind h shown)
        (entries-Emits (suc i) n (replicate 10 0) (omega arith) more))
