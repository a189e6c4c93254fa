-- ===== src/Client/Netstat/Denotes.antt =====
-- The text of `netStatInfoToJson` of InfoDumping/InfoDumping.cpp as JSON.
use project.Prelude.{
  ℕ, suc, ◌+◌, ◌-◌, ◌≡◌, refl, true, false, List, [], ◌∷◌, ◌++◌, append_assoc, All, length, codes,
  ltb, arith,
}
use project.Json.{
  Json, text, array, object, Items, no_items, item, Members, no_members, member, is_blank, IsPlain,
  Reads, blank, trail, quoted, empty_array, brackets, braces, ReadsItems, last_item, next_item,
  ReadsMembers, blank_before, last_member, next_member, trails, blanks_before, blank_items,
  unescaped, unescaped→IsPlain,
}
use project.Client.Netstat.{NetStatInfo}
use project.Client.Netstat.Json.{field, row_json, rows_json, net_stat_info_to_json}

-- What a row is to say.
abbrev pub row_value : NetStatInfo → Json
row_value info = object (
    member (codes "Protocol") (text info.protocol) (
      member (codes "Local Address") (text info.local_address) (
        member (codes "Foreign Address") (text info.foreign_address) (
          member (codes "State") (text info.state)
            (member (codes "PID") (text info.pid) no_members)))))

abbrev pub row_values : List NetStatInfo → Items
row_values [] = no_items
row_values (info ∷ infos) = item (row_value info) (row_values infos)

-- No field has a character that JSON wants escaped.
abbrev pub IsPlainRow : NetStatInfo → Type 0
IsPlainRow info =
    All IsPlain info.protocol
    × All IsPlain info.local_address
    × All IsPlain info.foreign_address
    × All IsPlain info.state
    × All IsPlain info.pid

field_append :
    (key value tail : List ℕ)
    → field key value ++ tail
      ≡ codes "    " ++ 34 ∷ (key ++ 34 ∷ 58 ∷ 32 ∷ 34 ∷ (value ++ 34 ∷ tail))
field_append key value tail = simp append_assoc

field_next :
    {more rest : List ℕ} {members : Members} (key value : List ℕ)
    → unescaped key ≡ true
    → All IsPlain value
    → ReadsMembers members more rest
    → ReadsMembers (member key (text value) members) (field key value ++ (codes ",\n" ++ more)) rest
unfolding is_blank
field_next {more} key value k v r = rw (field_append key value (codes ",\n" ++ more)) (
    blanks_before (codes "    ") (refl, (refl, (refl, (refl, tt))))
      (next_member key (unescaped→IsPlain key k) (blank 32 refl (quoted value v))
        (blank_before 10 refl r)))

field_last :
    {rest : List ℕ} (key value : List ℕ)
    → unescaped key ≡ true
    → All IsPlain value
    → ReadsMembers
        (member key (text value) no_members)
        (field key value ++ (codes "\n  " ++ rest))
        rest
unfolding is_blank
field_last {rest} key value k v = rw (field_append key value (codes "\n  " ++ rest)) (
    blanks_before (codes "    ") (refl, (refl, (refl, (refl, tt))))
      (last_member key (unescaped→IsPlain key k)
        (trails (codes "\n  ") (refl, (refl, (refl, tt))) (blank 32 refl (quoted value v)))))

row_json_append :
    (info : NetStatInfo) (rest : List ℕ)
    → row_json info ++ rest
      ≡ codes "  {\n"
        ++ (field (codes "Protocol") info.protocol
            ++ (codes ",\n"
                ++ (field (codes "Local Address") info.local_address
                    ++ (codes ",\n"
                        ++ (field (codes "Foreign Address") info.foreign_address
                            ++ (codes ",\n"
                                ++ (field (codes "State") info.state
                                    ++ (codes ",\n"
                                        ++ (field (codes "PID") info.pid
                                            ++ (codes "\n  " ++ 125 ∷ rest))))))))))
unfolding row_json
row_json_append info rest = simp append_assoc

row_json-Reads :
    (info : NetStatInfo) (rest : List ℕ)
    → IsPlainRow info
    → Reads (row_value info) (row_json info ++ rest) rest
unfolding is_blank unescaped
row_json-Reads info rest (a, b, c, d, e) = rw (row_json_append info rest) (
    blank 32 refl (
      blank 32 refl (
        braces (
          blank_before 10 refl (
            field_next (codes "Protocol") info.protocol refl a (
              field_next (codes "Local Address") info.local_address refl b (
                field_next (codes "Foreign Address") info.foreign_address refl c (
                  field_next (codes "State") info.state refl d
                    (field_last (codes "PID") info.pid refl e)))))))))

rows_json-Reads :
    (i n : ℕ) (info : NetStatInfo) (infos : List NetStatInfo) (rest : List ℕ)
    → i + length (info ∷ infos) ≡ n
    → All IsPlainRow (info ∷ infos)
    → ReadsItems (row_values (info ∷ infos)) (rows_json i n (info ∷ infos) ++ rest) rest
unfolding rows_json is_blank
rows_json-Reads i n info [] rest e (h, _) =
    let last : ltb i (n - 1) ≡ false = ground arith in
    let same : rows_json i n (info ∷ []) ++ rest ≡ row_json info ++ 10 ∷ rest =
      rw (last, rows_json) (append_assoc (row_json info) (10 ∷ []) rest) in
    rw same (last_item (trail 10 refl (row_json-Reads info (10 ∷ rest) h)))
rows_json-Reads i n info (next ∷ infos) rest e (h, hs) =
    let more : ltb i (n - 1) ≡ true = ground arith in
    let later : List ℕ = rows_json (suc i) n (next ∷ infos) in
    let same : rows_json i n (info ∷ next ∷ infos) ++ rest
        ≡ row_json info ++ 44 ∷ 10 ∷ (later ++ rest) =
      rw (more, rows_json) (append_assoc (row_json info) (44 ∷ 10 ∷ later) rest) in
    rw same (
      next_item (row_json-Reads info (44 ∷ 10 ∷ (later ++ rest)) h)
        (blank_items 10 refl (rows_json-Reads (suc i) n next infos rest (omega arith) hs)))

-- Connections whose fields have no control character, quote or backslash: the text of
-- `netStatInfoToJson` is JSON, of the array that has one object for each connection, in their order,
-- with its five fields under their names.
pub net_stat_info_to_json-Reads :
    (infos : List NetStatInfo)
    → All IsPlainRow infos
    → Reads (array (row_values infos)) (net_stat_info_to_json infos) []
unfolding net_stat_info_to_json is_blank
net_stat_info_to_json-Reads [] h = trail 10 refl (empty_array (10 ∷ []) (refl, tt))
net_stat_info_to_json-Reads (info ∷ infos) h = trail 10 refl (
    brackets (
      blank_items 10 refl
        (rows_json-Reads 0 (length (info ∷ infos)) info infos (93 ∷ 10 ∷ []) (omega arith) h)))
