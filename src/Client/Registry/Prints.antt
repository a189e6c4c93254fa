-- ===== src/Client/Registry/Prints.antt =====
-- What a printer of Client/Registry.antt inserts, from a number base to another.
use project.Prelude.{◌≡◌, refl, ◌∷◌, [], append_assoc, codes, Bool, some, ℕ, List, ◌++◌}
use project.Json.{
  Json, Items, no_items, item, is_blank, IsBlank, Reads, trails, ReadsItems, last_item, next_item,
  blank_items,
}
use project.Client.Registry.{Printer, say, ◌>>◌}

pub record Prints (m : Printer) (a : Bool) (t : List ℕ) (b : Bool) : Type 0 where
  pub result : m a ≡ some (t, b)

pub then-Prints :
    {m k : Printer} {a b c : Bool} {t u : List ℕ}
    → Prints m a t b
    → Prints k b u c
    → Prints (m >> k) a (t ++ u) c
unfolding ◌>>◌
then-Prints p q = record { result = rw (p.result, ◌>>◌) (rw q.result refl) }

-- A printer between two texts.
pub between-Prints :
    {m : Printer} {a b : Bool} {t : List ℕ} (front behind : List ℕ)
    → Prints m a t b
    → Prints (say front >> (m >> say behind)) a (front ++ (t ++ behind)) b
unfolding ◌>>◌
between-Prints front behind p = record { result = rw (p.result, ◌>>◌) refl }

-- A printer whose text is read, in front of any other.
pub record Emits (m : Printer) (a b : Bool) (R : List ℕ → List ℕ → Type 0) : Type 0 where
  pub out : List ℕ
  pub prints : Prints m a out b
  pub read : (rest : List ℕ) → R (out ++ rest) rest

-- The last round of a loop that prints items, with blanks behind the item.
pub last-Emits :
    {m : Printer} {a b : Bool} {j : Json} (sep : List ℕ)
    → IsBlank sep
    → Emits m a b (Reads j)
    → Emits (m >> (say sep >> say [])) a b (ReadsItems (item j no_items))
unfolding ◌>>◌
last-Emits sep blank_sep d = record {
  out = d.out ++ (sep ++ []);
  prints = record { result = rw (d.prints.result, ◌>>◌) refl };
  read = λ rest.
      let same : (d.out ++ (sep ++ [])) ++ rest ≡ d.out ++ (sep ++ rest) = simp append_assoc in
      rw same (last_item (trails sep blank_sep (d.read (sep ++ rest))));
}

-- A round before another: a comma and a new line between the items.
pub next-Emits :
    {m k : Printer} {a b c : Bool} {j : Json} {items : Items}
    → Emits m a b (Reads j)
    → Emits k b c (ReadsItems items)
    → Emits (m >> (say (codes ",\n") >> k)) a c (ReadsItems (item j items))
unfolding ◌>>◌ is_blank
next-Emits d more = record {
  out = d.out ++ (codes ",\n" ++ more.out);
  prints = record { result = rw (d.prints.result, ◌>>◌) (rw more.prints.result refl) };
  read = λ rest.
      let same : (d.out ++ (codes ",\n" ++ more.out)) ++ rest
          ≡ d.out ++ 44 ∷ 10 ∷ (more.out ++ rest) =
        simp append_assoc in
      rw same
        (next_item (d.read (44 ∷ 10 ∷ (more.out ++ rest))) (blank_items 10 refl (more.read rest)));
}
