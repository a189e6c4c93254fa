-- ===== src/Server/Files/Laws.antt =====
-- New paths on the server's disk.
use project.Prelude.{
  ℕ, subst, ◌≡◌, sym, false, none, some, List, [], ◌∷◌, ◌++◌, append_assoc, append-nil, bytes_eq,
  bytes_eq_refl, arith, Bool-cases, inl, inr,
}
use project.Server.Files.{
  Item, directory, regular, FilePath, Listing, Disk, lookup, modify, made, mkdir, open_wb, extend,
  fwrite,
}

-- The disk with a listing added at its end.
abbrev pub with_items : Disk → Listing → Disk
with_items d new = record d { items = d.items ++ new }

-- One after the other, the paths are absent, and the system lets them be created.
abbrev pub IsFresh : Listing → Disk → Type 0
IsFresh [] d = Unit
IsFresh ((p, item) ∷ new) d =
    (lookup p d.items ≡ none) × (d.denied p ≡ false) × IsFresh new (with_items d ((p, item) ∷ []))

pub IsFresh-append :
    (xs ys : Listing) (d : Disk)
    → IsFresh (xs ++ ys) d
    → IsFresh xs d × IsFresh ys (with_items d xs)
IsFresh-append [] ys d h =
    (tt, subst (λ items. IsFresh ys (record d { items = items })) (sym (append-nil d.items)) h)
IsFresh-append ((p, item) ∷ xs) ys d (absent, allowed, h) =
    let (front, back) = IsFresh-append xs ys (with_items d ((p, item) ∷ [])) h in
    (
      (absent, allowed, front),
      subst (λ items. IsFresh ys (record d { items = items }))
          (append_assoc d.items ((p, item) ∷ []) xs) back,
    )

pub mkdir_fresh :
    (p : FilePath) (d : Disk)
    → lookup p d.items ≡ none
    → d.denied p ≡ false
    → mkdir p d ≡ (made, with_items d ((p, directory) ∷ []))
unfolding mkdir
mkdir_fresh p d absent allowed = ground arith

pub open_wb_fresh :
    (p : FilePath) (d : Disk)
    → lookup p d.items ≡ none
    → d.denied p ≡ false
    → open_wb p d ≡ some (with_items d ((p, regular []) ∷ []))
unfolding open_wb
open_wb_fresh p d absent allowed = ground arith

modify-append :
    (f : Item → Item) (p : FilePath) (item : Item) (items : Listing)
    → lookup p items ≡ none
    → modify f p (items ++ (p, item) ∷ []) ≡ items ++ (p, f item) ∷ []
unfolding modify lookup
modify-append f p item [] absent = rw (bytes_eq_refl p)
modify-append f p item ((q, old) ∷ items) absent = elim (Bool-cases (bytes_eq p q)) [
  | inl same ↦ cc (rw same at absent)
  | inr other ↦ rw (other, modify-append f p item items (rw other at absent))
]

-- Writing to the file that was created last.
pub fwrite_last :
    (p : FilePath) (old bytes : List ℕ) (items : Listing) (d : Disk)
    → lookup p items ≡ none
    → d.items ≡ items ++ (p, regular old) ∷ []
    → fwrite p bytes d ≡ record d { items = items ++ (p, regular (old ++ bytes)) ∷ [] }
unfolding fwrite
fwrite_last p old bytes items d absent e =
    rw (e, modify-append (extend bytes) p (regular old) items absent)
