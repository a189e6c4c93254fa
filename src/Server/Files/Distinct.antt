-- ===== src/Server/Files/Distinct.antt =====
-- The listing of the server's disk has a path once at most, and its operations keep that.
use project.Prelude.{
  ℕ, ◌≡◌, refl, ◌∙◌, true, false, none, some, List, [], ◌∷◌, ◌++◌, bytes_eq, Option, bytes_eq→eq,
  bytes_eq_refl, Bool-cases, inl, inr, Option-cases,
}
use project.Server.Files.Elsewhere.{lookup-append, lookup-modify}
use project.Server.Files.{
  Item, directory, regular, FilePath, Listing, Disk, lookup, modify, mkdir, open_wb, extend, fwrite,
}

-- No path stands for two items.
unfoldable pub IsDistinct : Listing → Type 0
unfolding lookup
IsDistinct [] = Unit
IsDistinct ((p, item) ∷ items) = (lookup p items ≡ none) × IsDistinct items

bytes_eq_sym : (a b : List ℕ) → bytes_eq a b ≡ false → bytes_eq b a ≡ false
bytes_eq_sym a b other = elim (Bool-cases (bytes_eq b a)) [
  | inr differs ↦ differs
  | inl same ↦
      let now : bytes_eq a a ≡ false = rw (bytes_eq→eq b a same) at other in
      let itself : bytes_eq a a ≡ true = bytes_eq_refl a in cc
]

lookup_past :
    (p q : FilePath) (old : Item) (items : Listing)
    → lookup p ((q, old) ∷ items) ≡ none
    → (bytes_eq p q ≡ false) × (lookup p items ≡ none)
unfolding lookup
lookup_past p q old items h = elim (Bool-cases (bytes_eq p q)) [
  | inl same ↦ let found : some old ≡ none = rw (same, lookup) at h in cc
  | inr differs ↦ (differs, rw (differs, lookup) at h)
]

append-IsDistinct :
    (p : FilePath) (item : Item) (items : Listing)
    → lookup p items ≡ none
    → IsDistinct items
    → IsDistinct (items ++ (p, item) ∷ [])
unfolding IsDistinct lookup
append-IsDistinct p item [] h d = (refl, tt)
append-IsDistinct p item ((q, old) ∷ items) h (fresh, d) =
    let (differs, later) = lookup_past p q old items h in
    (
      lookup-append q p item items (bytes_eq_sym p q differs) ∙ fresh,
      append-IsDistinct p item items later d,
    )

modify-IsDistinct :
    (f : Item → Item) (p : FilePath) (items : Listing)
    → IsDistinct items
    → IsDistinct (modify f p items)
unfolding IsDistinct modify
modify-IsDistinct f p [] d = tt
modify-IsDistinct f p ((q, old) ∷ items) (fresh, d) = elim (Bool-cases (bytes_eq p q)) [
  | inl same ↦ rw (same, modify) (fresh, d)
  | inr differs ↦
      rw (differs, modify)
        (
          lookup-modify f q p items (bytes_eq_sym p q differs) ∙ fresh,
          modify-IsDistinct f p items d,
        )
]

abbrev pub IsDistinctDisk : Disk → Type 0
IsDistinctDisk d = IsDistinct d.items

pub mkdir-IsDistinct : (p : FilePath) (d : Disk) → IsDistinctDisk d → IsDistinctDisk (mkdir p d).1
unfolding mkdir
mkdir-IsDistinct p d distinct = elim (Option-cases (lookup p d.items)) [
  | inr (item, there) ↦ rw (there, mkdir) distinct
  | inl absent ↦ elim (Bool-cases (d.denied p)) [
    | inl no_right ↦ rw (absent, no_right, mkdir) distinct
    | inr allowed ↦
        rw (absent, allowed, mkdir) (append-IsDistinct p directory d.items absent distinct)
  ]
]

-- Of the disk behind an `fopen` that succeeds.
abbrev IfOpened : Option Disk → Type 0
IfOpened none = Unit
IfOpened (some d) = IsDistinctDisk d

open_wb-IsDistinct : (p : FilePath) (d : Disk) → IsDistinctDisk d → IfOpened (open_wb p d)
unfolding open_wb
open_wb-IsDistinct p d distinct = elim (Bool-cases (d.denied p)) [
  | inl no_right ↦ rw (no_right, open_wb) tt
  | inr allowed ↦ elim (Option-cases (lookup p d.items)) [
    | inl absent ↦
        rw (allowed, absent, open_wb) (append-IsDistinct p (regular []) d.items absent distinct)
    | inr (directory, there) ↦ rw (allowed, there, open_wb) tt
    | inr (regular bytes, there) ↦
        rw (allowed, there, open_wb) (modify-IsDistinct _ p d.items distinct)
  ]
]

pub opened-IsDistinct :
    (p : FilePath) (d d' : Disk) → open_wb p d ≡ some d' → IsDistinctDisk d → IsDistinctDisk d'
opened-IsDistinct p d d' opened distinct = rw opened at (open_wb-IsDistinct p d distinct)

pub fwrite-IsDistinct :
    (p : FilePath) (bytes : List ℕ) (d : Disk)
    → IsDistinctDisk d
    → IsDistinctDisk (fwrite p bytes d)
unfolding fwrite
fwrite-IsDistinct p bytes d distinct = modify-IsDistinct (extend bytes) p d.items distinct
