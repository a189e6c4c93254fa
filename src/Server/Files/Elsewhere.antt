-- ===== src/Server/Files/Elsewhere.antt =====
-- What the calls on the server's disk leave alone.
use project.Prelude.{
  ℕ, ◌≡◌, ◌≢◌, refl, false, none, some, List, [], ◌∷◌, ◌++◌, bytes_eq, bytes_eq→eq, Option,
  Bool-cases, inl, inr, Option-cases,
}
use project.Server.Files.{
  Item, directory, regular, FilePath, Listing, Disk, lookup, modify, mkdir, open_wb, extend, fwrite,
}

-- Every path that does not start with `cwd` leads where it led before.
abbrev pub Untouched : FilePath → Disk → Disk → Type 0
Untouched cwd d d' =
    (p : FilePath) → ((rest : List ℕ) → p ≢ cwd ++ rest) → lookup p d'.items ≡ lookup p d.items

other_path :
    (cwd more p : FilePath) → ((rest : List ℕ) → p ≢ cwd ++ rest) → bytes_eq p (cwd ++ more) ≡ false
other_path cwd more p out = elim (Bool-cases (bytes_eq p (cwd ++ more))) [
  | inl same ↦ absurd (out more (bytes_eq→eq p (cwd ++ more) same))
  | inr other ↦ other
]

pub lookup-append :
    (p q : FilePath) (item : Item) (items : Listing)
    → bytes_eq p q ≡ false
    → lookup p (items ++ (q, item) ∷ []) ≡ lookup p items
unfolding lookup
lookup-append p q item [] other = rw other
lookup-append p q item ((r, old) ∷ items) other = elim (Bool-cases (bytes_eq p r)) [
  | inl same ↦ rw (same, lookup)
  | inr differs ↦ rw (differs, lookup) (lookup-append p q item items other)
]

pub lookup-modify :
    (f : Item → Item) (p q : FilePath) (items : Listing)
    → bytes_eq p q ≡ false
    → lookup p (modify f q items) ≡ lookup p items
unfolding lookup modify
lookup-modify f p q [] other = refl
lookup-modify f p q ((r, old) ∷ items) other = elim (Bool-cases (bytes_eq q r)) [
  | inl same ↦
      let missed : bytes_eq p r ≡ false = rw (bytes_eq→eq q r same) at other in
      rw (same, modify) (rw (missed, lookup))
  | inr differs ↦ elim (Bool-cases (bytes_eq p r)) [
    | inl here ↦ rw (differs, modify) (rw (here, lookup))
    | inr past ↦ rw (differs, modify) (rw (past, lookup) (lookup-modify f p q items other))
  ]
]

pub mkdir-Untouched : (cwd more : FilePath) (d : Disk) → Untouched cwd d (mkdir (cwd ++ more) d).1
unfolding mkdir
mkdir-Untouched cwd more d p out = elim (Option-cases (lookup (cwd ++ more) d.items)) [
  | inr (item, there) ↦ rw (there, mkdir)
  | inl absent ↦ elim (Bool-cases (d.denied (cwd ++ more))) [
    | inl no_right ↦ rw (absent, no_right, mkdir)
    | inr allowed ↦
        rw (absent, allowed, mkdir)
          (lookup-append p (cwd ++ more) directory d.items (other_path cwd more p out))
  ]
]

-- Of the disk behind an `fopen` that succeeds.
abbrev pub IfOpened : FilePath → Disk → Option Disk → Type 0
IfOpened cwd d none = Unit
IfOpened cwd d (some d') = Untouched cwd d d'

pub open_wb-Untouched : (cwd more : FilePath) (d : Disk) → IfOpened cwd d (open_wb (cwd ++ more) d)
unfolding open_wb
open_wb-Untouched cwd more d = elim (Bool-cases (d.denied (cwd ++ more))) [
  | inl no_right ↦ rw (no_right, open_wb) tt
  | inr allowed ↦ elim (Option-cases (lookup (cwd ++ more) d.items)) [
    | inl absent ↦
        rw (allowed, absent, open_wb)
          (λ p out. lookup-append p (cwd ++ more) (regular []) d.items (other_path cwd more p out))
    | inr (directory, there) ↦ rw (allowed, there, open_wb) tt
    | inr (regular bytes, there) ↦
        rw (allowed, there, open_wb)
          (λ p out. lookup-modify _ p (cwd ++ more) d.items (other_path cwd more p out))
  ]
]

pub fwrite-Untouched :
    (cwd more : FilePath) (bytes : List ℕ) (d : Disk)
    → Untouched cwd d (fwrite (cwd ++ more) bytes d)
unfolding fwrite
fwrite-Untouched cwd more bytes d p out =
    lookup-modify (extend bytes) p (cwd ++ more) d.items (other_path cwd more p out)
