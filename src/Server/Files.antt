-- ===== src/Server/Files.antt =====
-- The server's file system as server_linux/server.cpp uses it: `mkdir`, `fopen(_, "wb")` and
-- `fwrite`. Paths are texts, and two texts are two paths: what "..", "//" or a link makes of them is
-- not represented. `denied` says where the system refuses to create or to open. `fwrite` stores all
-- that it is given: a disk that is full, of which the program would not notice, is not represented.
pub mod Laws
pub mod Elsewhere
pub mod Distinct
use project.Prelude.{Bool, Option, none, some, List, [], ◌∷◌, ◌++◌, ℕ, bytes_eq, if◌then◌else◌}

pub data Item : Type 0 where
  directory : Item
  regular : List ℕ → Item

abbrev pub FilePath : Type 0
FilePath = List ℕ

abbrev pub Listing : Type 0
Listing = List (FilePath × Item)

pub record Disk : Type 0 where
  -- in the order of creation
  pub items : Listing
  pub denied : FilePath → Bool

unfoldable pub lookup : FilePath → Listing → Option Item
lookup p [] = none
lookup p ((q, item) ∷ items) = if bytes_eq p q then some item else lookup p items

-- The first entry of the path, changed.
unfoldable pub modify : (Item → Item) → FilePath → Listing → Listing
modify f p [] = []
modify f p ((q, item) ∷ items) =
    let rest = modify f p items in if bytes_eq p q then (q, f item) ∷ items else (q, item) ∷ rest

pub data Made : Type 0 where
  made exists refused : Made

abbrev create : FilePath → Item → Disk → Disk
create p item d = record d { items = d.items ++ (p, item) ∷ [] }

unfoldable pub mkdir : FilePath → Disk → Made × Disk
mkdir p d = elim (lookup p d.items) [
  | some item ↦ (exists, d)
  | none ↦ if d.denied p then (refused, d) else (made, create p directory d)
]

abbrev truncate : Item → Item
truncate directory = directory
truncate (regular bytes) = regular []

-- A regular file is emptied, and a new one is empty; `none` is a null pointer.
unfoldable pub open_wb : FilePath → Disk → Option Disk
open_wb p d = if d.denied p then none else (elim (lookup p d.items) [
  | some directory ↦ none
  | some (regular bytes) ↦ some (record d { items = modify truncate p d.items })
  | none ↦ some (create p (regular []) d)
])

abbrev pub extend : List ℕ → Item → Item
extend bytes directory = directory
extend bytes (regular old) = regular (old ++ bytes)

unfoldable pub fwrite : FilePath → List ℕ → Disk → Disk
fwrite p bytes d = record d { items = modify (extend bytes) p d.items }
