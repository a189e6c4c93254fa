-- ===== src/Client/Files.antt =====
-- The file system as `sendDir` of InfoDumping/InfoDumping.cpp meets it: what each Windows call
-- answers about a path. The calls are not the program's, and any answer is possible.
pub mod Shows
use project.Prelude.{
  ℕ, ◌/◌, ◌%◌, Bool, not, ◌&&◌, ◌||◌, bytes_eq, codes, Option, none, some, List, [], ◌∷◌, ◌==◌,
  if◌then◌else◌,
}

pub record Info : Type 0 where
  -- `GetFileAttributesA`; `none` is INVALID_FILE_ATTRIBUTES
  pub attributes : Option ℕ
  -- `CreateFileA` gives a handle
  pub opens : Bool
  -- `GetFileSizeEx`
  pub file_size : Option ℕ
  -- what `fopen` and `fread` deliver
  pub content : Option (List ℕ)
  -- `SetCurrentDirectoryA` to this path
  pub enters : Bool
  -- `FindFirstFileA` gives a handle
  pub lists : Bool
  -- `SetCurrentDirectoryA` back to the directory that was current before
  pub leaves : Bool
  -- `strerror(errno)`
  pub error_text : List ℕ

-- A path with what `FindFirstFileA` and `FindNextFileA` list in it, "." and ".." included.
mutual
  pub data Node : Type 0 where
    node : Info → Entries → Node

  pub data Entries : Type 0 where
    end : Entries
    entry : List ℕ → Node → Entries → Entries

-- FILE_ATTRIBUTE_NORMAL is 0x80, FILE_ATTRIBUTE_DIRECTORY is 0x10.
unfoldable pub has_normal : ℕ → Bool
has_normal a = a / 128 % 2 == 1

unfoldable pub has_directory : ℕ → Bool
has_directory a = a / 16 % 2 == 1

-- The test by which `sendDir` takes a path for a file.
unfoldable pub sent_as_file : ℕ → Bool
unfolding has_normal has_directory
sent_as_file a = not (has_normal a) && not (has_directory a)

abbrev pub backslash : ℕ
backslash = 92

-- `strrchr(path, '\\') + 1`; `none` where there is no backslash, and the program adds 1 to a null
-- pointer.
unfoldable pub base_name : List ℕ → Option (List ℕ)
base_name [] = none
base_name (c ∷ cs) = elim (base_name cs) [
  | some name ↦ some name
  | none ↦ if c == backslash then some cs else none
]

-- `strcmp(cFileName, ".") == 0 || strcmp(cFileName, "..") == 0`
unfoldable pub is_dots : List ℕ → Bool
is_dots name = bytes_eq name (codes ".") || bytes_eq name (codes "..")
