-- ===== src/Client/Round.antt =====
-- The four dumps of one round, as the loop of `_tmain` runs them into a directory (InfoDumping/main.cpp;
-- kernel/executable/main.cpp with empty timestamps), and `DirectoryExists`.
pub mod Apart
pub mod Complete
use project.Prelude.{
  ℕ, Bool, true, false, Option, none, some, List, [], ◌∷◌, ◌++◌, codes, bytes_eq, if◌then◌else◌,
  Status,
}
use project.Image.Device.{Device, WinPmem}
use project.Image.Driver.{System}
use project.Image.Acquire.{dump_ram}
use project.Client.Files.{Node, has_directory}
use project.Client.Registry.{Key}
use project.Client.Registry.Dump.{dump_registries}
use project.Client.Dumps.{Disk, Machine, Shell, put, dump_process_info, dum_net}

-- What the client meets on its machine.
pub record Windows : Type 0 where
  -- `GetFileAttributes`; `none` is INVALID_FILE_ATTRIBUTES
  pub attributes : List ℕ → Option ℕ
  -- `CreateDirectory`
  pub creates : List ℕ → Bool
  -- the external commands, and which files open for writing
  pub shell : Shell
  pub system : System
  pub device : Device
  -- `WriteFile` into the image
  pub written : ℕ → ℕ → Option ℕ
  -- the registry
  pub root : List ℕ → Key
  -- what the Windows calls answer about a directory, from the files that there are
  pub view : List ℕ → Disk → Node

-- What the rounds change: files and commands, the driver files, and the directories that were made.
pub record Station : Type 0 where
  pub machine : Machine
  pub drivers : List (List ℕ)
  pub made : List (List ℕ)

-- `DirectoryExists`
unfoldable pub directory_exists : Option ℕ → Bool
unfolding has_directory
directory_exists none = false
directory_exists (some a) = if has_directory a then true else false

-- The directories that were made; where `CreateDirectory` fails, the program goes on.
unfoldable pub ensure_dir : Windows → List ℕ → List (List ℕ)
unfolding directory_exists
ensure_dir w path =
    if directory_exists (w.attributes path) then [] else if w.creates path then path ∷ [] else []

abbrev pub image_path : List ℕ → List ℕ → List ℕ
image_path dir timestamp = dir ++ (codes "\\ramDump" ++ (timestamp ++ codes ".raw"))

unfoldable pub last : List (List ℕ) → Option (List ℕ)
last [] = none
last (t ∷ []) = some t
last (t ∷ u ∷ ts) = last (u ∷ ts)

-- What is in the image's file: of one that was opened, closed or not.
unfoldable pub stored_image : WinPmem → Option (List ℕ)
unfolding last
stored_image w = elim w.out_fd [ some t ↦ some t | none ↦ last w.closed ]

-- `dump_ram(dir, timestamp)`, whose result is not looked at.
unfoldable pub dump_image : Windows → List ℕ → List ℕ → Station → Station
unfolding dump_ram stored_image
dump_image w dir timestamp st =
    let path = image_path dir timestamp in
    let (ignored, l, pmem) =
      dump_ram w.system w.device w.written path (w.shell.writable path) st.drivers in
    elim (stored_image pmem) [
      | none ↦ record st { drivers = l.drivers }
      | some t ↦ record st { drivers = l.drivers; machine = put path t st.machine }
    ]

unfoldable pub put_files : List (List ℕ × List ℕ) → Machine → Machine
put_files [] m = m
put_files ((path, t) ∷ files) m = put_files files (put path t m)

-- `dump_registries(dir, timestamp)`
unfoldable pub dump_keys : Windows → List ℕ → List ℕ → Station → Status × Station
unfolding dump_registries put_files
dump_keys w dir timestamp st =
    let (r, files) =
      dump_registries dir timestamp w.root
        (λ part. w.shell.writable (dir ++ (part ++ (timestamp ++ codes ".json")))) in
    (r, record st { machine = put_files files st.machine })

-- The calls between "Start dumping" and "End dumping".
unfoldable pub dump_all : Windows → List ℕ → List ℕ → Station → Status × Station
unfolding dump_image dump_process_info dum_net dump_keys
dump_all w dir timestamp st =
    let imaged = dump_image w dir timestamp st in
    let listed = dump_process_info w.shell dir timestamp imaged.machine in
    let m = dum_net w.shell dir timestamp listed in
    dump_keys w dir timestamp (record imaged { machine = m })
