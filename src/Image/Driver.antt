-- ===== src/Image/Driver.antt =====
-- `set_driver_filename`, `extract_file_`, `extract_driver`, `install_driver` and `uninstall_driver`
-- of kernel/executable/winpmem.cpp. A result 1 is `ok`, and 0 or -1 is `err`.
pub mod Cleanup
use project.Prelude.{
  ℕ, suc, ◌+◌, ◌-◌, Bool, true, false, not, Option, none, some, List, [], ◌∷◌, bytes_eq,
  if◌then◌else◌, Status, ok, err,
}

-- What `CreateService` and `StartService` answer.
pub data Created : Type 0 where
  created service_exists not_created : Created

pub data Started : Type 0 where
  started already_running not_started : Started

-- The answers of the operating system to one run.
pub record System : Type 0 where
  -- `GetNativeSystemInfo`, as `WinPmemFactory` reads it: AMD64, or INTEL
  pub is_64 : Bool
  pub temp_path : Bool
  -- whether `GetTempFileName` makes its file, and what its buffer holds behind the call
  pub temp_made : Bool
  pub temp_name : List ℕ
  -- what the buffer of `GetFullPathName` holds behind the call
  pub full_path : List ℕ → List ℕ
  -- `FindResource`, `LoadResource` and `LockResource`
  pub resource : Bool
  pub creates_driver : Bool
  pub writes_driver : Bool
  -- `OpenSCManager`, in `uninstall_driver` and in `install_driver`
  pub manager_to_remove : Bool
  pub manager : Bool
  -- `OpenService` in `install_driver`
  pub service : Bool
  pub create_service : Created
  pub start_service : Started
  pub opens_device : Bool
  -- `DeleteFile`
  pub deletes : Bool

-- The members of `WinPmem` that the driver's installation reads and writes, with the driver files on
-- the disk and the number of service handles that are open.
pub record Loader : Type 0 where
  pub driver_filename : Option (List ℕ)
  pub driver_is_tempfile : Bool
  pub default_mode : ℕ
  pub fd : Bool
  pub drivers : List (List ℕ)
  pub handles : ℕ

unfoldable pub set_driver_filename : System → Option (List ℕ) → Loader → Loader
set_driver_filename sys none l = record l { driver_filename = none }
set_driver_filename sys (some name) l = record l { driver_filename = some (sys.full_path name) }

-- The files without that of the name.
unfoldable pub delete_file : List ℕ → List (List ℕ) → List (List ℕ)
delete_file p [] = []
delete_file p (q ∷ files) =
    let rest = delete_file p files in if bytes_eq p q then rest else q ∷ rest

unfoldable pub extract_file : System → List ℕ → Loader → Status × Loader
unfolding delete_file
extract_file sys name l =
    let l' = record l { drivers = name ∷ delete_file name l.drivers } in
    if sys.resource
    then (if sys.creates_driver
        then (if sys.writes_driver then (ok, l') else (err, l'))
        else (err, l))
    else (err, l)

-- The temporary file's name, if none is set. The result of `GetTempFileName` is not looked at.
unfoldable pub choose_name : System → Loader → Option Loader
unfolding set_driver_filename delete_file
choose_name sys l = elim l.driver_filename [
  | some name ↦ some l
  | none ↦
      if sys.temp_path
      then some (
          set_driver_filename sys (some sys.temp_name) (record l {
            driver_is_tempfile = true;
            drivers =
                if sys.temp_made
                then sys.temp_name ∷ delete_file sys.temp_name l.drivers
                else l.drivers;
          }))
      else none
]

-- `WinPmem64::extract_driver` and `WinPmem32::extract_driver`
unfoldable pub extract_driver : System → Loader → Status × Loader
unfolding choose_name extract_file
extract_driver sys l =
    let l' = record l { default_mode = if sys.is_64 then 2 else 1 } in
    elim (choose_name sys l') [
      | none ↦ (err, l')
      | some named ↦ elim named.driver_filename [
        | none ↦ (err, named)
        | some name ↦ extract_file sys name named
      ]
    ]

-- The handle of the manager is never closed: the call stands behind the return.
unfoldable pub uninstall_driver : System → Loader → Status × Loader
uninstall_driver sys l =
    if sys.manager_to_remove then (ok, record l { handles = suc l.handles }) else (err, l)

-- `CreateService`, or `OpenService` if it is there already.
abbrev pub has_service : System → Bool
has_service sys = elim sys.create_service [
  | created ↦ true
  | service_exists ↦ sys.service
  | not_created ↦ false
]

abbrev pub is_running : System → Bool
is_running sys = elim sys.start_service [
  | started ↦ true
  | already_running ↦ true
  | not_started ↦ false
]

-- From `OpenSCManager` to the label `error`. Where there is no service the manager's handle stays
-- open, and where the device does not open the status is 1 all the same.
unfoldable pub load_driver : System → Loader → Status × Loader
load_driver sys l =
    if sys.manager
    then (if has_service sys
        then (if is_running sys then (ok, record l { fd = sys.opens_device }) else (err, l))
        else (err, record l { handles = suc l.handles }))
    else (err, l)

-- Behind the label `error`. The result of `DeleteFile` is not looked at.
unfoldable pub remove_temporary : System → Loader → Loader
unfolding delete_file
remove_temporary sys l =
    if l.driver_is_tempfile
    then (elim l.driver_filename [
      | none ↦ l
      | some name ↦ record l {
        drivers = if sys.deletes then delete_file name l.drivers else l.drivers;
      }
    ])
    else l

-- What follows the extraction.
unfoldable pub install_extracted : System → Status × Loader → Status × Loader
unfolding uninstall_driver load_driver remove_temporary
install_extracted sys (ok, l) =
    let (status, l') = load_driver sys (uninstall_driver sys l).1 in
    (status, remove_temporary sys l')
install_extracted sys (other, l) = (err, remove_temporary sys l)

unfoldable pub install_driver : System → Loader → Status × Loader
unfolding extract_driver install_extracted
install_driver sys l = install_extracted sys (extract_driver sys l)
