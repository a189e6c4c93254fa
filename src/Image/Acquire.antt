-- ===== src/Image/Acquire.antt =====
-- `set_acquisition_mode` and `create_output_file` of kernel/executable/winpmem.cpp, and `dump_ram`
-- of InfoDumping/InfoDumping.cpp.
pub mod Dump
use project.Prelude.{
  ℕ, Bool, ◌||◌, true, false, Option, none, some, List, [], codes, bytes_eq, ◌==◌, if◌then◌else◌,
  Status, ok, err,
}
use project.Image.Device.{Device, WinPmem, new_win_pmem}
use project.Image.Driver.{System, Loader, set_driver_filename, install_driver, uninstall_driver}
use project.Image.Copy.{write_raw_image}

-- `PMEM_MODE_IOSPACE`, `PMEM_MODE_PHYSICAL`, `PMEM_MODE_PTE`
abbrev pub mode_iospace : ℕ
mode_iospace = 0

abbrev pub mode_physical : ℕ
mode_physical = 1

abbrev pub mode_pte : ℕ
mode_pte = 2

unfoldable pub set_acquisition_mode : ℕ → WinPmem → Status × WinPmem
set_acquisition_mode mode w =
    if (mode == mode_iospace || mode == mode_physical) || mode == mode_pte
    then (if w.device.set_mode mode then (ok, record w { mode = mode }) else (err, w))
    else (err, w)

-- `opens` is whether `CreateFile` opens the file; the name "-" is the standard output.
unfoldable pub create_output_file : List ℕ → Bool → WinPmem → Status × WinPmem
create_output_file name opens w =
    if bytes_eq name (codes "-")
    then (ok, record w { out_fd = some []; suppress_output = true })
    else (if opens then (ok, record w { out_fd = some [] }) else (err, record w { out_fd = none }))

abbrev pub new_loader : List (List ℕ) → Loader
new_loader drivers = record {
  driver_filename = none;
  driver_is_tempfile = false;
  default_mode = mode_physical;
  fd = false;
  drivers = drivers;
  handles = 0;
}

-- `if ((status) && ...)`: the status -1 of a failed `create_output_file` is not 0 and counts as true,
-- and a status of 1 stays where the driver does not load or the mode is refused.
unfoldable pub acquire : System → List ℕ → Bool → Loader → WinPmem → Status × Loader × WinPmem
unfolding create_output_file install_driver set_acquisition_mode write_raw_image
acquire sys name opens l w =
    let (status, w1) = create_output_file name opens w in
    let (installed, l1) = install_driver sys l in
    let (accepted, w2) = set_acquisition_mode mode_physical w1 in
    let (written, w3) = write_raw_image w2 in
    elim installed [
      | ok ↦ elim accepted [ ok ↦ (written, l1, w3) | _ ↦ (status, l1, w2) ]
      | _ ↦ (status, l1, w1)
    ]

-- `uninstall_driver` and `delete pmem_handle` follow; the destructor closes the device.
unfoldable pub dump_ram :
    System → Device → (ℕ → ℕ → Option ℕ) → List ℕ → Bool → List (List ℕ) → Status × Loader × WinPmem
unfolding acquire uninstall_driver set_driver_filename
dump_ram sys device written name opens drivers =
    let (status, l, w) =
      acquire sys name opens (set_driver_filename sys none (new_loader drivers))
        (new_win_pmem device written) in
    let (ignored, l') = uninstall_driver sys l in (status, record l' { fd = false }, w)
