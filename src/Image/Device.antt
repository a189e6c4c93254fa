-- ===== src/Image/Device.antt =====
-- The state of the class `WinPmem` of kernel/executable/winpmem.cpp, and the two files that it
-- works on: the driver's device and the image.
use project.Prelude.{
  ℕ, suc, ◌+◌, ◌*◌, min, Bool, false, Option, none, some, List, [], ◌∷◌, ◌++◌, length, take,
}

abbrev pub buff_size : ℕ
buff_size = 4096 * 4096

-- `PHYSICAL_MEMORY_RANGE`
pub record Run : Type 0 where
  pub base_address : ℕ
  pub number_of_bytes : ℕ

abbrev pub run_end : Run → ℕ
run_end r = r.base_address + r.number_of_bytes

-- The device: each answer is what one call gives, by the number of the call; `none` where it fails.
pub record Device : Type 0 where
  -- `IOCTL_GET_INFO`
  pub get_info : Option (List Run)
  -- `IOCTL_SET_MODE`
  pub set_mode : ℕ → Bool
  -- `SetFilePointerEx` to an address
  pub seek : ℕ → Bool
  -- `ReadFile` of a number of bytes from an address
  pub read : ℕ → ℕ → Option (List ℕ)

-- The output file: how many bytes the n-th `WriteFile` takes.
pub record WinPmem : Type 0 where
  pub device : Device
  -- `out_fd_`: none is `INVALID_HANDLE_VALUE`, and some is what was written
  pub out_fd : Option (List ℕ)
  pub written : ℕ → ℕ → Option ℕ
  -- how many calls of `WriteFile` there were, and the images closed so far
  pub clock : ℕ
  pub closed : List (List ℕ)
  pub out_offset : ℕ
  pub max_physical_memory : ℕ
  pub mode : ℕ
  pub suppress_output : Bool

-- The new state's `CreateFile` and `WriteFile` are parameters of the run.
abbrev pub new_win_pmem : Device → (ℕ → ℕ → Option ℕ) → WinPmem
new_win_pmem device written = record {
  device = device;
  out_fd = none;
  written = written;
  clock = 0;
  closed = [];
  out_offset = 0;
  max_physical_memory = 0;
  mode = 1;
  suppress_output = false;
}

-- `WriteFile(out_fd_, bytes, length, &bytes_written, NULL)`: what it says it wrote.
unfoldable pub write_out : List ℕ → WinPmem → Option ℕ × WinPmem
write_out bytes w = elim w.out_fd [
  | none ↦ (none, record w { clock = suc w.clock })
  | some image ↦ elim (w.written w.clock (length bytes)) [
    | none ↦ (none, record w { clock = suc w.clock })
    | some n ↦ (
      some (min n (length bytes)),
      record w { clock = suc w.clock; out_fd = some (image ++ take n bytes) },
    )
  ]
]

-- `CloseHandle(out_fd_); out_fd_ = INVALID_HANDLE_VALUE;`
unfoldable pub close_out : WinPmem → WinPmem
close_out w = elim w.out_fd [
  | none ↦ w
  | some image ↦ record w { out_fd = none; closed = w.closed ++ image ∷ [] }
]
