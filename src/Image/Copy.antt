-- ===== src/Image/Copy.antt =====
-- `pad`, `copy_memory`, `print_memory_info` and `write_raw_image` of
-- kernel/executable/winpmem.cpp. A result 1 is `ok`, and 0 or -1 is `err`. Addresses are the
-- __int64 that are not negative. What is printed is left out.
pub mod Range
pub mod Written
pub mod Flat
pub mod Ends
pub mod Unread
use project.Prelude.{
  ℕ, zero, suc, ◌+◌, ◌-◌, ◌^◌, ◌%◌, min, Bool, true, false, Option, none, some, List, [], ◌∷◌,
  length, replicate, ltb, ◌==◌, if◌then◌else◌, Status, ok, err, no_fuel,
}
use project.Image.Device.{Run, run_end, buff_size, WinPmem, write_out, close_out}

-- `out_offset += bytes_written`
abbrev pub advance : ℕ → WinPmem → WinPmem
advance n w = record w { out_offset = (w.out_offset + n) % 2 ^ 64 }

-- The loop of `pad`; the count bounds its rounds, one of which writes at least a byte.
unfoldable pub pad_loop : ℕ → ℕ → WinPmem → Status × WinPmem
pad_loop zero left w = (no_fuel, w)
pad_loop (suc n) zero w = (ok, w)
pad_loop (suc n) (suc left) w =
    let to_write = min buff_size (suc left) in
    let (result, w') = write_out (replicate to_write 0) w in
    elim result [
      | none ↦ (err, w')
      | some count ↦ elim (count == to_write) [
        | true ↦ pad_loop n (suc left - count) (advance count w')
        | false ↦ (err, w')
      ]
    ]

unfoldable pub pad : ℕ → WinPmem → Status × WinPmem
unfolding pad_loop
pad left w = pad_loop (suc left) left w

-- One round of `copy_memory`: seek, read, write.
unfoldable pub copy_round : ℕ → ℕ → WinPmem → Status × WinPmem
unfolding write_out
copy_round start to_write w =
    if w.device.seek start
    then (elim (w.device.read start to_write) [
      | none ↦ (err, w)
      | some bytes ↦
          if length bytes == to_write
          then (let (result, w') = write_out bytes w in
              elim result [
                | none ↦ (err, w')
                | some count ↦ if count == length bytes then (ok, advance count w') else (err, w')
              ])
          else (err, w)
    ])
    else (err, w)

unfoldable pub copy_loop : ℕ → ℕ → ℕ → WinPmem → Status × WinPmem
unfolding copy_round
copy_loop zero start stop w = (no_fuel, w)
copy_loop (suc n) start stop w = elim (ltb start stop) [
  | false ↦ (ok, w)
  | true ↦
      let to_write = min buff_size (stop - start) in
      let (r, w') = copy_round start to_write w in
      elim r [ ok ↦ copy_loop n (start + to_write) stop w' | other ↦ (other, w') ]
]

-- The region is cut at the top of physical memory.
unfoldable pub copy_memory : ℕ → ℕ → WinPmem → Status × WinPmem
unfolding copy_loop
copy_memory start stop w =
    let top = w.max_physical_memory in
    let stop' = if ltb top stop then top else stop in
    if ltb top start then (err, w) else copy_loop (suc (stop' - start)) start stop' w

-- What `print_memory_info` keeps: the end of the last range it prints.
unfoldable pub print_memory_info : List Run → WinPmem → WinPmem
print_memory_info [] w = w
print_memory_info (r ∷ runs) w =
    print_memory_info runs (record w { max_physical_memory = run_end r })

-- The zeros between two ranges.
unfoldable pub pad_gap : ℕ → ℕ → WinPmem → Status × WinPmem
unfolding pad
pad_gap current base w = if ltb current base then pad (base - current) w else (ok, w)

-- The loop over the ranges. The result of `copy_memory` is not looked at.
unfoldable pub write_runs : List Run → ℕ → WinPmem → Status × WinPmem
unfolding pad_gap copy_memory
write_runs [] current w = (ok, w)
write_runs (r ∷ runs) current w =
    let (status, w') = pad_gap current r.base_address w in
    let (ignored, w'') = copy_memory r.base_address (run_end r) w' in
    elim status [ ok ↦ write_runs runs (run_end r) w'' | other ↦ (other, w') ]

abbrev finish : Status × WinPmem → Status × WinPmem
finish r = (r.0, close_out r.1)

unfoldable pub write_raw_image : WinPmem → Status × WinPmem
unfolding write_runs print_memory_info close_out
write_raw_image w = finish (elim w.out_fd [
  | none ↦ (err, w)
  | some image ↦ elim w.device.get_info [
    | none ↦ (err, w)
    | some runs ↦ write_runs runs 0 (print_memory_info runs w)
  ]
])
