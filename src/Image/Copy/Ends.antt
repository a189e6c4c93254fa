-- ===== src/Image/Copy/Ends.antt =====
-- How the functions of kernel/executable/winpmem.cpp that write the image end, whatever the driver
-- and the file system answer.
use project.Prelude.{
  ℕ, zero, suc, ◌+◌, ◌-◌, ◌<◌, ◌≡◌, min, refl, Option, none, some, List, [], ◌∷◌, length, replicate,
  ltb, if◌then◌else◌, ◌==◌, Status, ok, err, arith, Bool-cases, Option-cases, inl, inr, ◌⊎◌,
}
use project.Image.Device.{Run, run_end, buff_size, WinPmem, write_out, close_out}
use project.Image.Copy.{
  pad_loop, pad, copy_round, copy_loop, copy_memory, print_memory_info, pad_gap, write_runs,
  write_raw_image,
}

-- 1, or what the functions return where a call fails.
pub data Returns : Status → Type 0 where
  success : Returns ok
  failed : Returns err

-- `elim` on this keeps the equation.
Returns-cases : {s : Status} → Returns s → (s ≡ ok) ⊎ (s ≡ err)
Returns-cases success = inl refl
Returns-cases failed = inr refl

module _ (n left : ℕ) (w : WinPmem) where
  pad_round :
      (r : Option ℕ × WinPmem)
      → ((w' : WinPmem) → Returns (pad_loop n (suc left - min buff_size (suc left)) w').0)
      → write_out (replicate (min buff_size (suc left)) 0) w ≡ r
      → Returns (pad_loop (suc n) (suc left) w).0
  unfolding pad_loop
  pad_round (none, w') h e = rw (e, pad_loop) failed
  pad_round (some count, w') h e = elim (Bool-cases (count == min buff_size (suc left))) [
    | inl full ↦
        let same : count ≡ min buff_size (suc left) = ground arith in
        rw (e, full, pad_loop) (rw same (h _))
    | inr short ↦ rw (e, short, pad_loop) failed
  ]

pad_loop-Returns : (n left : ℕ) (w : WinPmem) → left < n → Returns (pad_loop n left w).0
unfolding pad_loop
pad_loop-Returns zero left w lt = absurd (omega arith)
pad_loop-Returns (suc n) zero w lt = success
pad_loop-Returns (suc n) (suc left) w lt =
    pad_round n left w (write_out (replicate (min buff_size (suc left)) 0) w)
      (λ w'. pad_loop-Returns n (suc left - min buff_size (suc left)) w' (omega arith)) refl

pad_gap-Returns : (current base : ℕ) (w : WinPmem) → Returns (pad_gap current base w).0
unfolding pad_gap pad
pad_gap-Returns current base w = elim (Bool-cases (ltb current base)) [
  | inl gap ↦
      rw (gap, pad_gap) (pad_loop-Returns (suc (base - current)) (base - current) w (omega arith))
  | inr close ↦ rw (close, pad_gap) success
]

copy_round-Returns : (start n : ℕ) (w : WinPmem) → Returns (copy_round start n w).0
unfolding copy_round
copy_round-Returns start n w = elim (Bool-cases (w.device.seek start)) [
  | inr lost ↦ rw (lost, copy_round) failed
  | inl found ↦ elim (Option-cases (w.device.read start n)) [
    | inl unread ↦ rw (found, unread, copy_round) failed
    | inr (bytes, got) ↦ elim (Bool-cases (length bytes == n)) [
      | inr short ↦ rw (found, got, short, copy_round) failed
      | inl full ↦ elim (Option-cases (write_out bytes w).0) [
        | inl refused ↦ rw (found, got, full, refused, copy_round) failed
        | inr (count, taken) ↦ elim (Bool-cases (count == length bytes)) [
          | inr part ↦ rw (found, got, full, taken, part, copy_round) failed
          | inl whole ↦ rw (found, got, full, taken, whole, copy_round) success
        ]
      ]
    ]
  ]
]

copy_loop-Returns :
    (n start stop : ℕ) (w : WinPmem) → stop - start < n → Returns (copy_loop n start stop w).0
unfolding copy_loop
copy_loop-Returns zero start stop w lt = absurd (omega arith)
copy_loop-Returns (suc n) start stop w lt = elim (Bool-cases (ltb start stop)) [
  | inr done ↦ rw (done, copy_loop) success
  | inl more ↦
      let left : start < stop = ground arith in
      let to_write : ℕ = min buff_size (stop - start) in
      elim (Returns-cases (copy_round-Returns start to_write w)) [
        | inl done ↦
            rw (more, done, copy_loop)
              (copy_loop-Returns n (start + to_write) stop (copy_round start to_write w).1
                (omega arith))
        | inr lost ↦ rw (more, lost, copy_loop) failed
      ]
]

-- Whatever the device and the image file answer, `copy_memory` returns 1 or 0: the rounds that it is
-- given are enough.
pub copy_memory-Returns : (start stop : ℕ) (w : WinPmem) → Returns (copy_memory start stop w).0
unfolding copy_memory
copy_memory-Returns start stop w =
    let top : ℕ = w.max_physical_memory in
    let cut : ℕ = if ltb top stop then top else stop in
    elim (Bool-cases (ltb w.max_physical_memory start)) [
      | inl beyond ↦ rw (beyond, copy_memory) failed
      | inr within ↦
          rw (within, copy_memory) (copy_loop-Returns (suc (cut - start)) start cut w (omega arith))
    ]

write_runs-Returns :
    (runs : List Run) (current : ℕ) (w : WinPmem) → Returns (write_runs runs current w).0
unfolding write_runs
write_runs-Returns [] current w = success
write_runs-Returns (r ∷ runs) current w =
    elim (Returns-cases (pad_gap-Returns current r.base_address w)) [
      | inl done ↦
          rw (done, write_runs)
            (write_runs-Returns runs (run_end r)
              (copy_memory r.base_address (run_end r) (pad_gap current r.base_address w).1).1)
      | inr lost ↦ rw (lost, write_runs) failed
    ]

closes : (w : WinPmem) → (close_out w).out_fd ≡ none
unfolding close_out
closes w = ground arith

-- Whatever the device and the image file answer, `write_raw_image` returns 1 or -1, and the image is
-- closed.
pub write_raw_image-Returns :
    (w : WinPmem) → Returns (write_raw_image w).0 × ((write_raw_image w).1.out_fd ≡ none)
unfolding write_raw_image
write_raw_image-Returns w = elim (Option-cases w.out_fd) [
  | inl absent ↦ rw (absent, write_raw_image) (failed, closes w)
  | inr (image, there) ↦ elim (Option-cases w.device.get_info) [
    | inl unknown ↦ rw (there, unknown, write_raw_image) (failed, closes w)
    | inr (runs, known) ↦
        rw (there, known, write_raw_image)
          (
            write_runs-Returns runs 0 (print_memory_info runs w),
            closes (write_runs runs 0 (print_memory_info runs w)).1,
          )
  ]
]
