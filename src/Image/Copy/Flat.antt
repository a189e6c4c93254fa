-- ===== src/Image/Copy/Flat.antt =====
-- The image that `write_raw_image` of kernel/executable/winpmem.cpp writes, against the address
-- space.
use project.Prelude.{
  ℕ, ◌-◌, ◌≤◌, ◌≡◌, refl, ap, none, some, List, [], ◌∷◌, ◌++◌, replicate, ltb, ok, arith,
  Bool-cases, inl, inr,
}
use project.Image.Device.{Run, run_end, WinPmem, close_out}
use project.Image.Copy.{copy_memory, print_memory_info, pad_gap, write_runs, write_raw_image}
use project.Image.Copy.Range.{range, flat, pieces, IsOrdered, top_of, current-top_of, pieces-flat}
use project.Image.Copy.Written.{
  IsReady, Wrote, Wrote-IsReady, Wrote-nil, Wrote-trans, pad-Wrote, copy_memory-Wrote,
}

pub print_memory_info_lem :
    (runs : List Run) (w : WinPmem)
    → print_memory_info runs w
      ≡ record w { max_physical_memory = top_of w.max_physical_memory runs }
unfolding print_memory_info
print_memory_info_lem [] w = refl
print_memory_info_lem (r ∷ runs) w =
    print_memory_info_lem runs (record w { max_physical_memory = run_end r })

pub pad_gap-Wrote :
    (current base : ℕ) (image : List ℕ) (w : WinPmem)
    → w.out_fd ≡ some image
    → ((k n : ℕ) → w.written k n ≡ some n)
    → Wrote (replicate (base - current) 0) image w (pad_gap current base w)
unfolding pad_gap
pad_gap-Wrote current base image w e takes = elim (Bool-cases (ltb current base)) [
  | inl gap ↦ rw (gap, pad_gap) (pad-Wrote (base - current) image w e takes)
  | inr close ↦
      let none_left : base - current ≡ 0 = ground arith in
      rw (close, none_left, pad_gap) (unfold replicate in Wrote-nil image w e)
]

module _ (memory : ℕ → ℕ) where
  write_runs-Wrote :
      (runs : List Run) (current : ℕ) (image : List ℕ) (w : WinPmem)
      → IsOrdered current runs
      → top_of current runs ≤ w.max_physical_memory
      → w.out_fd ≡ some image
      → IsReady memory w
      → Wrote (pieces memory current runs) image w (write_runs runs current w)
  unfolding write_runs pieces
  write_runs-Wrote [] current image w h le e ready = Wrote-nil image w e
  write_runs-Wrote (r ∷ runs) current image w (lo, h) le e ready =
      let base : ℕ = r.base_address in
      let n : ℕ = r.number_of_bytes in
      let zeros : List ℕ = replicate (base - current) 0 in
      let bytes : List ℕ = range memory base n in
      let high = current-top_of (run_end r) runs h in
      let gap = pad_gap-Wrote current base image w e ready.takes in
      let w1 : WinPmem = (pad_gap current base w).1 in
      let ready1 = Wrote-IsReady gap ready in
      let copied =
        copy_memory-Wrote memory base n (image ++ zeros) w1 (rw gap.top (omega arith)) gap.out_fd
          ready1 in
      let w2 : WinPmem = (copy_memory base (run_end r) w1).1 in
      let rest =
        write_runs-Wrote runs (run_end r) ((image ++ zeros) ++ bytes) w2 h
          (rw (copied.top, gap.top) le) copied.out_fd (Wrote-IsReady copied ready1) in
      let later = Wrote-trans copied rest refl refl refl refl in
      let all = Wrote-trans gap later refl refl refl refl in rw (gap.status, write_runs) all

-- The driver lists runs in order and without overlap, every read gives the memory's bytes, every
-- write goes through, and the output file is open and empty: `write_raw_image` returns 1 and
-- closes one image, whose byte at each offset up to the end of the last run is the byte of
-- physical memory at that address, or 0 where no run covers the address.
pub write_raw_image-flat :
    (memory : ℕ → ℕ) (runs : List Run) (w : WinPmem)
    → w.device.get_info ≡ some runs
    → w.max_physical_memory ≡ 0
    → IsOrdered 0 runs
    → w.out_fd ≡ some []
    → IsReady memory w
    → ((write_raw_image w).0 ≡ ok)
      × ((write_raw_image w).1.out_fd ≡ none)
      × ((write_raw_image w).1.closed ≡ w.closed ++ range (flat memory runs) 0 (top_of 0 runs) ∷ [])
unfolding write_raw_image
write_raw_image-flat memory runs w info empty h e ready =
    let w' : WinPmem = print_memory_info runs w in
    let wrote : Wrote (pieces memory 0 runs) [] w' (write_runs runs 0 w') =
      rw (print_memory_info_lem runs w, empty)
        (write_runs-Wrote memory runs 0 [] (record w { max_physical_memory = top_of 0 runs }) h
          (omega arith) e
          (record { seeks = ready.seeks; reads = ready.reads; takes = ready.takes })) in
    let all : top_of 0 runs - 0 ≡ top_of 0 runs = omega arith in
    let kept : w'.closed ≡ w.closed = ap (λ v. v.closed) (print_memory_info_lem runs w) in
    rw (e, info, write_raw_image)
      (
        wrote.status,
        rw (wrote.out_fd, close_out) refl,
        rw (wrote.out_fd, close_out) (rw (wrote.closed, kept, pieces-flat memory 0 runs h, all)),
      )
