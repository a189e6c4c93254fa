-- ===== src/Image/Copy/Unread.antt =====
-- `write_raw_image` of kernel/executable/winpmem.cpp where the device gives nothing.
use project.Prelude.{
  ℕ, zero, suc, ◌-◌, ◌≡◌, refl, ap, min, false, some, List, [], ◌∷◌, ◌++◌, replicate, ltb,
  if◌then◌else◌, ok, err, Bool-cases, inl, inr,
}
use project.Image.Device.{Run, run_end, buff_size, WinPmem, close_out}
use project.Image.Copy.{
  copy_round, copy_loop, copy_memory, print_memory_info, pad_gap, write_runs, write_raw_image,
}
use project.Image.Copy.Written.{Wrote, Wrote-nil, Wrote-trans}
use project.Image.Copy.Flat.{pad_gap-Wrote, print_memory_info_lem}

-- The zeros between the runs, and no byte of any run.
unfoldable pub gaps : ℕ → List Run → List ℕ
gaps current [] = []
gaps current (r ∷ runs) = replicate (r.base_address - current) 0 ++ gaps (run_end r) runs

copy_round_unread :
    (start n : ℕ) (w : WinPmem)
    → ((a : ℕ) → w.device.seek a ≡ false)
    → copy_round start n w ≡ (err, w)
unfolding copy_round
copy_round_unread start n w lost = rw (lost start, copy_round)

copy_loop_unread :
    (n start stop : ℕ) (w : WinPmem)
    → ((a : ℕ) → w.device.seek a ≡ false)
    → (copy_loop n start stop w).1 ≡ w
unfolding copy_loop
copy_loop_unread zero start stop w lost = refl
copy_loop_unread (suc n) start stop w lost = elim (Bool-cases (ltb start stop)) [
  | inl more ↦
      let e = copy_round_unread start (min buff_size (stop - start)) w lost in
      rw (more, e, copy_loop) (ap (λ r. r.1) e)
  | inr done ↦ rw (done, copy_loop)
]

copy_memory_unread :
    (start stop : ℕ) (w : WinPmem)
    → ((a : ℕ) → w.device.seek a ≡ false)
    → (copy_memory start stop w).1 ≡ w
unfolding copy_memory
copy_memory_unread start stop w lost =
    let top : ℕ = w.max_physical_memory in
    let cut : ℕ = if ltb top stop then top else stop in
    elim (Bool-cases (ltb top start)) [
      | inl beyond ↦ rw (beyond, copy_memory)
      | inr within ↦
          rw (within, copy_memory) (copy_loop_unread (suc (cut - start)) start cut w lost)
    ]

write_runs-gaps :
    (runs : List Run) (current : ℕ) (image : List ℕ) (w : WinPmem)
    → w.out_fd ≡ some image
    → ((a : ℕ) → w.device.seek a ≡ false)
    → ((k n : ℕ) → w.written k n ≡ some n)
    → Wrote (gaps current runs) image w (write_runs runs current w)
unfolding write_runs gaps
write_runs-gaps [] current image w e lost takes = Wrote-nil image w e
write_runs-gaps (r ∷ runs) current image w e lost takes =
    let zeros : List ℕ = replicate (r.base_address - current) 0 in
    let gap = pad_gap-Wrote current r.base_address image w e takes in
    let w1 : WinPmem = (pad_gap current r.base_address w).1 in
    let none_read =
      copy_memory_unread r.base_address (run_end r) w1 (λ a. rw gap.device (lost a)) in
    let rest =
      write_runs-gaps runs (run_end r) (image ++ zeros) w1 gap.out_fd (λ a. rw gap.device (lost a))
        (λ k n. rw gap.written (takes k n)) in
    let all = Wrote-trans gap rest refl refl refl refl in
    rw (gap.status, write_runs) (rw none_read all)

-- The output file is open and empty, no seek in the device succeeds, and every write goes through:
-- `write_raw_image` returns 1 all the same, and closes an image that has the zeros between the
-- runs and not one byte of memory.
pub write_raw_image_unread :
    (runs : List Run) (w : WinPmem)
    → w.device.get_info ≡ some runs
    → w.out_fd ≡ some []
    → ((a : ℕ) → w.device.seek a ≡ false)
    → ((k n : ℕ) → w.written k n ≡ some n)
    → ((write_raw_image w).0 ≡ ok) × ((write_raw_image w).1.closed ≡ w.closed ++ gaps 0 runs ∷ [])
unfolding write_raw_image
write_raw_image_unread runs w info e lost takes =
    let w' : WinPmem = print_memory_info runs w in
    let same = print_memory_info_lem runs w in
    let wrote : Wrote (gaps 0 runs) [] w' (write_runs runs 0 w') =
      write_runs-gaps runs 0 [] w' (rw same e) (λ a. rw same (lost a))
        (λ k n. rw same (takes k n)) in
    let kept : w'.closed ≡ w.closed = ap (λ v. v.closed) same in
    rw (e, info, write_raw_image)
      (wrote.status, rw (wrote.out_fd, close_out) (rw (wrote.closed, kept)))
