-- ===== src/Image/Copy/Written.antt =====
-- What `pad` and `copy_memory` of kernel/executable/winpmem.cpp write while no call fails.
use project.Prelude.{
  ℕ, zero, suc, ◌+◌, ◌-◌, ◌≤◌, ◌<◌, ◌≡◌, min, refl, ◌∙◌, ap, true, false, some, List, [], ◌++◌,
  append_assoc, append-nil, length, take-length, replicate, replicate-append, length-replicate, ltb,
  ◌==◌, Status, ok, arith, Bool-cases, inl, inr,
}
use project.Image.Device.{buff_size, WinPmem, write_out}
use project.Image.Copy.{advance, pad_loop, pad, copy_round, copy_loop, copy_memory}
use project.Image.Copy.Range.{range, length-range, range-append}

-- The driver gives every byte it is asked for, and the image file takes every byte.
pub record IsReady (memory : ℕ → ℕ) (w : WinPmem) : Type 0 where
  pub seeks : (a : ℕ) → w.device.seek a ≡ true
  pub reads : (a n : ℕ) → w.device.read a n ≡ some (range memory a n)
  pub takes : (k n : ℕ) → w.written k n ≡ some n

-- A step that returned 1 and appended exactly `bytes` to the image.
pub record Wrote (bytes image : List ℕ) (w : WinPmem) (r : Status × WinPmem) : Type 0 where
  pub status : r.0 ≡ ok
  pub out_fd : r.1.out_fd ≡ some (image ++ bytes)
  pub device : r.1.device ≡ w.device
  pub written : r.1.written ≡ w.written
  pub closed : r.1.closed ≡ w.closed
  pub top : r.1.max_physical_memory ≡ w.max_physical_memory

pub Wrote-IsReady :
    {memory : ℕ → ℕ} {bytes image : List ℕ} {w : WinPmem} {r : Status × WinPmem}
    → Wrote bytes image w r
    → IsReady memory w
    → IsReady memory r.1
Wrote-IsReady p q = record {
  seeks = λ a. rw p.device (q.seeks a);
  reads = λ a n. rw p.device (q.reads a n);
  takes = λ k n. rw p.written (q.takes k n);
}

pub Wrote-nil : (image : List ℕ) (w : WinPmem) → w.out_fd ≡ some image → Wrote [] image w (ok, w)
Wrote-nil image w e = record {
  status = refl;
  out_fd = rw (append-nil image) e;
  device = refl;
  written = refl;
  closed = refl;
  top = refl;
}

-- Two steps, the first of which ended in a state that the second starts from.
pub Wrote-trans :
    {xs ys image : List ℕ} {w v : WinPmem} {r q : Status × WinPmem}
    → Wrote xs image w r
    → Wrote ys (image ++ xs) v q
    → v.device ≡ r.1.device
    → v.written ≡ r.1.written
    → v.closed ≡ r.1.closed
    → v.max_physical_memory ≡ r.1.max_physical_memory
    → Wrote (xs ++ ys) image w q
Wrote-trans {xs} {ys} {image} p q d e c t = record {
  status = q.status;
  out_fd = q.out_fd ∙ ap some (append_assoc image xs ys);
  device = q.device ∙ d ∙ p.device;
  written = q.written ∙ e ∙ p.written;
  closed = q.closed ∙ c ∙ p.closed;
  top = q.top ∙ t ∙ p.top;
}

write_out_all :
    (bytes image : List ℕ) (w : WinPmem)
    → w.out_fd ≡ some image
    → ((k n : ℕ) → w.written k n ≡ some n)
    → write_out bytes w
      ≡ (some (length bytes), record w { clock = suc w.clock; out_fd = some (image ++ bytes) })
unfolding write_out
write_out_all bytes image w e takes =
    let n : min (length bytes) (length bytes) ≡ length bytes = omega arith in
    rw (
      e,
      takes w.clock (length bytes),
      n,
      take-length (length bytes) bytes (omega arith),
      write_out,
    )

-- The state after one block.
abbrev wrote_block : List ℕ → List ℕ → WinPmem → WinPmem
wrote_block bytes image w =
    advance (length bytes) (record w { clock = suc w.clock; out_fd = some (image ++ bytes) })

block-Wrote :
    (bytes image : List ℕ) (w : WinPmem) → Wrote bytes image w (ok, wrote_block bytes image w)
block-Wrote bytes image w = record {
  status = refl;
  out_fd = refl;
  device = refl;
  written = refl;
  closed = refl;
  top = refl;
}

==_refl : (n : ℕ) → (n == n) ≡ true
==_refl n = ground arith

pad_loop-Wrote :
    (n left : ℕ) (image : List ℕ) (w : WinPmem)
    → left < n
    → w.out_fd ≡ some image
    → ((k n : ℕ) → w.written k n ≡ some n)
    → Wrote (replicate left 0) image w (pad_loop n left w)
unfolding pad_loop
pad_loop-Wrote zero left image w lt e takes = absurd (omega arith)
pad_loop-Wrote (suc n) zero image w lt e takes = unfold replicate in Wrote-nil image w e
pad_loop-Wrote (suc n) (suc left) image w lt e takes =
    let count : ℕ = min buff_size (suc left) in
    let block : List ℕ = replicate count 0 in
    let len : length block ≡ count = length-replicate count 0 in
    let w' : WinPmem = wrote_block block image w in
    let first = block-Wrote block image w in
    let rest =
      pad_loop-Wrote n (suc left - length block) (image ++ block) w' (omega arith) refl takes in
    let both = Wrote-trans first rest refl refl refl refl in
    let all : block ++ replicate (suc left - length block) 0 ≡ replicate (suc left) 0 =
      replicate-append count (suc left - length block) (suc left) 0 (omega arith) in
    rw (write_out_all block image w e takes, len, ==_refl count, pad_loop)
      (rw (write_out_all block image w e takes) (rw all at both))

pub pad-Wrote :
    (left : ℕ) (image : List ℕ) (w : WinPmem)
    → w.out_fd ≡ some image
    → ((k n : ℕ) → w.written k n ≡ some n)
    → Wrote (replicate left 0) image w (pad left w)
unfolding pad
pad-Wrote left image w e takes = pad_loop-Wrote (suc left) left image w (omega arith) e takes

module _ (memory : ℕ → ℕ) where
  copy_round_ready :
      (start n : ℕ) (image : List ℕ) (w : WinPmem)
      → w.out_fd ≡ some image
      → IsReady memory w
      → copy_round start n w ≡ (ok, wrote_block (range memory start n) image w)
  unfolding copy_round
  copy_round_ready start n image w e ready =
      let len = length-range memory start n in
      rw
        (
          ready.seeks start,
          ready.reads start n,
          len,
          ==_refl n,
          write_out_all (range memory start n) image w e ready.takes,
          ==_refl (length (range memory start n)),
        )
        (rw (write_out_all (range memory start n) image w e ready.takes, len))

  copy_loop-Wrote :
      (n start stop : ℕ) (image : List ℕ) (w : WinPmem)
      → stop - start < n
      → w.out_fd ≡ some image
      → IsReady memory w
      → Wrote (range memory start (stop - start)) image w (copy_loop n start stop w)
  unfolding copy_loop
  copy_loop-Wrote zero start stop image w lt e ready = absurd (omega arith)
  copy_loop-Wrote (suc n) start stop image w lt e ready = elim (Bool-cases (ltb start stop)) [
    | inr done ↦
        let none_left : stop - start ≡ 0 = ground arith in
        rw (done, none_left, copy_loop) (unfold range in Wrote-nil image w e)
    | inl more ↦
        let count : ℕ = min buff_size (stop - start) in
        let block : List ℕ = range memory start count in
        let w' : WinPmem = wrote_block block image w in
        let first = block-Wrote block image w in
        let some_left : start < stop = ground arith in
        let rest =
          copy_loop-Wrote n (start + count) stop (image ++ block) w' (omega arith) refl
            (Wrote-IsReady first ready) in
        let both = Wrote-trans first rest refl refl refl refl in
        let all : block ++ range memory (start + count) (stop - (start + count))
            ≡ range memory start (stop - start) =
          range-append memory start (start + count) count (stop - (start + count)) (stop - start)
            refl (omega arith) in
        rw (more, copy_round_ready start count image w e ready, copy_loop)
          (rw (copy_round_ready start count image w e ready) (rw all at both))
  ]

  -- Below the top nothing is cut.
  pub copy_memory-Wrote :
      (start n : ℕ) (image : List ℕ) (w : WinPmem)
      → start + n ≤ w.max_physical_memory
      → w.out_fd ≡ some image
      → IsReady memory w
      → Wrote (range memory start n) image w (copy_memory start (start + n) w)
  unfolding copy_memory
  copy_memory-Wrote start n image w le e ready =
      let inside : ltb w.max_physical_memory start ≡ false = ground arith in
      let uncut : ltb w.max_physical_memory (start + n) ≡ false = ground arith in
      let size : start + n - start ≡ n = omega arith in
      rw (inside, copy_memory)
        (rw (uncut, size)
          (rw size at (
            copy_loop-Wrote (suc (start + n - start)) start (start + n) image w (omega arith) e
              ready)))
