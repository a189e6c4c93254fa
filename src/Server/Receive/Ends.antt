-- ===== src/Server/Receive/Ends.antt =====
-- That `writeDir` of server_linux/server.cpp comes to an end, whatever a client sends.
use project.Prelude.{
  ℕ, zero, suc, ◌+◌, ◌-◌, ◌≤◌, ◌<◌, Bool, true, false, List, length, replicate, if-both, has_nul,
  c_string, le_value, Bool-cases, inl, inr, ◌==◌, arith,
}
use project.Wire.{size, box_size, file_tag, Box, decode_box, blank}
use project.Server.Files.{FilePath}
use project.Server.Receive.{
  Host, Step, join, receive, make_dir, enter, dispatch, if_success, write_dir, write_entries,
}
use project.Server.Receive.Ending.{
  EndsIn, Ends, message-Ends, write_file-Ends, make_dir-Ends, make_top-Ends, after_nested-Ends,
  if_success-Ends, returned, faulted,
}

module _ (peer : List ℕ) where
  enter-Ends :
      (m : ℕ) (flag : Bool) (cwd : FilePath) (name : List ℕ) (rest : FilePath → Step)
      → ((p : FilePath) → Ends m (rest p))
      → Ends m (enter peer flag cwd name rest)
  unfolding enter
  enter-Ends m true cwd name rest e =
      make_top-Ends m (join cwd peer) (λ top. make_dir (join top name) rest)
        (make_dir-Ends m (join (join cwd peer) name) rest (e (join (join cwd peer) name)))
  enter-Ends m false cwd name rest e = make_dir-Ends m (join cwd name) rest (e (join cwd name))

  dispatch-Ends :
      (m : ℕ) (flag : Bool) (cwd : FilePath) (box : Box) (listing : FilePath → Step)
      → ((p : FilePath) → Ends m (listing p))
      → Ends m (dispatch peer flag cwd box listing)
  unfolding dispatch
  dispatch-Ends m flag cwd box listing e = record {
    run = λ h le.
        let name : List ℕ = c_string box.name_data in
        if-both (EndsIn m) (has_nul box.name_data)
          (if-both (EndsIn m) (box.file_type == file_tag)
            ((write_file-Ends m cwd name box.file_size).run h le)
            ((enter-Ends m flag cwd name listing e).run h le))
          (record { ended = faulted; shrinks = le });
  }

  write_dir_step :
      (fuel m : ℕ) (flag : Bool) (cwd : FilePath)
      → m ≤ fuel
      → ((n : ℕ) (p : FilePath) (loop_flag : List ℕ)
          → n + 1 < fuel
          → Ends n (write_entries peer fuel p loop_flag))
      → Ends m (write_dir peer (suc fuel) flag cwd)
  unfolding write_dir
  write_dir_step fuel m flag cwd le entries =
      let listing : FilePath → Step =
        λ p. receive 4 (replicate 4 255) (λ loop_flag. write_entries peer fuel p loop_flag) in
      let second : List ℕ → Step = λ msg.
        receive (box_size size) msg (λ msg'. dispatch peer flag cwd (decode_box msg') listing) in
      message-Ends (box_size size) m (blank size) (λ msg. if_success msg (second msg))
        (λ one msg. if_success-Ends (m - (box_size size)) msg (second msg) (
          message-Ends (box_size size) (m - (box_size size)) msg
            (λ msg'. dispatch peer flag cwd (decode_box msg') listing)
            (λ two msg'.
              dispatch-Ends (m - (box_size size) - (box_size size)) flag cwd (decode_box msg')
                listing
                (λ p.
                  message-Ends 4 (m - (box_size size) - (box_size size)) (replicate 4 255)
                    (λ loop_flag. write_entries peer fuel p loop_flag)
                    (λ four loop_flag.
                      entries (m - (box_size size) - (box_size size) - 4) p loop_flag
                        (omega arith))))))

  write_entries_step :
      (fuel m : ℕ) (p : FilePath) (loop_flag : List ℕ)
      → Ends m (write_dir peer fuel false p)
      → (4 ≤ m → (next : List ℕ) → Ends (m - 4) (write_entries peer fuel p next))
      → Ends m (write_entries peer (suc fuel) p loop_flag)
  unfolding write_dir
  write_entries_step fuel m p loop_flag nested entries = record {
    run = λ h le. elim (Bool-cases (le_value loop_flag == 1)) [
      | inr stop ↦ rw (stop, write_entries) (record { ended = returned; shrinks = le })
      | inl go ↦
          rw (go, write_entries)
            (after_nested-Ends m (write_dir peer fuel false p h)
              (receive 4 loop_flag (λ next. write_entries peer fuel p next)) (nested.run h le)
              (message-Ends 4 m loop_flag (λ next. write_entries peer fuel p next) entries))
    ];
  }

  mutual
    write_dir-Ends :
        (fuel m : ℕ) (flag : Bool) (cwd : FilePath)
        → m < fuel
        → Ends m (write_dir peer fuel flag cwd)
    write_dir-Ends zero m flag cwd lt = absurd (omega arith)
    write_dir-Ends (suc fuel) m flag cwd lt =
        write_dir_step fuel m flag cwd (omega arith)
          (λ n p loop_flag more. write_entries-Ends fuel n p loop_flag more)

    write_entries-Ends :
        (fuel m : ℕ) (p : FilePath) (loop_flag : List ℕ)
        → m + 1 < fuel
        → Ends m (write_entries peer fuel p loop_flag)
    write_entries-Ends zero m p loop_flag lt = absurd (omega arith)
    write_entries-Ends (suc fuel) m p loop_flag lt =
        write_entries_step fuel m p loop_flag (write_dir-Ends fuel m false p (omega arith))
          (λ four next. write_entries-Ends fuel (m - 4) p next (omega arith))

-- Whatever a client has sent, and whatever the connection and the file system answer: with fuel above
-- the number of bytes that are there, `writeDir` comes to an end of its own, and the connection holds
-- no more bytes than before.
pub write_dir_ends :
    (peer : List ℕ) (fuel : ℕ) (flag : Bool) (cwd : FilePath) (h : Host)
    → length h.sock.input < fuel
    → EndsIn (length h.sock.input) (write_dir peer fuel flag cwd h)
write_dir_ends peer fuel flag cwd h lt =
    (write_dir-Ends peer fuel (length h.sock.input) flag cwd lt).run h (omega arith)
