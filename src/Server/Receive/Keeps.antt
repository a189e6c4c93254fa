-- ===== src/Server/Receive/Keeps.antt =====
-- Properties of the disk that `writeDir` of server_linux/server.cpp keeps on every input.
use project.Prelude.{
  ℕ, zero, suc, List, ◌∷◌, replicate, if-both, c_string, inl, inr, Status, Bool, true, false,
  has_nul, le_value, Bool-cases, ◌==◌,
}
use project.Wire.{size, box_size, file_tag, Box, decode_box, blank}
use project.Server.Files.{FilePath, Disk}
use project.Server.Receive.{
  Host, Step, slash, join, receive, make_dir, if_success, enter, dispatch, write_dir, write_entries,
}
use project.Server.Receive.Keeping.{
  Kept, Keeps, receive-Keeps, write_file-Keeps, make_dir-Keeps, make_top-Keeps, after_nested-Keeps,
  if_success-Keeps,
}

module _ (Q : FilePath → Type 0) (P : Disk → Type 0) (law : Kept Q P) where
  enter-Keeps :
      (peer : List ℕ) (flag : Bool) (cwd : FilePath) (name : List ℕ) (rest : FilePath → Step)
      → Q cwd
      → ((dir : FilePath) → Q dir → Keeps P (rest dir))
      → Keeps P (enter peer flag cwd name rest)
  unfolding enter
  enter-Keeps peer true cwd name rest q s =
      let top : FilePath = join cwd peer in
      let at_top : Q top = law.below cwd (slash ∷ peer) q in
      let at_dir : Q (join top name) = law.below top (slash ∷ name) at_top in
      make_top-Keeps Q P law top (λ t. make_dir (join t name) rest) at_top
        (make_dir-Keeps Q P law (join top name) rest at_dir (s (join top name) at_dir))
  enter-Keeps peer false cwd name rest q s =
      let at_dir : Q (join cwd name) = law.below cwd (slash ∷ name) q in
      make_dir-Keeps Q P law (join cwd name) rest at_dir (s (join cwd name) at_dir)

  dispatch-Keeps :
      (peer : List ℕ) (flag : Bool) (cwd : FilePath) (box : Box) (listing : FilePath → Step)
      → Q cwd
      → ((dir : FilePath) → Q dir → Keeps P (listing dir))
      → Keeps P (dispatch peer flag cwd box listing)
  unfolding dispatch
  dispatch-Keeps peer flag cwd box listing q s = record {
    run = λ h p.
        let R : Status × Host → Type 0 = λ r. P r.1.disk in
        let name : List ℕ = c_string box.name_data in
        if-both R (has_nul box.name_data)
          (if-both R (box.file_type == file_tag)
            ((write_file-Keeps Q P law cwd name box.file_size q).run h p)
            ((enter-Keeps peer flag cwd name listing q s).run h p))
          p;
  }

  write_dir_step :
      (peer : List ℕ) (fuel : ℕ) (flag : Bool) (cwd : FilePath)
      → Q cwd
      → ((dir : FilePath) (loop_flag : List ℕ)
          → Q dir
          → Keeps P (write_entries peer fuel dir loop_flag))
      → Keeps P (write_dir peer (suc fuel) flag cwd)
  unfolding write_dir
  write_dir_step peer fuel flag cwd q s =
      let listing : FilePath → Step =
        λ dir. receive 4 (replicate 4 255) (λ loop_flag. write_entries peer fuel dir loop_flag) in
      let listed : (dir : FilePath) → Q dir → Keeps P (listing dir) = λ dir at_dir.
        receive-Keeps Q P law 4 (replicate 4 255)
          (λ loop_flag. write_entries peer fuel dir loop_flag)
          (λ loop_flag. s dir loop_flag at_dir) in
      receive-Keeps Q P law (box_size size) (blank size)
        (λ msg.
          if_success msg (
            receive (box_size size) msg (λ msg'. dispatch peer flag cwd (decode_box msg') listing)))
        (λ msg.
          if_success-Keeps Q P law msg
            (receive (box_size size) msg (λ msg'. dispatch peer flag cwd (decode_box msg') listing))
            (receive-Keeps Q P law (box_size size) msg
              (λ msg'. dispatch peer flag cwd (decode_box msg') listing)
              (λ msg'. dispatch-Keeps peer flag cwd (decode_box msg') listing q listed)))

  write_entries_step :
      (peer : List ℕ) (fuel : ℕ) (dir : FilePath) (loop_flag : List ℕ)
      → Keeps P (write_dir peer fuel false dir)
      → ((next : List ℕ) → Keeps P (write_entries peer fuel dir next))
      → Keeps P (write_entries peer (suc fuel) dir loop_flag)
  unfolding write_dir
  write_entries_step peer fuel dir loop_flag nested s = record {
    run = λ h p. elim (Bool-cases (le_value loop_flag == 1)) [
      | inr stop ↦ rw (stop, write_entries) p
      | inl go ↦
          rw (go, write_entries)
            (after_nested-Keeps Q P law (write_dir peer fuel false dir h)
              (receive 4 loop_flag (λ next. write_entries peer fuel dir next)) (nested.run h p)
              (receive-Keeps Q P law 4 loop_flag (λ next. write_entries peer fuel dir next) s))
    ];
  }

  write_dir_unfueled :
      (peer : List ℕ) (flag : Bool) (cwd : FilePath) → Keeps P (write_dir peer zero flag cwd)
  unfolding write_dir
  write_dir_unfueled peer flag cwd = record { run = λ h p. p }

  write_entries_unfueled :
      (peer : List ℕ) (dir : FilePath) (loop_flag : List ℕ)
      → Keeps P (write_entries peer zero dir loop_flag)
  unfolding write_dir
  write_entries_unfueled peer dir loop_flag = record { run = λ h p. p }

  mutual
    pub write_dir-Keeps :
        (peer : List ℕ) (fuel : ℕ) (flag : Bool) (cwd : FilePath)
        → Q cwd
        → Keeps P (write_dir peer fuel flag cwd)
    write_dir-Keeps peer zero flag cwd q = write_dir_unfueled peer flag cwd
    write_dir-Keeps peer (suc fuel) flag cwd q =
        write_dir_step peer fuel flag cwd q (write_entries-Keeps peer fuel)

    write_entries-Keeps :
        (peer : List ℕ) (fuel : ℕ) (dir : FilePath) (loop_flag : List ℕ)
        → Q dir
        → Keeps P (write_entries peer fuel dir loop_flag)
    write_entries-Keeps peer zero dir loop_flag q = write_entries_unfueled peer dir loop_flag
    write_entries-Keeps peer (suc fuel) dir loop_flag q =
        write_entries_step peer fuel dir loop_flag (write_dir-Keeps peer fuel false dir q)
          (λ next. write_entries-Keeps peer fuel dir next q)
