-- ===== src/Server/Receive.antt =====
-- `writeFile` and `writeDir` of server_linux/server.cpp.
-- A step takes one client's socket and the disk on, and ends with the value that the function
-- returns, with a call of `exit(1)`, or with undefined behaviour.
pub mod Live
pub mod Steps
pub mod Trees
pub mod Top
pub mod Keeping
pub mod Keeps
pub mod Confined
pub mod Ending
pub mod Ends
pub mod Lone
use project.Prelude.{
  has_nul, ℕ, zero, suc, ◌+◌, ◌-◌, min, Bool, true, false, Option, none, some, List, [], ◌∷◌, ◌++◌,
  take, replicate, c_string, bytes_eq, le_value, Status, ok, err, exit, fault, no_fuel, ltb, ◌==◌,
  if◌then◌else◌,
}
use project.Socket.{Sock}
use project.Wire.{size, box_size, file_tag, Box, decode_box, blank, success_text}
use project.Server.Transfer.{receive_all}
use project.Server.Files.{FilePath, Disk, Made, made, exists, refused, mkdir, open_wb, fwrite}

pub record Host : Type 0 where
  pub sock : Sock
  pub disk : Disk

abbrev pub Step : Type 0
Step = Host → Status × Host

abbrev pub slash : ℕ
slash = 47

-- `std::string(dir) + "/" + name`
abbrev pub join : FilePath → List ℕ → FilePath
join dir name = dir ++ slash ∷ name

-- `if (receiveAll(n, buffer, ...) == 1) return 1;`, and the rest with what the buffer then holds.
unfoldable pub receive : ℕ → List ℕ → (List ℕ → Step) → Step
receive n buffer rest h =
    let (r, buffer', s) = receive_all n buffer h.sock in
    elim r [ ok ↦ rest buffer' (record h { sock = s }) | other ↦ (other, record h { sock = s }) ]

-- The loop of `writeFile`; the count bounds its rounds, one of which receives at least a byte.
unfoldable pub write_loop : ℕ → FilePath → ℕ → Step
unfolding receive
write_loop zero path left h = (no_fuel, h)
write_loop (suc n) path zero h = (ok, h)
write_loop (suc n) path (suc left) h =
    let count = min (suc left) size in
    receive count (replicate size 0)
      (λ buffer h'.
        write_loop n path (suc left - count)
          (record h' { disk = fwrite path (take count buffer) h'.disk }))
      h

-- Where `fopen` fails, `fclose` gets the null pointer.
unfoldable pub write_file : FilePath → List ℕ → ℕ → Step
unfolding write_loop
write_file cwd name file_size h = elim (open_wb (join cwd name) h.disk) [
  | none ↦ (fault, h)
  | some disk ↦ write_loop (suc file_size) (join cwd name) file_size (record h { disk = disk })
]

-- `mkdir` for what a client sends: if it fails, for whatever reason, the server exits.
unfoldable pub make_dir : FilePath → (FilePath → Step) → Step
make_dir path rest h =
    let (m, disk) = mkdir path h.disk in
    elim m [ made ↦ rest path (record h { disk = disk }) | _ ↦ (exit, record h { disk = disk }) ]

-- The server's own directory for the client: it may be there already.
unfoldable pub make_top : FilePath → (FilePath → Step) → Step
make_top path rest h =
    let (m, disk) = mkdir path h.disk in
    elim m [ refused ↦ (exit, record h { disk = disk }) | _ ↦ rest path (record h { disk = disk }) ]

-- The result of the nested `writeDir` is not looked at: only the end of the process stops the loop.
unfoldable pub after_nested : Status × Host → Step → Status × Host
after_nested (ok, h) rest = rest h
after_nested (err, h) rest = rest h
after_nested (other, h) rest = (other, h)

-- A message other than "success" ends `writeDir` with 1, and the socket stays open.
unfoldable pub if_success : List ℕ → Step → Step
if_success msg rest h = if bytes_eq (c_string msg) success_text then rest h else (err, h)

-- `peer` is the client's address and port, as `inet_ntoa` and `to_string` print them.
module _ (peer : List ℕ) where
  -- The new directory, made, and the rest with its path.
  unfoldable pub enter : Bool → FilePath → List ℕ → (FilePath → Step) → Step
  unfolding make_dir make_top
  enter true cwd name rest = make_top (join cwd peer) λ top. make_dir (join top name) rest
  enter false cwd name rest = make_dir (join cwd name) rest

  -- What `writeDir` does with a box. A name with no NUL in the buffer is read past its end.
  unfoldable pub dispatch : Bool → FilePath → Box → (FilePath → Step) → Step
  unfolding write_file enter has_nul
  dispatch flag cwd box listing h =
      let name = c_string box.name_data in
      if has_nul box.name_data
      then (if box.file_type == file_tag
          then write_file cwd name box.file_size h
          else enter flag cwd name listing h)
      else (fault, h)

  unfoldable mutual
    unfolding receive dispatch if_success after_nested

    pub write_dir : ℕ → Bool → FilePath → Step
    write_dir zero flag cwd h = (no_fuel, h)
    write_dir (suc fuel) flag cwd h =
        let listing : FilePath → Step =
          λ dir. receive 4 (replicate 4 255) (λ loop_flag. write_entries fuel dir loop_flag) in
        receive (box_size size) (blank size)
          (λ msg.
            if_success msg
              (receive (box_size size) msg (λ msg'. dispatch flag cwd (decode_box msg') listing)))
          h

    -- `while (loopFlag == 1)`
    pub write_entries : ℕ → FilePath → List ℕ → Step
    write_entries zero dir loop_flag h = (no_fuel, h)
    write_entries (suc fuel) dir loop_flag h = elim (le_value loop_flag == 1) [
      | false ↦ (ok, h)
      | true ↦
          after_nested (write_dir fuel false dir h)
            (receive 4 loop_flag (λ loop_flag'. write_entries fuel dir loop_flag'))
    ]
