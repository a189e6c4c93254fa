-- ===== src/Client/Send.antt =====
-- `sendFile` and `sendDir` of InfoDumping/InfoDumping.cpp.
-- A step takes the client's socket and current directory on, and ends with the value that the
-- function returns. `fuel` is what each transfer is given, and `room` is `SIZE`: the stand-alone
-- client of kernel/executable/main.cpp has the same text with another `SIZE`.
pub mod Puts
pub mod Live
use project.Prelude.{
  ℕ, zero, suc, ◌-◌, Bool, ◌||◌, Option, none, some, List, [], ◌∷◌, ◌++◌, length, take, drop,
  replicate, codes, bytes_eq, put_string, Status, ok, err, fault, no_fuel, ltb, if◌then◌else◌,
}
use project.Socket.{Sock, close}
use project.Wire.{
  box_size, file_tag, dir_tag, encode_box, named_box, blank, success_text, int_bytes,
}
use project.Client.Transfer.{send_all}
use project.Client.Files.{
  Info, Node, node, Entries, end, entry, sent_as_file, base_name, backslash, is_dots,
}

pub record Host : Type 0 where
  pub sock : Sock
  pub cwd : List ℕ

abbrev pub Step : Type 0
Step = Host → Status × Host

infixl 5 ◌>>◌
unfoldable pub ◌>>◌ : Step → Step → Step
◌>>◌ m k h = let (r, h') = m h in elim r [ ok ↦ k h' | other ↦ (other, h') ]

abbrev pub give : Status → Step
give r h = (r, h)

-- A call of a function of the socket alone.
unfoldable pub on_socket : (Sock → Status × Sock) → Step
on_socket f h = let (r, s) = f h.sock in (r, record h { sock = s })

unfoldable pub hang_up : Step
hang_up h = (err, record h { sock = close h.sock })

unfoldable pub my_min : ℕ → ℕ → ℕ
my_min a b = if ltb a b then a else b

-- `sendBuffer` after `fread`: what was read, and the zeros of `memset`.
abbrev pub chunk_buffer : ℕ → List ℕ → List ℕ
chunk_buffer room chunk = chunk ++ replicate (room - length chunk) 0

module _ (room fuel : ℕ) where
  -- `if (sendAll(sizeof(msg), msg, sockfd) == 1) return 1;`
  unfoldable pub send_message : ℕ → List ℕ → Step
  unfolding on_socket
  send_message n msg = on_socket (send_all fuel n msg)

  -- The loop of `sendFile`; the count bounds its rounds, one of which sends at least a byte.
  unfoldable pub send_chunks : ℕ → List ℕ → Sock → Status × Sock
  send_chunks zero content s = (no_fuel, s)
  send_chunks (suc n) [] s = (ok, s)
  send_chunks (suc n) (c ∷ cs) s =
      let chunk = take room (c ∷ cs) in
      let (r, s') = send_all fuel (my_min (length chunk) room) (chunk_buffer room chunk) s in
      elim r [ ok ↦ send_chunks n (drop room (c ∷ cs)) s' | other ↦ (other, s') ]

  -- Where the file does not open, the socket is closed and `fclose` gets the null pointer.
  unfoldable pub send_file : Option (List ℕ) → Sock → Status × Sock
  unfolding send_chunks my_min
  send_file none s = (fault, close s)
  send_file (some content) s = send_chunks (suc (length content)) content s

  -- `sendFile` returns nothing: its early return goes unnoticed.
  unfoldable pub ignore_err : Step → Step
  ignore_err m h = let (r, h') = m h in elim r [ err ↦ (ok, h') | other ↦ (other, h') ]

  -- An error text over what the buffer holds, and the socket closed whether it went out or not.
  unfoldable pub report : List ℕ → List ℕ → Step
  unfolding ◌>>◌ ignore_err send_message hang_up
  report text msg = do ignore_err (send_message (box_size room) (put_string text msg)); hang_up

  unfoldable pub send_header : ℕ → ℕ → Option (List ℕ) → Step
  send_header tag n none h = (fault, h)
  send_header tag n (some name) h =
      send_message (box_size room) (encode_box (named_box room tag n name)) h

  -- The branch for a file.
  unfoldable pub send_plain : List ℕ → Info → Step
  unfolding ◌>>◌ report send_header send_file ignore_err on_socket
  send_plain path info h =
      let msg = put_string success_text (blank room) in
      if info.opens
      then (elim info.file_size [
        | none ↦ report info.error_text msg h
        | some n ↦
            (do
              send_header file_tag n (base_name path)
              ignore_err (on_socket (send_file info.content)))
              h
      ])
      else report info.error_text msg h

  -- `SetCurrentDirectoryA(curDirPath)`, and `FindFirstFileA`.
  unfoldable pub enter_dir : List ℕ → Info → Step
  unfolding hang_up
  enter_dir path info h =
      if info.enters
      then (if info.lists then (ok, record h { cwd = path }) else hang_up (record h { cwd = path }))
      else hang_up h

  -- `SetCurrentDirectoryA(begin_cwd)`
  unfoldable pub leave_dir : List ℕ → Info → Step
  unfolding hang_up
  leave_dir begin info h = if info.leaves then (ok, record h { cwd = begin }) else hang_up h

  -- The branch for a directory, around the loop over what is in it.
  unfoldable pub send_listing : List ℕ → List ℕ → Info → Step → Step
  unfolding ◌>>◌ send_header enter_dir leave_dir send_message
  send_listing path begin info loop = do
    send_header dir_tag 0 (base_name path)
    enter_dir path info
    loop
    send_message 4 (int_bytes 0)
    leave_dir begin info

  unfoldable mutual
    unfolding ◌>>◌ report send_plain send_listing send_message is_dots

    pub send_dir : List ℕ → Node → Step
    send_dir path (node info children) h = elim info.attributes [
      | none ↦ report info.error_text (blank room) h
      | some a ↦
          let listing = send_listing path h.cwd info (send_entries path children) in
          (send_message (box_size room) (put_string success_text (blank room))
              >> (if sent_as_file a then send_plain path info else listing))
            h
    ]

    -- The loop over what `FindNextFileA` lists.
    pub send_entries : List ℕ → Entries → Step
    send_entries path end = give ok
    send_entries path (entry name child rest) = if is_dots name then send_entries path rest else (do
      send_message 4 (int_bytes 1)
      send_dir (path ++ backslash ∷ name) child
      send_entries path rest)
