-- ===== src/Wire.antt =====
-- The messages that client and server exchange: `struct box` as its bytes on the wire, and the C
-- strings "dump" and "success" in a buffer of `sizeof(box)` bytes. Three programs declare the struct
-- with a `SIZE` of their own, on which the messages depend: InfoDumping/InfoDumping.h and
-- server_linux/server.cpp with the same, kernel/executable/main.cpp with another.
pub mod Layout
pub mod Format
use project.Prelude.{
  ℕ, suc, ◌+◌, ◌*◌, ◌^◌, ◌≤◌, ◌<◌, ◌≡◌, List, [], ◌∷◌, ◌++◌, length, take, drop, replicate, codes,
  put_string, le_bytes, le_value,
}

-- `#define SIZE (1024*16)`, of the client InfoDumping and of the server.
abbrev pub size : ℕ
size = 1024 * 16

-- `#define SIZE 32*1024`, of the stand-alone client.
abbrev pub alone_size : ℕ
alone_size = 32 * 1024

-- `sizeof(box)`: `fileSize` is aligned to 8 bytes, so six bytes of padding follow `fileType`.
abbrev pub box_size : ℕ → ℕ
box_size room = 16 + room

-- `#define File 0`, `#define Dir 1`
abbrev pub file_tag : ℕ
file_tag = 0

abbrev pub dir_tag : ℕ
dir_tag = 1

-- `data` is a reserved word: the field is `name_data`.
pub record Box : Type 0 where
  pub file_type : ℕ
  pub file_size : ℕ
  pub name_data : List ℕ

-- `memcpy(msg, &sender, sizeof(box))`, of a box that was set to zero before it was filled.
unfoldable pub encode_box : Box → List ℕ
encode_box b = le_bytes 2 b.file_type ++ (replicate 6 0 ++ (le_bytes 8 b.file_size ++ b.name_data))

-- `memcpy(&receiver, msg, sizeof(box))`
unfoldable pub decode_box : List ℕ → Box
decode_box msg = record {
  file_type = le_value (take 2 msg);
  file_size = le_value (take 8 (drop 8 msg));
  name_data = drop 16 msg;
}

-- `memset(&sender, 0, sizeof(box))`, and the fields that `sendDir` sets.
unfoldable pub named_box : ℕ → ℕ → ℕ → List ℕ → Box
named_box room file_type file_size name = record {
  file_type = file_type;
  file_size = file_size;
  name_data = put_string name (replicate room 0);
}

-- A buffer of `sizeof(box)` zeros.
abbrev pub blank : ℕ → List ℕ
blank room = replicate (box_size room) 0

abbrev pub success_text : List ℕ
success_text = codes "success"

abbrev pub dump_text : List ℕ
dump_text = codes "dump"

-- An `int` as the four bytes at its address.
abbrev pub int_bytes : ℕ → List ℕ
int_bytes = le_bytes 4
