-- ===== src/Wire/Format.antt =====
-- What the protocol says: a directory tree, and the bytes that stand for it on the wire. It is what
-- `sendDir` and `writeDir` agree on without a word in the sources; neither definition is code.
use project.Prelude.{
  length-le_bytes, length-append, append-nil, sym, refl, ap, ◌+◌, [], ◌≡◌, ◌∙◌, length-replicate,
  arith, ℕ, ◌^◌, ◌<◌, List, ◌++◌, All, length, IsNonzero, put_string,
}
use project.Wire.Layout.{length-put_string, length-encode_box, length-name_data}
use project.Wire.{
  box_size, file_tag, dir_tag, encode_box, named_box, blank, success_text, dump_text, int_bytes,
}

mutual
  -- The name comes first: that of the file, or of the directory.
  pub data Tree : Type 0 where
    file : List ℕ → List ℕ → Tree
    dir : List ℕ → Forest → Tree

  pub data Forest : Type 0 where
    end : Forest
    also : Tree → Forest → Forest

-- The buffer that says "success", and the one that holds a box.
abbrev pub success_message : ℕ → List ℕ
success_message room = put_string success_text (blank room)

abbrev pub header : ℕ → ℕ → ℕ → List ℕ → List ℕ
header room file_type file_size name = encode_box (named_box room file_type file_size name)

pub length-success : (room : ℕ) → length (success_message room) ≡ box_size room
length-success room =
    length-put_string success_text (blank room) (rw length-replicate (omega arith))
    ∙ length-replicate (box_size room) 0

-- The buffer that says "dump".
abbrev pub dump_message : ℕ → List ℕ
dump_message room = put_string dump_text (blank room)

pub length-dump : (room : ℕ) → length (dump_message room) ≡ box_size room
length-dump room =
    length-put_string dump_text (blank room) (rw length-replicate (omega arith))
    ∙ length-replicate (box_size room) 0

pub length-header :
    (room file_type file_size : ℕ) (name : List ℕ)
    → length name < room
    → length (header room file_type file_size name) ≡ box_size room
length-header room file_type file_size name h =
    length-encode_box room (named_box room file_type file_size name)
      (length-name_data room file_type file_size name h)

unfoldable mutual
  pub encode : ℕ → Tree → List ℕ
  encode room (file name content) =
      success_message room ++ (header room file_tag (length content) name ++ content)
  encode room (dir name children) =
      success_message room ++ (header room dir_tag 0 name ++ encode_forest room children)

  -- 1 before each child, and 0 behind the last.
  pub encode_forest : ℕ → Forest → List ℕ
  encode_forest room end = int_bytes 0
  encode_forest room (also t rest) = int_bytes 1 ++ (encode room t ++ encode_forest room rest)

-- What the loop reads behind the first flag.
abbrev pub flag_of : Forest → List ℕ
flag_of end = int_bytes 0
flag_of (also t rest) = int_bytes 1

unfoldable pub behind_flag : ℕ → Forest → List ℕ
behind_flag room end = []
behind_flag room (also t rest) = encode room t ++ encode_forest room rest

pub flag_split : (room : ℕ) (f : Forest) → encode_forest room f ≡ flag_of f ++ behind_flag room f
unfolding encode behind_flag
flag_split room end = sym (append-nil (int_bytes 0))
flag_split room (also t rest) = refl

pub length-encode_forest :
    (room : ℕ) (f : Forest) → length (encode_forest room f) ≡ 4 + length (behind_flag room f)
length-encode_forest room f =
    ap length (flag_split room f)
    ∙ length-append (flag_of f) (behind_flag room f)
    ∙ ap (λ n. n + length (behind_flag room f)) (length-flag f)
  where
    length-flag : (g : Forest) → length (flag_of g) ≡ 4
    length-flag end = length-le_bytes 4 0
    length-flag (also t rest) = length-le_bytes 4 1

-- A name that a box can hold, and that C can read back.
pub record IsName (room : ℕ) (name : List ℕ) : Type 0 where
  pub fits : length name < room
  pub bytes : All IsNonzero name

abbrev mutual
  pub IsTree : ℕ → Tree → Type 0
  IsTree room (file name content) = IsName room name × (length content < 256 ^ 8)
  IsTree room (dir name children) = IsName room name × IsForest room children

  pub IsForest : ℕ → Forest → Type 0
  IsForest room end = Unit
  IsForest room (also t rest) = IsTree room t × IsForest room rest
