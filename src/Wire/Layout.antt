-- ===== src/Wire/Layout.antt =====
-- Packing a message and reading it, as both programs do with `memcpy`.
use native.Mathlib.Nat.{pow-suc}
use project.Prelude.{
  true, ℕ, zero, suc, ◌/◌, ◌^◌, ◌<◌, ◌≡◌, refl, sym, ap, ◌∙◌, List, ◌∷◌, ◌++◌, All, length, take,
  drop, replicate, IsNonzero, c_string, c_string-append, has_nul, has_nul-append, put_string,
  le_bytes, le_value, length-le_bytes, length-append, length-replicate, length-drop, take-append,
  drop-append, drop-drop, append_assoc, arith,
}
use project.Wire.{box_size, Box, encode_box, decode_box, named_box}

-- Decoding a word undoes encoding it, if it fits.
pub le_value-le_bytes : (n v : ℕ) → v < 256 ^ n → le_value (le_bytes n v) ≡ v
unfolding le_value le_bytes
le_value-le_bytes zero v h = omega arith
le_value-le_bytes (suc n) v h =
    omega (arith, le_value-le_bytes n (v / 256) (omega (arith, pow-suc 256 n)))

pub length-put_string :
    (s dest : List ℕ) → length s < length dest → length (put_string s dest) ≡ length dest
unfolding put_string
length-put_string s dest h =
    rw (length-append s (0 ∷ drop (suc (length s)) dest), length-drop (suc (length s)) dest)
      (omega arith)

-- A C string that was put into a buffer is read back from it.
pub c_string-put_string : (s dest : List ℕ) → All IsNonzero s → c_string (put_string s dest) ≡ s
unfolding put_string
c_string-put_string s dest h = c_string-append s (drop (suc (length s)) dest) h

-- A box that `short`, `unsigned long long` and `char[SIZE]` can hold.
pub record IsBox (room : ℕ) (b : Box) : Type 0 where
  pub type_fits : b.file_type < 256 ^ 2
  pub size_fits : b.file_size < 256 ^ 8
  pub data_fits : length b.name_data ≡ room

pub length-encode_box :
    (room : ℕ) (b : Box) → length b.name_data ≡ room → length (encode_box b) ≡ box_size room
unfolding encode_box
length-encode_box room b h =
    rw
      (
        length-append (le_bytes 2 b.file_type)
            (replicate 6 0 ++ (le_bytes 8 b.file_size ++ b.name_data)),
        length-append (replicate 6 0) (le_bytes 8 b.file_size ++ b.name_data),
        length-append (le_bytes 8 b.file_size) b.name_data,
        length-le_bytes,
        length-le_bytes,
        length-replicate,
        h,
      )
      (omega arith)

module _ (p q r d : List ℕ) (two : length p ≡ 2) (six : length q ≡ 6) (eight : length r ≡ 8) where
  third_part : drop 8 (p ++ (q ++ (r ++ d))) ≡ r ++ d
  third_part =
      rw (← append_assoc p q (r ++ d))
        (drop-append 8 (p ++ q) (r ++ d) (rw length-append (omega arith)))

  fourth_part : drop 16 (p ++ (q ++ (r ++ d))) ≡ d
  fourth_part =
      sym (drop-drop 8 8 16 (p ++ (q ++ (r ++ d))) refl)
      ∙ ap (drop 8) third_part
      ∙ drop-append 8 r d (sym eight)

-- A box whose type and size fit their fields and whose data has `SIZE` bytes: the receiver reads
-- out of the message the box that the sender packed.
pub decode_box-encode_box : (room : ℕ) (b : Box) → IsBox room b → decode_box (encode_box b) ≡ b
unfolding decode_box encode_box
decode_box-encode_box room b v =
    let p : List ℕ = le_bytes 2 b.file_type in
    let q : List ℕ = replicate 6 0 in
    let r : List ℕ = le_bytes 8 b.file_size in
    let two = length-le_bytes 2 b.file_type in
    let six = length-replicate 6 0 in
    let eight = length-le_bytes 8 b.file_size in
    λ i. record {
      file_type =
          (ap le_value (take-append 2 p (q ++ (r ++ b.name_data)) (sym two))
              ∙ le_value-le_bytes 2 b.file_type v.type_fits)
            i;
      file_size =
          (ap (λ l. le_value (take 8 l)) (third_part p q r b.name_data two six eight)
              ∙ ap le_value (take-append 8 r b.name_data (sym eight))
              ∙ le_value-le_bytes 8 b.file_size v.size_fits)
            i;
      name_data = fourth_part p q r b.name_data two six eight i;
    }

pub length-name_data :
    (room : ℕ) (file_type file_size : ℕ) (name : List ℕ)
    → length name < room
    → length (named_box room file_type file_size name).name_data ≡ room
unfolding named_box
length-name_data room file_type file_size name n =
    length-put_string name (replicate room 0) (rw length-replicate n) ∙ length-replicate room 0

-- The box of a name that fits is a box, and its name is read back.
pub named_box-IsBox :
    (room : ℕ) (file_type file_size : ℕ) (name : List ℕ)
    → file_type < 256 ^ 2
    → file_size < 256 ^ 8
    → length name < room
    → IsBox room (named_box room file_type file_size name)
unfolding named_box
named_box-IsBox room file_type file_size name t f n = record {
  type_fits = t;
  size_fits = f;
  data_fits = length-name_data room file_type file_size name n;
}

pub named_box-name :
    (room : ℕ) (file_type file_size : ℕ) (name : List ℕ)
    → All IsNonzero name
    → c_string (named_box room file_type file_size name).name_data ≡ name
unfolding named_box
named_box-name room file_type file_size name h = c_string-put_string name (replicate room 0) h

pub named_box-has_nul :
    (room : ℕ) (file_type file_size : ℕ) (name : List ℕ)
    → has_nul (named_box room file_type file_size name).name_data ≡ true
unfolding named_box put_string
named_box-has_nul room file_type file_size name =
    has_nul-append name (drop (suc (length name)) (replicate room 0))
