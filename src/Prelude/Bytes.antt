-- ===== src/Prelude/Bytes.antt =====
-- Bytes, C strings and little-endian words. A byte is a number below 256.
use Prim.Native.Nat.{ℕ, zero, suc, ◌+◌, ◌-◌, ◌*◌, ◌/◌, ◌%◌, ◌<◌, min}
use Prim.Native.Char.{code}
use Prim.Native.String.{String}
use mathlib.Core.Path.{◌≡◌, refl, ap}
use mathlib.Core.Logic.{◌↔◌}
use mathlib.Core.Bool.{Bool, true, false, ◌&&◌, ◌||◌}
use mathlib.Core.List.{List, [], ◌∷◌, ◌++◌}
use native.Mathlib.Omega.{arith}
use project.Prelude.Tests.{◌==◌, if◌then◌else◌}
use project.Prelude.Lists.{
  All, length, take, drop, replicate, length-append, length-take, length-drop, length-replicate,
}

-- The code points of a text.
abbrev pub codes : String → List ℕ
codes String.[] = []
codes (String.◌∷◌ c s) = code c ∷ codes s

-- What a C function reads of a buffer: the bytes before the first NUL.
unfoldable pub c_string : List ℕ → List ℕ
c_string [] = []
c_string (c ∷ cs) = if c == 0 then [] else c ∷ c_string cs

-- A string that ends inside its buffer: a C function that reads it stays in bounds.
unfoldable pub has_nul : List ℕ → Bool
has_nul [] = false
has_nul (c ∷ cs) = c == 0 || has_nul cs

-- `strcmp(a, b) == 0`, on the strings without their NUL.
unfoldable pub bytes_eq : List ℕ → List ℕ → Bool
bytes_eq [] [] = true
bytes_eq [] (b ∷ bs) = false
bytes_eq (a ∷ as') [] = false
bytes_eq (a ∷ as') (b ∷ bs) = a == b && bytes_eq as' bs

abbrev pub IsNonzero : ℕ → Type 0
IsNonzero c = 0 < c

abbrev pub IsByte : ℕ → Type 0
IsByte c = c < 256

-- `strncpy(dest, s, strlen(s) + 1)`: the string and its NUL over the front of the buffer.
unfoldable pub put_string : List ℕ → List ℕ → List ℕ
put_string s dest = s ++ 0 ∷ drop (suc (length s)) dest

unfoldable pub le_bytes : ℕ → ℕ → List ℕ
le_bytes zero v = []
le_bytes (suc n) v = (v % 256) ∷ le_bytes n (v / 256)

unfoldable pub le_value : List ℕ → ℕ
le_value [] = 0
le_value (b ∷ bs) = b + 256 * le_value bs

pub length-le_bytes : (n v : ℕ) → length (le_bytes n v) ≡ n
unfolding le_bytes
length-le_bytes zero v = refl
length-le_bytes (suc n) v = ap suc (length-le_bytes n (v / 256))

pub c_string-append : (s rest : List ℕ) → All IsNonzero s → c_string (s ++ 0 ∷ rest) ≡ s
unfolding c_string
c_string-append [] rest h = refl
c_string-append (c ∷ cs) rest (p, h) = ground (arith, c_string-append cs rest h)

pub has_nul-append : (s rest : List ℕ) → has_nul (s ++ 0 ∷ rest) ≡ true
unfolding has_nul
has_nul-append [] rest = refl
has_nul-append (c ∷ cs) rest = ground (arith, has_nul-append cs rest)

pub bytes_eq_refl : (s : List ℕ) → bytes_eq s s ≡ true
unfolding bytes_eq
bytes_eq_refl [] = refl
bytes_eq_refl (c ∷ cs) = ground (arith, bytes_eq_refl cs)

pub bytes_eq→eq : (a b : List ℕ) → bytes_eq a b ≡ true → a ≡ b
unfolding bytes_eq
bytes_eq→eq [] [] h = refl
bytes_eq→eq [] (b ∷ bs) h = cc
bytes_eq→eq (a ∷ as') [] h = cc
bytes_eq→eq (a ∷ as') (b ∷ bs) h = ground (arith, bytes_eq→eq as' bs)

pub bytes_eq_iff : (a b : List ℕ) → (bytes_eq a b ≡ true) ↔ (a ≡ b)
bytes_eq_iff a b = (bytes_eq→eq a b, λ e. ground (arith, bytes_eq_refl a))

pub length-append_bytes : (xs ys : List ℕ) → length (xs ++ ys) ≡ length xs + length ys
length-append_bytes = length-append

pub length-take_bytes : (n : ℕ) (xs : List ℕ) → length (take n xs) ≡ min n (length xs)
length-take_bytes = length-take

pub length-drop_bytes : (n : ℕ) (xs : List ℕ) → length (drop n xs) ≡ length xs - n
length-drop_bytes = length-drop

pub length-replicate_bytes : (n a : ℕ) → length (replicate n a) ≡ n
length-replicate_bytes = length-replicate

-- For `omega`, on lists of bytes.
pub ruleset lengths = (
  arith, length-append_bytes, length-take_bytes, length-drop_bytes, length-replicate_bytes,
  length-le_bytes,
)
