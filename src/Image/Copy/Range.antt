-- ===== src/Image/Copy/Range.antt =====
-- Ranges of an address space as bytes, and the address space that the runs leave readable. No code:
-- it is what the image of kernel/executable/winpmem.cpp is compared with.
use project.Prelude.{
  ℕ, zero, suc, ◌+◌, ◌-◌, ◌≤◌, ◌<◌, ◌≡◌, refl, sym, ◌∙◌, ap, true, false, List, [], ◌∷◌, ◌++◌,
  length, replicate, ltb, leb, if◌then◌else◌, arith, ◌&&◌,
}
use project.Image.Device.{Run, run_end}

-- The bytes of a memory from an address on.
unfoldable pub range : (ℕ → ℕ) → ℕ → ℕ → List ℕ
range memory a zero = []
range memory a (suc n) = memory a ∷ range memory (suc a) n

pub length-range : (f : ℕ → ℕ) (a n : ℕ) → length (range f a n) ≡ n
unfolding range
length-range f a zero = refl
length-range f a (suc n) = ap suc (length-range f (suc a) n)

pub range-append :
    (f : ℕ → ℕ) (a b k n m : ℕ) → a + k ≡ b → m ≡ k + n → range f a k ++ range f b n ≡ range f a m
unfolding range
range-append f a b zero n m e s =
    let start : b ≡ a = omega arith in let size : n ≡ m = omega arith in rw (start, size)
range-append f a b (suc k) n zero e s = absurd (omega arith)
range-append f a b (suc k) n (suc m) e s =
    ap (λ xs. f a ∷ xs) (range-append f (suc a) b k n m (omega arith) (omega arith))

pub range-ext :
    (f g : ℕ → ℕ) (a n : ℕ) → ((b : ℕ) → a ≤ b → b < a + n → f b ≡ g b) → range f a n ≡ range g a n
unfolding range
range-ext f g a zero same = refl
range-ext f g a (suc n) same =
    let rest = range-ext f g (suc a) n (λ b lo hi. same b (omega arith) (omega arith)) in
    rw (same a (omega arith) (omega arith), rest)

pub range-zero : (a n : ℕ) → range (λ b. 0) a n ≡ replicate n 0
unfolding range replicate
range-zero a zero = refl
range-zero a (suc n) = ap (λ xs. 0 ∷ xs) (range-zero (suc a) n)

-- The runs are in order, none overlaps another, and the first starts no lower than `current`.
abbrev pub IsOrdered : ℕ → List Run → Type 0
IsOrdered current [] = Unit
IsOrdered current (r ∷ runs) = (current ≤ r.base_address) × IsOrdered (run_end r) runs

-- The end of the last run.
abbrev pub top_of : ℕ → List Run → ℕ
top_of current [] = current
top_of current (r ∷ runs) = top_of (run_end r) runs

-- The byte at an address: the memory's in a run, and 0 elsewhere.
unfoldable pub flat : (ℕ → ℕ) → List Run → ℕ → ℕ
flat memory [] a = 0
flat memory (r ∷ runs) a =
    if leb r.base_address a && ltb a (run_end r) then memory a else flat memory runs a

-- What the loop over the runs is to write.
unfoldable pub pieces : (ℕ → ℕ) → ℕ → List Run → List ℕ
pieces memory current [] = []
pieces memory current (r ∷ runs) =
    replicate (r.base_address - current) 0
    ++ (range memory r.base_address r.number_of_bytes ++ pieces memory (run_end r) runs)

pub current-top_of :
    (current : ℕ) (runs : List Run) → IsOrdered current runs → current ≤ top_of current runs
current-top_of current [] h = omega arith
current-top_of current (r ∷ runs) (le, h) =
    let rest = current-top_of (run_end r) runs h in omega arith

flat-below :
    (memory : ℕ → ℕ) (current : ℕ) (runs : List Run) (a : ℕ)
    → IsOrdered current runs
    → a < current
    → flat memory runs a ≡ 0
unfolding flat
flat-below memory current [] a h lt = refl
flat-below memory current (r ∷ runs) a (le, h) lt =
    let rest = flat-below memory (run_end r) runs a h (omega arith) in
    let out : leb r.base_address a ≡ false = ground arith in rw (out, rest)

flat-inside :
    (memory : ℕ → ℕ) (r : Run) (runs : List Run) (a : ℕ)
    → r.base_address ≤ a
    → a < run_end r
    → flat memory (r ∷ runs) a ≡ memory a
unfolding flat
flat-inside memory r runs a lo hi =
    let lower : leb r.base_address a ≡ true = ground arith in
    let upper : ltb a (run_end r) ≡ true = ground arith in rw (lower, upper)

flat-above :
    (memory : ℕ → ℕ) (r : Run) (runs : List Run) (a : ℕ)
    → run_end r ≤ a
    → flat memory (r ∷ runs) a ≡ flat memory runs a
unfolding flat
flat-above memory r runs a lo =
    let lower : leb r.base_address a ≡ true = ground arith in
    let upper : ltb a (run_end r) ≡ false = ground arith in rw (lower, upper)

-- Piece by piece, the loop writes the flat address space up to the end of the last run.
pub pieces-flat :
    (memory : ℕ → ℕ) (current : ℕ) (runs : List Run)
    → IsOrdered current runs
    → pieces memory current runs ≡ range (flat memory runs) current (top_of current runs - current)
unfolding pieces
pieces-flat memory current [] h =
    let empty : current - current ≡ 0 = omega arith in rw empty (unfold range in refl)
pieces-flat memory current (r ∷ runs) (le, h) =
    let all : ℕ → ℕ = flat memory (r ∷ runs) in
    let gap : ℕ = r.base_address - current in
    let high : ℕ = top_of (run_end r) runs - run_end r in
    let top = current-top_of (run_end r) runs h in
    let zeros : range all current gap ≡ replicate gap 0 =
      range-ext all (λ b. 0) current gap
        (λ b lo hi. flat-below memory r.base_address (r ∷ runs) b (omega arith, h) (omega arith))
      ∙ range-zero current gap in
    let copied : range all r.base_address r.number_of_bytes
        ≡ range memory r.base_address r.number_of_bytes =
      range-ext all memory r.base_address r.number_of_bytes
        (λ b lo hi. flat-inside memory r runs b lo hi) in
    let later : range all (run_end r) high ≡ pieces memory (run_end r) runs =
      range-ext all (flat memory runs) (run_end r) high (λ b lo hi. flat-above memory r runs b lo)
      ∙ sym (pieces-flat memory (run_end r) runs h) in
    rw (← zeros, ← copied, ← later)
      (ap (λ xs. range all current gap ++ xs)
          (range-append all r.base_address (run_end r) r.number_of_bytes high
            (r.number_of_bytes + high) refl refl)
        ∙ range-append all current r.base_address gap (r.number_of_bytes + high)
            (top_of current (r ∷ runs) - current) (omega arith) (omega arith))
