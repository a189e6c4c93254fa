-- ===== src/Image/Text.antt =====
-- `asprintf` and `aswprintf` of kernel/executable/winpmem.cpp. `t` is the text that the format and
-- its arguments make; `grows` says for which sizes `malloc` and `realloc` succeed. Sizes are plain
-- numbers: an `int` holds those that a text below 2 ^ 30 characters needs.
use project.Prelude.{
  ℕ, zero, suc, ◌+◌, ◌-◌, ◌*◌, ◌≤◌, ◌<◌, ◌≡◌, refl, sym, ap, ◌∙◌, Bool, true, false, Option, none,
  some, List, length, leb, ltb, if◌then◌else◌, Status, ok, no_fuel, arith, Bool-cases, inl, inr,
}

-- `_vsnprintf`: the text's length where it fits, and -1 where it does not.
unfoldable pub vsnprintf : ℕ → ℕ → Option ℕ
vsnprintf size len = if leb len size then some len else none

-- The size to try next; `none` where the text stands in the buffer with its end.
unfoldable pub next_size : ℕ → ℕ → Option ℕ
unfolding vsnprintf
next_size size len = elim (vsnprintf size len) [
  | some n ↦ if ltb n size then none else some (n + 1)
  | none ↦ some (2 * size)
]

-- The loop; the count bounds its rounds. A result of `none` is the null pointer.
unfoldable pub print_loop : (ℕ → Bool) → ℕ → List ℕ → ℕ → Status × Option (List ℕ)
unfolding next_size
print_loop grows zero t size = (no_fuel, none)
print_loop grows (suc fuel) t size = elim (next_size size (length t)) [
  | none ↦ (ok, some t)
  | some bigger ↦
      let rest = print_loop grows fuel t bigger in if grows bigger then rest else (ok, none)
]

unfoldable pub asprintf : (ℕ → Bool) → List ℕ → Status × Option (List ℕ)
unfolding print_loop
asprintf grows t =
    let printed = print_loop grows (length t + 2) t 1000 in
    if grows 1000 then printed else (ok, none)

-- Two bytes for each character.
unfoldable pub aswprintf : (ℕ → Bool) → List ℕ → Status × Option (List ℕ)
unfolding asprintf
aswprintf grows t = asprintf (λ size. grows (size * 2)) t

-- The whole text, or the null pointer where an allocation failed.
pub data Printed (grows : ℕ → Bool) (t : List ℕ) : Status × Option (List ℕ) → Type 0 where
  whole : Printed grows t (ok, some t)
  refused : (size : ℕ) → grows size ≡ false → Printed grows t (ok, none)

grown-Printed :
    (grows : ℕ → Bool) (t : List ℕ) (size : ℕ) (rest : Status × Option (List ℕ))
    → Printed grows t rest
    → Printed grows t (if grows size then rest else (ok, none))
grown-Printed grows t size rest p = elim (Bool-cases (grows size)) [
  | inl room ↦ rw room p
  | inr full ↦ rw full (refused size full)
]

next_size_long : (size len : ℕ) → size < len → next_size size len ≡ some (2 * size)
unfolding next_size vsnprintf
next_size_long size len lt =
    let long : leb len size ≡ false = ground arith in rw (long, next_size) refl

next_size_exact : (len : ℕ) → next_size len len ≡ some (len + 1)
unfolding next_size vsnprintf
next_size_exact len =
    let fits : leb len len ≡ true = ground arith in
    let full : ltb len len ≡ false = ground arith in rw (fits, full, next_size) refl

next_size_below : (size len : ℕ) → len < size → next_size size len ≡ none
unfolding next_size vsnprintf
next_size_below size len lt =
    let fits : leb len size ≡ true = ground arith in
    let room : ltb len size ≡ true = ground arith in rw (fits, room, next_size) refl

bigger-Printed :
    (grows : ℕ → Bool) (fuel : ℕ) (t : List ℕ) (size bigger : ℕ)
    → next_size size (length t) ≡ some bigger
    → Printed grows t (print_loop grows fuel t bigger)
    → Printed grows t (print_loop grows (suc fuel) t size)
unfolding print_loop
bigger-Printed grows fuel t size bigger e p =
    rw (e, print_loop) (grown-Printed grows t bigger (print_loop grows fuel t bigger) p)

print_loop-Printed :
    (grows : ℕ → Bool) (fuel : ℕ) (t : List ℕ) (size : ℕ)
    → 1 ≤ size
    → length t + 1 - size < fuel
    → Printed grows t (print_loop grows fuel t size)
unfolding print_loop
print_loop-Printed grows zero t size one lt = absurd (omega arith)
print_loop-Printed grows (suc fuel) t size one lt = elim (Bool-cases (leb (length t) size)) [
  | inr long ↦
      let bound : size < length t = ground arith in
      bigger-Printed grows fuel t size (2 * size) (next_size_long size (length t) bound)
        (print_loop-Printed grows fuel t (2 * size) (omega arith) (omega arith))
  | inl fits ↦ elim (Bool-cases (ltb (length t) size)) [
    | inl below ↦
        let room : length t < size = ground arith in
        rw (next_size_below size (length t) room, print_loop) whole
    | inr exact ↦
        let same : length t ≡ size = ground arith in
        bigger-Printed grows fuel t size (length t + 1)
          (ap (λ n. next_size n (length t)) (sym same) ∙ next_size_exact (length t))
          (print_loop-Printed grows fuel t (length t + 1) (omega arith) (omega arith))
  ]
]

-- Whatever the text, and whichever allocations fail: `asprintf` ends, and gives exactly the text, or
-- the null pointer where the allocation of some size failed. `aswprintf` does the same, with two
-- bytes for each character.
pub asprintf-Printed :
    (grows : ℕ → Bool) (t : List ℕ)
    → Printed grows t (asprintf grows t) × Printed (λ size. grows (size * 2)) t (aswprintf grows t)
unfolding asprintf aswprintf
asprintf-Printed grows t = (printed grows, printed (λ size. grows (size * 2)))
  where
    printed : (g : ℕ → Bool) → Printed g t (asprintf g t)
    printed g =
        grown-Printed g t 1000 (print_loop g (length t + 2) t 1000)
          (print_loop-Printed g (length t + 2) t 1000 (omega arith) (omega arith))
