-- ===== src/Image/Metadata/Reads.antt =====
-- A reader of the metadata that `store_metadata_` of kernel/executable/winpmem.cpp writes.
use project.Prelude.{
  ℕ, ◌&&◌, ◌-◌, zero, suc, ◌+◌, ◌*◌, ◌/◌, ◌%◌, ◌≤◌, ◌<◌, ◌≡◌, ◌≢◌, refl, sym, ◌∙◌, ap, true, Option,
  none, some, List, [], ◌∷◌, ◌++◌, ltb, leb, ◌==◌, bytes_eq, if◌then◌else◌, codes, arith,
  Bool-cases, inl, inr,
}
use project.Client.Registry.{digit, digits_from, numeral}
use project.Image.Metadata.{
  MemoryInfo, Architecture, amd64, intel, other_arch, arch_name, alternate_hex, arch_label,
  closing_text,
}

unfoldable pub hex_value : ℕ → Option ℕ
hex_value c =
    if leb 48 c && ltb c 58
    then some (c - 48)
    else if leb 97 c && ltb c 103
    then some (c - 87)
    else none

-- The digits in front, behind the number that the digits before them make.
unfoldable pub read_digits : ℕ → List ℕ → ℕ × List ℕ
unfolding hex_value
read_digits n [] = (n, [])
read_digits n (c ∷ cs) = elim (hex_value c) [
  | none ↦ (n, c ∷ cs)
  | some d ↦ read_digits (n * 16 + d) cs
]

-- The text behind a label.
unfoldable pub strip : List ℕ → List ℕ → Option (List ℕ)
strip [] t = some t
strip (l ∷ label) [] = none
strip (l ∷ label) (c ∷ t) = let rest = strip label t in if l == c then rest else none

unfoldable pub read_number : List ℕ → ℕ × List ℕ
unfolding strip read_digits
read_number t = elim (strip (codes "0x") t) [
  | some digits ↦ read_digits 0 digits
  | none ↦ read_digits 0 t
]

hex_value-digit : (d : ℕ) → d < 16 → hex_value (digit d) ≡ some d
unfolding hex_value digit
hex_value-digit d lt = ground arith

read_digits-digit :
    (n d : ℕ) (t : List ℕ) → d < 16 → read_digits n (digit d ∷ t) ≡ read_digits (n * 16 + d) t
unfolding read_digits
read_digits-digit n d t lt = rw (hex_value-digit d lt, read_digits) refl

read_digits-low : (n : ℕ) (t : List ℕ) → read_digits (n / 16) (digit (n % 16) ∷ t) ≡ read_digits n t
read_digits-low n t =
    let lt : n % 16 < 16 = omega arith in
    let same : n / 16 * 16 + n % 16 ≡ n = omega arith in
    read_digits-digit (n / 16) (n % 16) t lt ∙ ap (λ m. read_digits m t) same

last_digit :
    (count n : ℕ) (t : List ℕ)
    → (n / 16 == 0) ≡ true
    → read_digits 0 (digits_from (suc count) true n t) ≡ read_digits n t
unfolding digits_from
last_digit count n t small =
    let zero_high : n / 16 ≡ 0 = ground arith in
    rw (small, digits_from)
      (ap (λ m. read_digits m (digit (n % 16) ∷ t)) (sym zero_high) ∙ read_digits-low n t)

read_digits_from :
    (count n : ℕ) (t : List ℕ)
    → n ≤ count
    → read_digits 0 (digits_from (suc count) true n t) ≡ read_digits n t
unfolding digits_from
read_digits_from zero n t le = last_digit zero n t (ground arith)
read_digits_from (suc c) n t le = elim (Bool-cases (n / 16 == 0)) [
  | inl small ↦ last_digit (suc c) n t small
  | inr large ↦
      let nz : n / 16 ≢ 0 = (λ e. ground arith) in
      let smaller : n / 16 ≤ c = omega arith in
      rw (large, digits_from)
        (read_digits_from c (n / 16) (digit (n % 16) ∷ t) smaller ∙ read_digits-low n t)
]

digits_from-append :
    (count n : ℕ) (t rest : List ℕ)
    → digits_from count true n t ++ rest ≡ digits_from count true n (t ++ rest)
unfolding digits_from
digits_from-append zero n t rest = refl
digits_from-append (suc count) n t rest = elim (Bool-cases (n / 16 == 0)) [
  | inl small ↦ rw (small, digits_from) refl
  | inr large ↦
      rw (large, digits_from) (digits_from-append count (n / 16) (digit (n % 16) ∷ t) rest)
]

pub strip-label : (label t : List ℕ) → strip label (label ++ t) ≡ some t
unfolding strip
strip-label [] t = refl
strip-label (l ∷ label) t = ground (arith, strip-label label t)

read_number-alternate_hex :
    (n : ℕ) (rest : List ℕ) → read_number (alternate_hex n ++ 10 ∷ rest) ≡ (n, 10 ∷ rest)
unfolding read_number alternate_hex numeral read_digits
read_number-alternate_hex n rest = elim (Bool-cases (n == 0)) [
  | inl nothing ↦ let same : n ≡ 0 = ground arith in rw (nothing, alternate_hex) (rw same refl)
  | inr some_digits ↦
      rw (some_digits, alternate_hex)
        (ap (read_digits 0) (digits_from-append (suc n) n [] (10 ∷ rest))
          ∙ read_digits_from n n (10 ∷ rest) (omega arith))
]

-- A number behind its label, and what follows.
unfoldable pub field : {A : Type 0} → List ℕ → (ℕ → List ℕ → Option A) → List ℕ → Option A
unfolding strip read_number
field label k t = elim (strip label t) [
  | none ↦ none
  | some rest ↦ let (n, rest') = read_number rest in k n rest'
]

pub field-label :
    {A : Type 0} (label : List ℕ) (k : ℕ → List ℕ → Option A) (n : ℕ) (rest : List ℕ)
    → field label k (label ++ (alternate_hex n ++ 10 ∷ rest)) ≡ k n (10 ∷ rest)
unfolding field
field-label label k n rest =
    rw (strip-label label (alternate_hex n ++ 10 ∷ rest), field)
      (ap (λ (x : ℕ × List ℕ). k x.0 x.1) (read_number-alternate_hex n rest))

-- The text's last two lines.
unfoldable pub read_arch : List ℕ → Option Architecture
read_arch t =
    if bytes_eq t (codes "\nArch: AMD64\n...\n")
    then some amd64
    else if bytes_eq t (codes "\nArch: I386\n...\n")
    then some intel
    else if bytes_eq t (codes "\nArch: Unknown\n...\n")
    then some other_arch
    else none

pub read_arch-label :
    (arch : Architecture) → read_arch (arch_label ++ (arch_name arch ++ closing_text)) ≡ some arch
unfolding read_arch arch_name bytes_eq
read_arch-label amd64 = refl
read_arch-label intel = refl
read_arch-label other_arch = refl

-- The four numbers and the architecture of a text with that time.
unfoldable pub read_metadata : List ℕ → List ℕ → Option (MemoryInfo × Option Architecture)
unfolding strip field read_arch
read_metadata time t =
    elim (strip
      ((codes
          "# PMEM\n---\nacquisition_tool: 'WinPMEM, driver version: 2.0.1'\nacquisition_timestamp: ")
        ++ time)
      t) [
        | none ↦ none
        | some behind ↦
            field (codes "\nCR3: ")
              (λ a. field (codes "\nNtBuildNumber: ") (λ b.
                field (codes "\nNtBuildNumberAddr: ") (λ c. field (codes "\nKernBase: ") (λ d rest.
                  some (
                    record {
                      cr3 = a;
                      nt_build_number = b;
                      nt_build_number_addr = c;
                      kern_base = d;
                    },
                    read_arch rest,
                  )))))
              behind
      ]
