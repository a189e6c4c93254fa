-- ===== src/Client/Registry/Numeral.antt =====
-- Numbers in base 10, as digits.
use project.Prelude.{
  ℕ, zero, suc, ◌+◌, ◌/◌, ◌%◌, ◌≤◌, ◌<◌, ◌≡◌, ◌≢◌, refl, ◌∙◌, ap, true, false, List, [], ◌∷◌, All,
  ◌==◌, arith, Bool-cases, ◌⊎◌, inl, inr,
}
use project.Json.{IsDigit, IsNumeral, value_from}
use project.Client.Registry.{digit, digits_from, numeral}

-- A row of digits, split at the first, for the number `n` in front of other digits.
pub record IsDecimal (n : ℕ) (acc t : List ℕ) : Type 0 where
  pub first : ℕ
  pub others : List ℕ
  pub split : t ≡ first ∷ others
  pub digits : All IsDigit (first ∷ others)
  pub numeral : IsNumeral first others
  pub value : value_from 0 (first ∷ others) ≡ value_from n acc

digit_lt : (d : ℕ) → d < 10 → digit d ≡ 48 + d
unfolding digit
digit_lt d lt = ground arith

IsNumeral_from : (d : ℕ) (acc : List ℕ) → d ≢ 48 → IsNumeral d acc
IsNumeral_from d [] h = tt
IsNumeral_from d (e ∷ es) h = h

small-IsDecimal :
    (count n : ℕ) (acc : List ℕ)
    → (n / 10 == 0) ≡ true
    → All IsDigit acc
    → (n ≢ 0) ⊎ (acc ≡ [])
    → IsDecimal n acc (digits_from (suc count) false n acc)
unfolding digits_from value_from
small-IsDecimal count n acc e all side =
    let zero_high : n / 10 ≡ 0 = ground arith in
    let low : n % 10 ≡ n = omega arith in
    let lt : n < 10 = omega arith in
    record {
      first = 48 + n;
      others = acc;
      split = rw (e, digits_from) (rw low (rw (digit_lt n lt) refl));
      digits = ((omega arith, omega arith), all);
      numeral = elim side [
        | inl nz ↦ IsNumeral_from (48 + n) acc (λ same. nz (omega arith))
        | inr none_yet ↦ rw none_yet tt
      ];
      value = ap (λ m. value_from m acc) (omega arith);
    }

digits_from_next :
    (count n : ℕ) (acc : List ℕ)
    → (n / 10 == 0) ≡ false
    → digits_from (suc count) false n acc ≡ digits_from count false (n / 10) (digit (n % 10) ∷ acc)
unfolding digits_from
digits_from_next count n acc e = rw (e, digits_from) refl

large_step :
    (count n : ℕ) (acc : List ℕ)
    → (n / 10 == 0) ≡ false
    → digits_from (suc (suc count)) false n acc
      ≡ digits_from (suc count) false (n / 10) ((48 + n % 10) ∷ acc)
large_step count n acc e =
    let lt : n % 10 < 10 = omega arith in
    digits_from_next (suc count) n acc e
    ∙ ap (λ d. digits_from (suc count) false (n / 10) (d ∷ acc)) (digit_lt (n % 10) lt)

value_step : (n : ℕ) (acc : List ℕ) → value_from (n / 10) ((48 + n % 10) ∷ acc) ≡ value_from n acc
unfolding value_from
value_step n acc = ap (λ m. value_from m acc) (omega arith)

digits_from-IsDecimal :
    (count n : ℕ) (acc : List ℕ)
    → n ≤ count
    → All IsDigit acc
    → (n ≢ 0) ⊎ (acc ≡ [])
    → IsDecimal n acc (digits_from (suc count) false n acc)
digits_from-IsDecimal zero n acc le all side = small-IsDecimal zero n acc (ground arith) all side
digits_from-IsDecimal (suc count) n acc le all side = elim (Bool-cases (n / 10 == 0)) [
  | inl small ↦ small-IsDecimal (suc count) n acc small all side
  | inr large ↦
      let nz : n / 10 ≢ 0 = (λ e. ground arith) in
      let r : IsDecimal (n / 10) ((48 + n % 10) ∷ acc)
          (digits_from (suc count) false (n / 10) ((48 + n % 10) ∷ acc)) =
        digits_from-IsDecimal count (n / 10) ((48 + n % 10) ∷ acc) (omega arith)
          ((omega arith, omega arith), all) (inl nz) in
      record {
        first = r.first;
        others = r.others;
        split = large_step count n acc large ∙ r.split;
        digits = r.digits;
        numeral = r.numeral;
        value = r.value ∙ value_step n acc;
      }
]

-- An unsigned number in a stream of base 10: a numeral of the number's value.
pub numeral-IsDecimal : (n : ℕ) → IsDecimal n [] (numeral false n)
unfolding numeral
numeral-IsDecimal n = digits_from-IsDecimal n n [] (omega arith) tt (inr refl)
