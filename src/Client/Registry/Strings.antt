-- ===== src/Client/Registry/Strings.antt =====
-- The strings of a REG_MULTI_SZ, as `EnumerateKey` of InfoDumping/InfoDumping.cpp prints them.
use project.Prelude.{
  ℕ, zero, suc, ◌+◌, ◌*◌, ◌/◌, ◌%◌, ◌<◌, ◌≡◌, ◌≢◌, refl, sym, ap, subst, ◌∙◌, Bool, false, some,
  List, [], ◌∷◌, ◌++◌, append_assoc, All, codes, length, length-append, ◌==◌, arith,
}
use project.Json.{text, Items, no_items, item, is_blank, IsPlain, Reads, blanks, quoted, ReadsItems}
use project.Client.Registry.{say, ◌>>◌, nonzero, unit_bytes}
use project.Client.Registry.Prints.{Emits, last-Emits, next-Emits}
use project.Client.Registry.Value.{units, next_string, comma_before, say_strings}

-- The units of strings: each with a 0 behind it, and another 0 behind the last.
abbrev pub multi : List (List ℕ) → List ℕ
multi [] = 0 ∷ []
multi (s ∷ ss) = s ++ 0 ∷ multi ss

abbrev pub texts : List (List ℕ) → Items
texts [] = no_items
texts (s ∷ ss) = item (text (nonzero (unit_bytes s))) (texts ss)

-- A string with a unit at least, no unit of which is 0, and which is plain as it is printed.
pub record IsString (s : List ℕ) : Type 0 where
  pub some_unit : s ≢ []
  pub inside : All (λ u. (u ≢ 0) × (u < 65536)) s
  pub plain : All IsPlain (nonzero (unit_bytes s))

next_string-append :
    (s later : List ℕ)
    → All (λ u. (u ≢ 0) × (u < 65536)) s
    → next_string (s ++ 0 ∷ later) ≡ some (s, later)
unfolding next_string
next_string-append [] later h = refl
next_string-append (u ∷ s) later ((other, _), h) =
    let differs : (u == 0) ≡ false = ground arith in
    rw (next_string-append s later h, next_string) (rw differs refl)

pub units-unit_bytes :
    (us behind : List ℕ)
    → All (λ u. u < 65536) us
    → units (unit_bytes us ++ behind) ≡ us ++ units behind
unfolding units unit_bytes
units-unit_bytes [] behind h = refl
units-unit_bytes (u ∷ us) behind (lt, h) =
    let same : u % 256 + 256 * (u / 256 % 256) ≡ u = omega arith in
    rw same (ap (λ r. u ∷ r) (units-unit_bytes us behind h))

say_strings-end : (n : ℕ) (us : List ℕ) → say_strings (suc n) (0 ∷ us) ≡ say []
unfolding say_strings
say_strings-end n us i hex = some ([], hex)

string_text : List ℕ → List ℕ
string_text s = codes "        \"" ++ (nonzero (unit_bytes s) ++ codes "\"")

say_strings_step :
    (n u : ℕ) (s later comma : List ℕ)
    → u ≢ 0
    → next_string (u ∷ s ++ 0 ∷ later) ≡ some (u ∷ s, later)
    → comma_before later ≡ some comma
    → say_strings (suc n) (u ∷ s ++ 0 ∷ later)
      ≡ say (string_text (u ∷ s)) >> (say comma >> say_strings n later)
unfolding say_strings string_text
say_strings_step n u s later comma other found c i hex = pointwise hex i
  where
    pointwise :
        (hex : Bool)
        → say_strings (suc n) (u ∷ s ++ 0 ∷ later) hex
          ≡ (say (string_text (u ∷ s)) >> (say comma >> say_strings n later)) hex
    pointwise hex =
        let differs : (u == 0) ≡ false = ground arith in rw (differs, found, c, say_strings) refl

string-Emits :
    (s : List ℕ) (a : Bool)
    → All IsPlain (nonzero (unit_bytes s))
    → Emits (say (string_text s)) a a (Reads (text (nonzero (unit_bytes s))))
unfolding string_text is_blank
string-Emits s a h = record {
  out = string_text s;
  prints = record { result = refl };
  read = λ rest. rw (append_assoc (nonzero (unit_bytes s)) (codes "\"") rest) (
      blanks (codes "        ") (refl, (refl, (refl, (refl, (refl, (refl, (refl, (refl, tt))))))))
        (quoted (nonzero (unit_bytes s)) h));
}

comma_before-multi :
    (s : List ℕ) (ss : List (List ℕ)) (extra : List ℕ)
    → s ≢ []
    → All (λ u. (u ≢ 0) × (u < 65536)) s
    → comma_before (multi (s ∷ ss) ++ extra) ≡ some (codes ",\n")
unfolding comma_before
comma_before-multi [] ss extra full h = absurd (full refl)
comma_before-multi (u ∷ s) ss extra full ((other, _), h) =
    let differs : (u == 0) ≡ false = ground arith in rw differs refl

first_string :
    (n u : ℕ) (s tail extra comma : List ℕ)
    → All (λ v. (v ≢ 0) × (v < 65536)) (u ∷ s)
    → comma_before (tail ++ extra) ≡ some comma
    → say_strings (suc n) (((u ∷ s) ++ 0 ∷ tail) ++ extra)
      ≡ say (string_text (u ∷ s)) >> (say comma >> say_strings n (tail ++ extra))
first_string n u s tail extra comma h c =
    ap (say_strings (suc n)) (append_assoc (u ∷ s) (0 ∷ tail) extra)
    ∙ say_strings_step n u s (tail ++ extra) comma h.0.0
        (next_string-append (u ∷ s) (tail ++ extra) h) c

-- The loop on one string or more, behind which another 0 stands.
pub say_strings-Emits :
    (n : ℕ) (a : Bool) (s : List ℕ) (ss : List (List ℕ)) (extra : List ℕ)
    → length (s ∷ []) + length ss < n
    → All IsString (s ∷ ss)
    → Emits (say_strings n (multi (s ∷ ss) ++ extra)) a a (ReadsItems (texts (s ∷ ss)))
unfolding comma_before
say_strings-Emits zero a s ss extra lt h = absurd (omega arith)
say_strings-Emits (suc n) a [] ss extra lt (v, h) = absurd (v.some_unit refl)
say_strings-Emits (suc zero) a (u ∷ s) ss extra lt h = absurd (omega arith)
say_strings-Emits (suc (suc n)) a (u ∷ s) [] extra lt (v, h) =
    let same : say_strings (suc (suc n)) (multi ((u ∷ s) ∷ []) ++ extra)
        ≡ say (string_text (u ∷ s)) >> (say [] >> say []) =
      first_string (suc n) u s (0 ∷ []) extra [] v.inside refl
      ∙ ap (λ k. say (string_text (u ∷ s)) >> (say [] >> k)) (say_strings-end n extra) in
    subst (λ m. Emits m a a (ReadsItems (texts ((u ∷ s) ∷ [])))) (sym same)
      (last-Emits [] tt (string-Emits (u ∷ s) a v.plain))
say_strings-Emits (suc (suc n)) a (u ∷ s) (next ∷ ss) extra lt (v, (w, h)) =
    let same =
      first_string (suc n) u s (multi (next ∷ ss)) extra (codes ",\n") v.inside
        (comma_before-multi next ss extra w.some_unit w.inside) in
    subst (λ m. Emits m a a (ReadsItems (texts ((u ∷ s) ∷ next ∷ ss)))) (sym same)
      (next-Emits (string-Emits (u ∷ s) a v.plain)
        (say_strings-Emits (suc n) a next ss extra (omega arith) (w, h)))

fits_before :
    (s later : List ℕ)
    → All (λ u. (u ≢ 0) × (u < 65536)) s
    → All (λ u. u < 65536) later
    → All (λ u. u < 65536) (s ++ 0 ∷ later)
fits_before [] later h k = (omega arith, k)
fits_before (u ∷ s) later ((_, lt), h) k = (lt, fits_before s later h k)

pub multi_fits : (ss : List (List ℕ)) → All IsString ss → All (λ u. u < 65536) (multi ss)
multi_fits [] h = (omega arith, tt)
multi_fits (s ∷ ss) (v, h) = fits_before s (multi ss) v.inside (multi_fits ss h)

length-unit_bytes : (us : List ℕ) → length (unit_bytes us) ≡ 2 * length us
unfolding unit_bytes
length-unit_bytes [] = refl
length-unit_bytes (u ∷ us) = let rest = length-unit_bytes us in omega arith

multi_long : (ss : List (List ℕ)) → length ss < length (multi ss)
multi_long [] = omega arith
multi_long (s ∷ ss) =
    let size : length (s ++ 0 ∷ multi ss) ≡ length s + suc (length (multi ss)) =
      length-append s (0 ∷ multi ss) in
    omega (arith, multi_long ss)

-- Enough bytes for the count of the loop.
pub multi_lt :
    (ss : List (List ℕ)) (behind : List ℕ) → length ss < length (unit_bytes (multi ss) ++ behind)
multi_lt ss behind =
    let all : length (unit_bytes (multi ss) ++ behind)
        ≡ length (unit_bytes (multi ss)) + length behind =
      length-append (unit_bytes (multi ss)) behind in
    omega (arith, length-unit_bytes (multi ss), multi_long ss)
