-- ===== src/Socket/Delivery.antt =====
-- What one transfer does to a connection on which no call fails.
use project.Prelude.{
  ℕ, suc, ◌-◌, ◌≤◌, ◌<◌, min, ◌≡◌, refl, sym, ◌∙◌, ap, false, List, [], ◌∷◌, ◌++◌, append_assoc,
  append-nil, length, length-append, ◌+◌, take, drop, take-append-drop, take-append_le,
  drop-append_le, arith,
}
use project.Socket.{moved, Sock, written, write, got, read}

-- The connection is open, and every call moves at least one byte where there is one.
pub record IsLive (s : Sock) : Type 0 where
  pub opened : s.closed ≡ false
  pub moves : (n : ℕ) → (k : ℕ) × (s.calls n ≡ moved (suc k))

-- Between `s` and `t` exactly `bytes` were sent, and nothing was read.
pub record Sends (bytes : List ℕ) (s t : Sock) : Type 0 where
  pub output : t.output ≡ s.output ++ bytes
  pub input : t.input ≡ s.input
  pub closed : t.closed ≡ s.closed
  pub calls : t.calls ≡ s.calls

-- Between `s` and `t` exactly `bytes` were read, and nothing was sent.
pub record Receives (bytes : List ℕ) (s t : Sock) : Type 0 where
  pub input : s.input ≡ bytes ++ t.input
  pub output : t.output ≡ s.output
  pub closed : t.closed ≡ s.closed
  pub calls : t.calls ≡ s.calls

pub Sends-refl : (s : Sock) → Sends [] s s
Sends-refl s = record {
  output = sym (append-nil s.output);
  input = refl;
  closed = refl;
  calls = refl;
}

pub Sends-trans :
    {xs ys : List ℕ} {s t u : Sock} → Sends xs s t → Sends ys t u → Sends (xs ++ ys) s u
Sends-trans {xs} {ys} {s} {t} {u} p q = record {
  output = rw (q.output, p.output) (append_assoc s.output xs ys);
  input = q.input ∙ p.input;
  closed = q.closed ∙ p.closed;
  calls = q.calls ∙ p.calls;
}

pub Receives-refl : (s : Sock) → Receives [] s s
Receives-refl s = record { input = refl; output = refl; closed = refl; calls = refl }

pub Receives-trans :
    {xs ys : List ℕ} {s t u : Sock} → Receives xs s t → Receives ys t u → Receives (xs ++ ys) s u
Receives-trans {xs} {ys} {s} {t} {u} p q = record {
  input = rw p.input (rw q.input (sym (append_assoc xs ys u.input)));
  output = q.output ∙ p.output;
  closed = q.closed ∙ p.closed;
  calls = q.calls ∙ p.calls;
}

pub Sends-IsLive : {bytes : List ℕ} {s t : Sock} → Sends bytes s t → IsLive s → IsLive t
Sends-IsLive p l = record { opened = p.closed ∙ l.opened; moves = λ n. rw p.calls (l.moves n) }

pub Receives-IsLive : {bytes : List ℕ} {s t : Sock} → Receives bytes s t → IsLive s → IsLive t
Receives-IsLive p l = record { opened = p.closed ∙ l.opened; moves = λ n. rw p.calls (l.moves n) }

write-moved :
    (buf : List ℕ) (s : Sock) (k n : ℕ)
    → s.closed ≡ false
    → s.calls s.clock ≡ moved k
    → min k (length buf) ≡ n
    → write buf s ≡ (written n, record s { clock = suc s.clock; output = s.output ++ take n buf })
unfolding write
write-moved buf s k n p q e = ground arith

read-moved :
    (size : ℕ) (s : Sock) (k n : ℕ)
    → s.closed ≡ false
    → s.calls s.clock ≡ moved k
    → min k (min size (length s.input)) ≡ n
    → read size s ≡ (got (take n s.input), record s { clock = suc s.clock; input = drop n s.input })
unfolding read
read-moved size s k n p q e = ground arith

-- A write on a live connection moves a nonempty prefix of a nonempty buffer.
pub write-IsLive :
    (buf : List ℕ) (s : Sock)
    → IsLive s
    → 0 < length buf
    → (n : ℕ) × ((write buf s).0 ≡ written (suc n))
      × (suc n ≤ length buf)
      × Sends (take (suc n) buf) s (write buf s).1
write-IsLive buf s l h =
    let (k, e) = l.moves s.clock in
    let n : ℕ = min k (length buf - 1) in
    let w = write-moved buf s (suc k) (suc n) l.opened e (omega arith) in
    (
      n,
      ap (λ r. r.0) w,
      omega arith,
      rw w (record { output = refl; input = refl; closed = refl; calls = refl }),
    )

read-IsLive :
    (size : ℕ) (s : Sock)
    → IsLive s
    → 0 < size
    → 0 < length s.input
    → (n : ℕ) × (suc n ≤ size)
      × (suc n ≤ length s.input)
      × ((read size s).0 ≡ got (take (suc n) s.input))
      × Receives (take (suc n) s.input) s (read size s).1
      × ((read size s).1.input ≡ drop (suc n) s.input)
read-IsLive size s l h i =
    let (k, e) = l.moves s.clock in
    let n : ℕ = min k (min (size - 1) (length s.input - 1)) in
    let r = read-moved size s (suc k) (suc n) l.opened e (omega arith) in
    (
      n,
      omega arith,
      omega arith,
      ap (λ x. x.0) r,
      rw r (record {
        input = sym (take-append-drop (suc n) s.input);
        output = refl;
        closed = refl;
        calls = refl;
      }),
      rw r,
    )

-- A read on a live connection that cannot reach past what is wanted moves a nonempty first part of it.
pub read_within :
    (ask : ℕ) (wanted rest : List ℕ) (s : Sock)
    → IsLive s
    → s.input ≡ wanted ++ rest
    → 0 < ask
    → 0 < length wanted
    → min ask (length s.input) ≤ length wanted
    → (b : ℕ) × (bs more : List ℕ) × (wanted ≡ (b ∷ bs) ++ more)
      × ((read ask s).0 ≡ got (b ∷ bs))
      × Receives (b ∷ bs) s (read ask s).1
      × ((read ask s).1.input ≡ more ++ rest)
unfolding take drop
read_within ask [] rest s l e h w le = absurd (omega arith)
read_within ask (b ∷ bs) rest s l e h w le =
    let held : length s.input ≡ suc (length bs + length rest) =
      ap length e ∙ ap suc (length-append bs rest) in
    let (n, asked, there, r, receives, left) = read-IsLive ask s l h (omega arith) in
    let cut : take (suc n) s.input ≡ b ∷ take n bs =
      ap (take (suc n)) e ∙ ap (λ xs. b ∷ xs) (take-append_le n bs rest (omega arith)) in
    (
      b,
      take n bs,
      drop n bs,
      ap (λ xs. b ∷ xs) (sym (take-append-drop n bs)),
      rw cut at r,
      rw cut at receives,
      left ∙ (ap (drop (suc n)) e ∙ drop-append_le n bs rest (omega arith)),
    )

-- The same where the read asks for just what is wanted.
pub read_wanted :
    (wanted rest : List ℕ) (s : Sock)
    → IsLive s
    → s.input ≡ wanted ++ rest
    → 0 < length wanted
    → (b : ℕ) × (bs more : List ℕ) × (wanted ≡ (b ∷ bs) ++ more)
      × ((read (length wanted) s).0 ≡ got (b ∷ bs))
      × Receives (b ∷ bs) s (read (length wanted) s).1
      × ((read (length wanted) s).1.input ≡ more ++ rest)
read_wanted wanted rest s l e h = read_within (length wanted) wanted rest s l e h h (omega arith)
