-- ===== src/Socket/Counts.antt =====
-- How many bytes a call of `read` takes from a connection, whatever the network answers.
use project.Prelude.{
  ℕ, ◌+◌, ◌≤◌, min, ◌≡◌, refl, ◌⊎◌, inl, inr, List, length, take, lengths, Bool-cases,
}
use project.Socket.{Outcome, moved, failure, Sock, Read, read_error, got, read}

-- Every byte that the call returned is gone from the connection, and no other.
pub data Reads (k : ℕ) (s : Sock) : Read → Sock → Type 0 where
  lost : (t : Sock) → length t.input ≡ length s.input → Reads k s read_error t
  taken :
      (bytes : List ℕ) (t : Sock)
      → length bytes ≤ k
      → length bytes + length t.input ≡ length s.input
      → Reads k s (got bytes) t

pub Outcome-cases : (o : Outcome) → (o ≡ failure) ⊎ ((k : ℕ) × (o ≡ moved k))
Outcome-cases failure = inl refl
Outcome-cases (moved k) = inr (k, refl)

pub read-Reads : (k : ℕ) (s : Sock) → Reads k s (read k s).0 (read k s).1
unfolding read
read-Reads k s = elim (Bool-cases s.closed) [
  | inl shut ↦ rw (shut, read) (lost _ refl)
  | inr opened ↦ elim (Outcome-cases (s.calls s.clock)) [
    | inl failed ↦ rw (opened, failed, read) (lost _ refl)
    | inr (n, ready) ↦
        let m : ℕ = min n (min k (length s.input)) in
        rw (opened, ready, read) (taken (take m s.input) _ (omega lengths) (omega lengths))
  ]
]
