-- ===== src/Socket/Runs.antt =====
-- What a transfer that returns 0 did, and how its rounds add up.
use project.Prelude.{
  ℕ, suc, ◌+◌, ◌-◌, ◌≤◌, ◌≡◌, refl, sym, ◌∙◌, ap, List, ◌++◌, append_assoc, length, take, drop,
  take-split, take-take, drop-drop, lengths, Status, ok, arith, drop-append_ge, length-append,
  take-append,
}
use project.Socket.{Sock}
use project.Socket.Delivery.{Sends, Receives}
use project.Socket.Buffer.{window, store_at, Received}

-- A run that returned 0 and sent exactly `bytes`.
pub record Sent (bytes : List ℕ) (s : Sock) (r : Status × Sock) : Type 0 where
  pub status : r.0 ≡ ok
  pub sends : Sends bytes s r.1

-- A run that returned 0, read exactly `bytes`, and left `buffer` in its destination.
pub record Filled (bytes buffer : List ℕ) (s : Sock) (r : Received) : Type 0 where
  pub status : r.0 ≡ ok
  pub dest : r.1 ≡ buffer
  pub receives : Receives bytes s r.2

-- What a round transfers and what the later rounds transfer make up the window.
pub window_split :
    (size total n : ℕ) (src : List ℕ)
    → suc n ≤ size - total
    → take (suc n) (window size total src) ++ window size (total + suc n) src
      ≡ window size total src
window_split size total n src h =
    let e : size - (total + suc n) ≡ size - total - suc n = omega arith in
    rw (take-take (size - total) (suc n) (drop total src) h, e)
      (rw (← drop-drop total (suc n) (total + suc n) src refl)
        (sym (take-split (size - total) (suc n) (drop total src) h)))

pub length-window :
    (size total : ℕ) (src : List ℕ)
    → size ≤ length src
    → length (window size total src) ≡ size - total
length-window size total src h = omega lengths

-- A round stores what it read behind what is there.
pub store_at-append :
    (total : ℕ) (front back bytes : List ℕ)
    → length front ≡ total
    → store_at total bytes (front ++ back) ≡ (front ++ bytes) ++ drop (length bytes) back
store_at-append total front back bytes e =
    let past : drop (total + length bytes) (front ++ back) ≡ drop (length bytes) back =
      drop-append_ge (total + length bytes) front back (omega arith)
      ∙ ap (λ n. drop n back) (omega arith) in
    rw (take-append total front back (omega arith), past)
      (sym (append_assoc front bytes (drop (length bytes) back)))

pub buffer_split :
    (front chunk later wanted back : List ℕ)
    → wanted ≡ chunk ++ later
    → (front ++ chunk) ++ (later ++ drop (length later) (drop (length chunk) back))
      ≡ front ++ (wanted ++ drop (length wanted) back)
buffer_split front chunk later wanted back e =
    rw
      (
        e,
        drop-drop (length chunk) (length later) (length (chunk ++ later)) back
            (length-append chunk later),
      )
      (simp append_assoc)
