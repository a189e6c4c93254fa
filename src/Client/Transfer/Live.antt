-- ===== src/Client/Transfer/Live.antt =====
-- `sendAll` and `receiveAll` of InfoDumping/InfoDumping.cpp on a connection on which no call fails.
use project.Prelude.{
  ℕ, zero, suc, ◌+◌, ◌-◌, ◌%◌, ◌≤◌, ◌<◌, ◌≡◌, refl, sym, ◌∙◌, ap, inl, inr, true, false, List, [],
  ◌∷◌, ◌++◌, length, take, drop, take-zero, drop-zero, Status, arith, ltb, Bool-cases, ap₂,
  length-append, min,
}
use project.Socket.{Sock, write, got, read}
use project.Socket.Delivery.{
  IsLive, Sends-refl, Sends-trans, Sends-IsLive, Receives, Receives-refl, Receives-trans,
  Receives-IsLive, write-IsLive, read_within,
}
use project.Socket.Buffer.{window, Received}
use project.Socket.Runs.{Sent, Filled, window_split, length-window, store_at-append, buffer_split}
use project.Client.Transfer.{
  uint_mod, sent_count, after_send, send_loop, send_all, read_count, read_bytes, after_recv,
  receive_loop, receive_all,
}

after_send_moved :
    (again : ℕ → Sock → Status × Sock) (n : ℕ) (s : Sock)
    → after_send again (suc n) s ≡ again (suc n) s
unfolding after_send
after_send_moved again n s = ground arith

after_recv_moved :
    (again : ℕ → Sock → Received) (dest : List ℕ) (n : ℕ) (s : Sock)
    → after_recv again dest (suc n) s ≡ again (suc n) s
unfolding after_recv
after_recv_moved again dest n s = ground arith

send_loop-Sent :
    (fuel size : ℕ) (src : List ℕ) (total : ℕ) (s : Sock)
    → size - total < fuel
    → size ≤ length src
    → size < uint_mod
    → IsLive s
    → Sent (window size total src) s (send_loop fuel size src total s)
unfolding send_loop sent_count
send_loop-Sent zero size src total s h fits word l = absurd (omega arith)
send_loop-Sent (suc fuel) size src total s h fits word l = elim (Bool-cases (ltb total size)) [
  | inr stop ↦
      rw (stop, send_loop, take-zero (size - total) (drop total src) (ground arith))
        (record { status = refl; sends = Sends-refl s })
  | inl more ↦
      let len = length-window size total src fits in
      let (n, e, le, sends) = write-IsLive (window size total src) s l (ground arith) in
      let rest =
        send_loop-Sent fuel size src (total + suc n) (write (window size total src) s).1
          (ground arith) fits word (Sends-IsLive sends l) in
      let wrap : (total + suc n) % uint_mod ≡ total + suc n = ground arith in
      rw (more, send_loop, e, after_send_moved, wrap)
        (record {
          status = rest.status;
          sends =
              rw (window_split size total n src (omega arith)) at (Sends-trans sends rest.sends);
        })
]

-- No call on the connection fails, the buffer has at least the `size` bytes asked for, `size` is
-- below 2 ^ 32, and the fuel exceeds it: `sendAll` returns 0 and has sent exactly the first `size`
-- bytes of the buffer, however the network splits them.
pub send_all-Sent :
    (fuel size : ℕ) (src : List ℕ) (s : Sock)
    → size < fuel
    → size ≤ length src
    → size < uint_mod
    → IsLive s
    → Sent (take size src) s (send_all fuel size src s)
unfolding send_all
send_all-Sent fuel size src s h fits word l =
    let whole : window size 0 src ≡ take size src =
      ap₂ take {x = size - 0} (omega arith) (drop-zero 0 src refl) in
    rw whole at (send_loop-Sent fuel size src 0 s (omega arith) fits word l)

-- The loop, started with `total` bytes of the buffer filled, has read exactly `wanted` behind them and
-- goes on from there.
pub record Reached (fuel size total : ℕ) (front back wanted : List ℕ) (s : Sock) : Type 0 where
  pub left : ℕ
  pub behind : Sock
  pub same :
      receive_loop fuel size (front ++ back) total s
      ≡ receive_loop left size
          (front ++ (wanted ++ drop (length wanted) back))
          (total + length wanted)
          behind
  pub spends : fuel ≤ left + length wanted
  pub receives : Receives wanted s behind

-- One round, and what the others do.
round-Reached :
    (fuel size total : ℕ) (front back wanted : List ℕ) (b : ℕ) (bs later : List ℕ) (s : Sock)
    → length front ≡ total
    → total + length wanted ≤ size
    → size < uint_mod
    → wanted ≡ (b ∷ bs) ++ later
    → (read (size - total) s).0 ≡ got (b ∷ bs)
    → Receives (b ∷ bs) s (read (size - total) s).1
    → Reached fuel size
        (total + length (b ∷ bs))
        (front ++ (b ∷ bs))
        (drop (length (b ∷ bs)) back)
        later
        (read (size - total) s).1
    → Reached (suc fuel) size total front back wanted s
unfolding receive_loop read_count read_bytes
round-Reached fuel size total front back wanted b bs later s at_total fits word split r receives
      next =
    let sizes : length wanted ≡ length (b ∷ bs) + length later =
      ap length split ∙ length-append (b ∷ bs) later in
    let more : ltb total size ≡ true = ground arith in
    let wrap : (total + length (b ∷ bs)) % uint_mod ≡ total + length (b ∷ bs) = omega arith in
    let count : total + length (b ∷ bs) + length later ≡ total + length wanted = omega arith in
    record {
      left = next.left;
      behind = next.behind;
      same =
          rw
            (
              more,
              receive_loop,
              r,
              after_recv_moved,
              wrap,
              store_at-append total front back (b ∷ bs) at_total,
            )
            (next.same
              ∙ ap₂ (λ (xs : List ℕ) (n : ℕ). receive_loop next.left size xs n next.behind)
                  (buffer_split front (b ∷ bs) later wanted back split) count);
      spends = omega (arith, next.spends);
      receives = rw (sym split) at (Receives-trans receives next.receives);
    }

pub receive_loop-Reached :
    (fuel size total : ℕ) (front back wanted rest : List ℕ) (s : Sock)
    → length wanted ≤ fuel
    → length front ≡ total
    → total + length wanted ≤ size
    → size < uint_mod
    → s.input ≡ wanted ++ rest
    → min (size - total) (length s.input) ≤ length wanted
    → IsLive s
    → Reached fuel size total front back wanted s
unfolding receive_loop read_count read_bytes
receive_loop-Reached fuel size total front back [] rest s h at_total fits word e near l = record {
  left = fuel;
  behind = s;
  same =
      ap₂ (λ (xs : List ℕ) (n : ℕ). receive_loop fuel size xs n s)
        (ap (λ xs. front ++ xs) (sym (drop-zero 0 back refl))) (omega arith);
  spends = omega arith;
  receives = Receives-refl s;
}
receive_loop-Reached zero size total front back (w ∷ ws) rest s h at_total fits word e near l =
    absurd (omega arith)
receive_loop-Reached (suc fuel) size total front back (w ∷ ws) rest s h at_total fits word e near
      l =
    let (b, bs, later, split, r, receives, left_input) =
      read_within (size - total) (w ∷ ws) rest s l e (omega arith) (omega arith) near in
    let sizes : length (w ∷ ws) ≡ length (b ∷ bs) + length later =
      ap length split ∙ length-append (b ∷ bs) later in
    let t : Sock = (read (size - total) s).1 in
    let shared : length s.input ≡ length (b ∷ bs) + length t.input =
      ap length receives.input ∙ length-append (b ∷ bs) t.input in
    round-Reached fuel size total front back (w ∷ ws) b bs later s at_total fits word split r
      receives
      (receive_loop-Reached fuel size (total + length (b ∷ bs)) (front ++ (b ∷ bs))
        (drop (length (b ∷ bs)) back) later rest t (omega arith)
        (rw (length-append front (b ∷ bs), at_total)) (omega arith) word left_input (omega arith)
        (Receives-IsLive receives l))

one_more : (n : ℕ) → 0 < n → (m : ℕ) × (n ≡ suc m)
one_more zero h = absurd (omega arith)
one_more (suc m) h = (m, refl)

receive_loop-Filled :
    (fuel size total : ℕ) (front back wanted rest : List ℕ) (s : Sock)
    → length wanted < fuel
    → length front ≡ total
    → total + length wanted ≡ size
    → size < uint_mod
    → s.input ≡ wanted ++ rest
    → IsLive s
    → Filled wanted
        (front ++ (wanted ++ drop (length wanted) back))
        s
        (receive_loop fuel size (front ++ back) total s)
unfolding receive_loop
receive_loop-Filled fuel size total front back wanted rest s h at_total all word e l =
    let r =
      receive_loop-Reached fuel size total front back wanted rest s (omega arith) at_total
        (omega arith) word e (omega arith) l in
    let (n, some_left) = one_more r.left (omega (arith, r.spends)) in
    let stop : ltb (total + length wanted) size ≡ false = ground arith in
    rw r.same (
      rw some_left
        (rw (stop, receive_loop) (record { status = refl; dest = refl; receives = r.receives })))

-- When no call fails and the peer sent all that is asked for, `receiveAll` returns 0, with exactly
-- those bytes in the front of the buffer and no others read.
pub receive_all-Filled :
    (fuel size : ℕ) (dest wanted rest : List ℕ) (s : Sock)
    → size < fuel
    → size < uint_mod
    → length wanted ≡ size
    → s.input ≡ wanted ++ rest
    → IsLive s
    → Filled wanted (wanted ++ drop size dest) s (receive_all fuel size dest s)
unfolding receive_all
receive_all-Filled fuel size dest wanted rest s h word n e l = rw n at (
    receive_loop-Filled fuel size 0 [] dest wanted rest s (omega arith) refl (omega arith) word e l)
