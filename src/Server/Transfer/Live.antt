-- ===== src/Server/Transfer/Live.antt =====
-- `sendAll` and `receiveAll` of server_linux/server.cpp on a connection on which no call fails.
use project.Prelude.{
  ℕ, zero, suc, ◌+◌, ◌-◌, ◌≤◌, ◌<◌, ◌≡◌, refl, sym, ◌∙◌, ap, inl, inr, true, false, List, [], ◌∷◌,
  ◌++◌, length, take, drop, take-zero, drop-zero, arith, ltb, Bool-cases, ap₂, length-append,
}
use project.Socket.{Sock, write, read}
use project.Socket.Delivery.{
  IsLive, Sends-refl, Sends-trans, Sends-IsLive, Receives-refl, Receives-trans, Receives-IsLive,
  write-IsLive, read_wanted,
}
use project.Socket.Buffer.{window}
use project.Socket.Runs.{Sent, Filled, window_split, length-window, store_at-append, buffer_split}
use project.Server.Transfer.{
  after_write, send_loop, send_all, after_read, receive_loop, receive_all,
}

send_loop-Sent :
    (fuel size : ℕ) (src : List ℕ) (total : ℕ) (s : Sock)
    → size - total < fuel
    → size ≤ length src
    → IsLive s
    → Sent (window size total src) s (send_loop fuel size src total s)
unfolding send_loop
send_loop-Sent zero size src total s h fits l = absurd (omega arith)
send_loop-Sent (suc fuel) size src total s h fits l = elim (Bool-cases (ltb total size)) [
  | inr stop ↦
      rw (stop, send_loop, take-zero (size - total) (drop total src) (ground arith))
        (record { status = refl; sends = Sends-refl s })
  | inl more ↦
      let len = length-window size total src fits in
      let (n, e, le, sends) = write-IsLive (window size total src) s l (ground arith) in
      let rest =
        send_loop-Sent fuel size src (total + suc n) (write (window size total src) s).1
          (ground arith) fits (Sends-IsLive sends l) in
      rw (more, send_loop, e, after_write)
        (record {
          status = rest.status;
          sends =
              rw (window_split size total n src (omega arith)) at (Sends-trans sends rest.sends);
        })
]

-- When no call fails, `sendAll` returns 0, and the first `size` bytes of the buffer went out.
pub send_all-Sent :
    (size : ℕ) (src : List ℕ) (s : Sock)
    → size ≤ length src
    → IsLive s
    → Sent (take size src) s (send_all size src s)
unfolding send_all
send_all-Sent size src s fits l =
    let whole : window size 0 src ≡ take size src =
      ap₂ take {x = size - 0} (omega arith) (drop-zero 0 src refl) in
    rw whole at (send_loop-Sent (suc size) size src 0 s (omega arith) fits l)

-- The loop, started with `total` bytes of the buffer filled and `wanted` still to come.
receive_loop-Filled :
    (fuel size total : ℕ) (front back wanted rest : List ℕ) (s : Sock)
    → length wanted < fuel
    → length front ≡ total
    → total + length wanted ≡ size
    → s.input ≡ wanted ++ rest
    → IsLive s
    → Filled wanted
        (front ++ (wanted ++ drop (length wanted) back))
        s
        (receive_loop fuel size (front ++ back) total s)
unfolding receive_loop
receive_loop-Filled zero size total front back wanted rest s h at_total all e l =
    absurd (omega arith)
receive_loop-Filled (suc fuel) size total front back [] rest s h at_total all e l =
    let stop : ltb total size ≡ false = ground arith in
    rw (stop, receive_loop)
      (record {
        status = refl;
        dest = ap (λ xs. front ++ xs) (sym (drop-zero 0 back refl));
        receives = Receives-refl s;
      })
receive_loop-Filled (suc fuel) size total front back (w ∷ ws) rest s h at_total all e l =
    let more : ltb total size ≡ true = ground arith in
    let same : size - total ≡ length (w ∷ ws) = omega arith in
    let (b, bs, later, split, r, receives, left) = read_wanted (w ∷ ws) rest s l e (omega arith) in
    let sizes : length (b ∷ bs) + length later ≡ length (w ∷ ws) =
      sym (length-append (b ∷ bs) later) ∙ ap length (sym split) in
    let next =
      receive_loop-Filled fuel size (total + length (b ∷ bs)) (front ++ (b ∷ bs))
        (drop (length (b ∷ bs)) back) later rest (read (length (w ∷ ws)) s).1 (omega arith)
        (rw (length-append front (b ∷ bs), at_total)) (omega arith) left
        (Receives-IsLive receives l) in
    rw (more, receive_loop, same, r, after_read, store_at-append total front back (b ∷ bs) at_total)
      (record {
        status = next.status;
        dest = next.dest ∙ buffer_split front (b ∷ bs) later (w ∷ ws) back split;
        receives = rw (sym split) at (Receives-trans receives next.receives);
      })

-- When no call fails and the peer sent all that is asked for, `receiveAll` returns 0, with exactly
-- those bytes in the front of the buffer and no others read.
pub receive_all-Filled :
    (size : ℕ) (dest wanted rest : List ℕ) (s : Sock)
    → length wanted ≡ size
    → s.input ≡ wanted ++ rest
    → IsLive s
    → Filled wanted (wanted ++ drop size dest) s (receive_all size dest s)
unfolding receive_all
receive_all-Filled size dest wanted rest s n e l = rw n at (
    receive_loop-Filled (suc size) size 0 [] dest wanted rest s (omega arith) refl (omega arith) e
      l)
