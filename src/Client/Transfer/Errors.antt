-- ===== src/Client/Transfer/Errors.antt =====
-- `sendAll` and `receiveAll` of InfoDumping/InfoDumping.cpp where a call fails.
use project.Prelude.{
  ℕ, zero, suc, ◌-◌, ◌<◌, ◌≡◌, refl, ap, true, List, [], ◌++◌, Status, ok, arith, take-zero,
  drop-zero, ap₂,
}
use project.Socket.{Sock, write_error, write, read_error, read}
use project.Socket.Buffer.{window, store_at}
use project.Client.Transfer.{uint_mod, send_all, receive_all}

-- For a nonempty message below 2 ^ 32 bytes and fuel for two rounds, if the first `send` fails,
-- `sendAll` returns 0 and does nothing after the failed call.
pub send_all_first_error :
    (fuel size : ℕ) (src : List ℕ) (s : Sock)
    → 1 < fuel
    → 0 < size
    → size < uint_mod
    → (write (window size 0 src) s).0 ≡ write_error
    → send_all fuel size src s ≡ (ok, (write (window size 0 src) s).1)
unfolding send_all
send_all_first_error zero size src s h p w e = absurd (omega arith)
send_all_first_error (suc zero) size src s h p w e = absurd (omega arith)
send_all_first_error (suc (suc fuel)) size src s h p w e = ground arith

-- For a nonempty message below 2 ^ 32 bytes and fuel for two rounds, if the first `recv` fails,
-- `receiveAll` returns 0 and does nothing after the failed call: the buffer keeps its content.
pub receive_all_first_error :
    (fuel size : ℕ) (dest : List ℕ) (s : Sock)
    → 1 < fuel
    → 0 < size
    → size < uint_mod
    → (read size s).0 ≡ read_error
    → receive_all fuel size dest s ≡ (ok, dest, (read size s).1)
unfolding receive_all
receive_all_first_error zero size dest s h p w e = absurd (omega arith)
receive_all_first_error (suc zero) size dest s h p w e = absurd (omega arith)
receive_all_first_error (suc (suc fuel)) size dest s h p w e =
    let whole : size - 0 ≡ size = omega arith in
    let kept : store_at 0 [] dest ≡ dest =
      ap₂ ◌++◌ (take-zero 0 dest refl) (drop-zero 0 dest refl) in
    ground (arith, whole, kept, ap (λ n. read n s) whole)

-- A transfer on a closed socket returned 0, and moved nothing.
pub record Ignored (s : Sock) (r : Status × Sock) : Type 0 where
  pub status : r.0 ≡ ok
  pub output : r.1.output ≡ s.output
  pub closed : r.1.closed ≡ true

write_closed : (buf : List ℕ) (s : Sock) → s.closed ≡ true → (write buf s).0 ≡ write_error
unfolding write
write_closed buf s c = ground arith

write_closed_output :
    (buf : List ℕ) (s : Sock)
    → s.closed ≡ true
    → ((write buf s).1.output ≡ s.output) × ((write buf s).1.closed ≡ true)
unfolding write
write_closed_output buf s c = ground arith

-- For a nonempty message below 2 ^ 32 bytes and fuel for two rounds, on a closed socket `sendAll`
-- returns 0 and sends nothing.
pub send_all-Ignored :
    (fuel size : ℕ) (src : List ℕ) (s : Sock)
    → 1 < fuel
    → 0 < size
    → size < uint_mod
    → s.closed ≡ true
    → Ignored s (send_all fuel size src s)
send_all-Ignored fuel size src s h p w c =
    let e = send_all_first_error fuel size src s h p w (write_closed (window size 0 src) s c) in
    let (out, shut) = write_closed_output (window size 0 src) s c in
    rw e (record { status = refl; output = out; closed = shut })
