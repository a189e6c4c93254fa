-- ===== src/Server/Transfer/Bounds.antt =====
-- Which bytes of its buffer `receiveAll` of server_linux/server.cpp can change, whatever the network
-- answers.
use project.Prelude.{
  ℕ, zero, suc, ◌+◌, ◌-◌, ◌≤◌, ◌<◌, ◌≡◌, refl, sym, ap, ◌∙◌, inl, inr, List, [], ◌∷◌, ◌++◌,
  append_assoc, length, take, drop, drop-drop, drop-append_ge, lengths, arith, ltb, Bool-cases,
}
use project.Socket.{Sock, Read, read}
use project.Socket.Buffer.{store_at, Received}
use project.Socket.Counts.{Reads, lost, taken, read-Reads}
use project.Server.Transfer.{after_read, receive_loop, receive_all}

-- The buffer is as long as before, and the same from the index `size` on.
pub record Within (size : ℕ) (dest dest' : List ℕ) : Type 0 where
  pub same_length : length dest' ≡ length dest
  pub same_tail : drop size dest' ≡ drop size dest

Within-refl : (size : ℕ) (dest : List ℕ) → Within size dest dest
Within-refl size dest = record { same_length = refl; same_tail = refl }

Within-trans : (size : ℕ) (a b c : List ℕ) → Within size a b → Within size b c → Within size a c
Within-trans size a b c v w = record {
  same_length = w.same_length ∙ v.same_length;
  same_tail = w.same_tail ∙ v.same_tail;
}

store_at-Within :
    (size total : ℕ) (bytes dest : List ℕ)
    → total + length bytes ≤ size
    → size ≤ length dest
    → Within size dest (store_at total bytes dest)
store_at-Within size total bytes dest le fits =
    let front : List ℕ = take total dest ++ bytes in
    let back : List ℕ = drop (total + length bytes) dest in
    let short : length front ≡ total + length bytes = omega lengths in
    record {
      same_length = omega lengths;
      same_tail =
          ap (drop size) (sym (append_assoc (take total dest) bytes back))
          ∙ drop-append_ge size front back (omega arith)
          ∙ drop-drop (total + length bytes) (size - length front) size dest (omega arith);
    }

after_read-Within :
    (again : List ℕ → Sock → Received) (size k : ℕ) (dest : List ℕ) (s : Sock)
    → ((bs : List ℕ) (t : Sock) → length bs ≤ k → Within size dest (again bs t).1)
    → (r : Read) (t : Sock) → Reads k s r t
    → Within size dest (after_read again dest r t).1
unfolding after_read
after_read-Within again size k dest s h r t (lost _ e) = Within-refl size dest
after_read-Within again size k dest s h r t (taken [] _ le e) = Within-refl size dest
after_read-Within again size k dest s h r t (taken (b ∷ bs) _ le e) = h (b ∷ bs) t le

receive_loop-Within :
    (fuel size : ℕ) (dest : List ℕ) (total : ℕ) (s : Sock)
    → size ≤ length dest
    → Within size dest (receive_loop fuel size dest total s).1
unfolding receive_loop
receive_loop-Within zero size dest total s fits = Within-refl size dest
receive_loop-Within (suc fuel) size dest total s fits = elim (Bool-cases (ltb total size)) [
  | inr stop ↦ rw (stop, receive_loop) (Within-refl size dest)
  | inl more ↦
      let some_left : total < size = ground arith in
      rw (more, receive_loop)
        (after_read-Within
          (λ bs t. receive_loop fuel size (store_at total bs dest) (total + length bs) t) size
          (size - total) dest s
          (λ bs t le.
            let stored : Within size dest (store_at total bs dest) =
              store_at-Within size total bs dest (omega arith) fits in
            let fits' : length (store_at total bs dest) ≡ length dest = stored.same_length in
            Within-trans size dest (store_at total bs dest) _ stored (
              receive_loop-Within fuel size (store_at total bs dest) (total + length bs) t
                (omega arith)))
          (read (size - total) s).0 (read (size - total) s).1 (read-Reads (size - total) s))
]

-- A buffer with room for what is asked for: on every network, whether the transfer succeeds or fails,
-- `receiveAll` leaves the buffer as long as it was, and changes nothing behind the bytes that were
-- asked for.
pub receive_all-Within :
    (size : ℕ) (dest : List ℕ) (s : Sock)
    → size ≤ length dest
    → Within size dest (receive_all size dest s).1
unfolding receive_all
receive_all-Within size dest s fits = receive_loop-Within (suc size) size dest 0 s fits
