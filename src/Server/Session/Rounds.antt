-- ===== src/Server/Session/Rounds.antt =====
-- One round of `clientThread` on a connection on which no call fails.
use project.Prelude.{ℕ, suc, ◌<◌, ◌≡◌, ◌∙◌, ap, List, ◌++◌, length, take-length, arith, true}
use project.Socket.{Sock}
use project.Socket.Delivery.{IsLive, Sends-IsLive, Receives-IsLive}
use project.Wire.{size, box_size}
use project.Wire.Format.{Forest, dir, encode, IsTree, dump_message, length-dump}
use project.Server.Transfer.{send_all}
use project.Server.Transfer.Live.{send_all-Sent}
use project.Server.Files.{FilePath, lookup}
use project.Server.Files.Laws.{with_items, IsFresh}
use project.Server.Receive.{Host, join, write_dir}
use project.Server.Receive.Live.{left_over}
use project.Server.Receive.Top.{arrival, write_dir_first}
use project.Server.Session.{client_thread}

-- A round, on a connection on which no call fails, for a client whose answer is the encoding of a
-- directory with names and sizes that fit a box, paths that are new on the disk, and fuel above
-- the encoding's length: the thread sends the signal "dump", reads exactly the encoding, stores
-- exactly the directory under the client's own, and goes on with the next round from there.
pub client_thread_round :
    (peer name : List ℕ) (f : Forest) (fuel : ℕ) (cwd : FilePath) (rounds : ℕ) (h : Host)
    (tail : List ℕ)
    → IsTree size (dir name f)
    → length (encode size (dir name f)) < fuel
    → IsFresh (arrival peer cwd (dir name f) (lookup (join cwd peer) h.disk.items)) h.disk
    → IsLive h.sock
    → h.sock.input ≡ encode size (dir name f) ++ tail
    → (s : Sock) × (client_thread peer fuel cwd (suc rounds) h
        ≡ client_thread peer fuel cwd rounds (record {
          sock = s;
          disk =
              with_items h.disk
                (arrival peer cwd (dir name f) (lookup (join cwd peer) h.disk.items));
        }))
      × (s.output ≡ h.sock.output ++ (dump_message size))
      × (s.input ≡ tail)
      × IsLive s
unfolding client_thread
client_thread_round peer name f fuel cwd rounds h tail v lt fresh l e =
    let sent =
      send_all-Sent (box_size size) (dump_message size) h.sock (omega (arith, (length-dump size)))
        l in
    let h1 : Host = record h { sock = (send_all (box_size size) (dump_message size) h.sock).1 } in
    let stored =
      write_dir_first peer name f fuel cwd h1 tail v lt fresh (Sends-IsLive sent.sends l)
        (sent.sends.input ∙ e) in
    let h2 : Host = (write_dir peer fuel true cwd h1).1 in
    let whole =
      take-length (box_size size) (dump_message size) (omega (arith, (length-dump size))) in
    (
      h2.sock,
      rw (sent.status, stored.status, client_thread)
          (ap (λ d. client_thread peer fuel cwd rounds (record { sock = h2.sock; disk = d }))
            stored.disk),
      stored.receives.output ∙ sent.sends.output ∙ ap (λ xs. h.sock.output ++ xs) whole,
      left_over (encode size (dir name f)) tail h1.sock h2.sock stored.receives
          (sent.sends.input ∙ e),
      Receives-IsLive stored.receives (Sends-IsLive sent.sends l),
    )
