-- ===== src/Server/Main/Exits.antt =====
-- One client that ends the process of server_linux/server.cpp for all.
use project.Prelude.{
  ℕ, ◌≡◌, refl, ◌∙◌, ap, true, false, some, List, [], ◌∷◌, ◌++◌, length, Status, exit, arith,
}
use project.Socket.{Sock}
use project.Socket.Delivery.{IsLive, Sends-IsLive}
use project.Wire.{size, box_size, dir_tag}
use project.Wire.Format.{success_message, header, IsName, dump_message, length-dump}
use project.Server.Transfer.{send_all}
use project.Server.Transfer.Live.{send_all-Sent}
use project.Server.Files.{Item, FilePath, Disk, lookup}
use project.Server.Receive.{Host, join}
use project.Server.Receive.Lone.{write_dir_taken}
use project.Server.Session.{client_thread}
use project.Server.Main.{
  Client, Server, Event, works, after_round, client_round, work, handle, serve,
}

-- The client's own directory is there, and so is the path of the directory that it sends next, on a
-- connection on which no call fails.
pub record Repeats (cwd : FilePath) (disk : Disk) (c : Client) : Type 0 where
  pub name : List ℕ
  pub tail : List ℕ
  pub own : Item
  pub item : Item
  pub valid : IsName size name
  pub mine : lookup (join cwd c.peer) disk.items ≡ some own
  pub taken : lookup (join (join cwd c.peer) name) disk.items ≡ some item
  pub live : IsLive c.sock
  pub sends : c.sock.input ≡ success_message size ++ (header size dir_tag 0 name ++ tail)

round-Repeats :
    (cwd : FilePath) (disk : Disk) (c : Client)
    → Repeats cwd disk c
    → (s : Sock) × (client_round cwd c disk ≡ (exit, record { sock = s; disk = disk }))
unfolding client_round client_thread
round-Repeats cwd disk c r =
    let sent =
      send_all-Sent (box_size size) (dump_message size) c.sock (omega (arith, (length-dump size)))
        r.live in
    let h : Host = record {
      sock = (send_all (box_size size) (dump_message size) c.sock).1;
      disk = disk;
    } in
    let (s, ended) =
      write_dir_taken c.peer r.name (length c.sock.input) cwd h r.tail r.own r.item r.valid r.mine
        r.taken (Sends-IsLive sent.sends r.live) (sent.sends.input ∙ r.sends) in
    (s, rw (sent.status, ended, client_thread) (ap (λ (x : Status × Host). (exit, x.1)) ended))

work-Repeats :
    (cwd : FilePath) (disk : Disk) (before : List Client) (c : Client) (others : List Client)
    → Repeats cwd disk c
    → work cwd (length before) (before ++ c ∷ others) disk
      ≡ record { disk = disk; clients = before ++ c ∷ others; running = false }
unfolding work after_round
work-Repeats cwd disk [] c others r =
    let (s, ended) = round-Repeats cwd disk c r in ap (after_round c others) ended
work-Repeats cwd disk (b ∷ before) c others r =
    ap (λ (t : Server). record t { clients = b ∷ t.clients })
      (work-Repeats cwd disk before c others r)

serve_ended :
    (cwd : FilePath) (events : List Event) (s : Server) → s.running ≡ false → serve cwd events s ≡ s
unfolding serve
serve_ended cwd [] s e = refl
serve_ended cwd (event ∷ events) s e = rw (e, serve) refl

-- The server runs, and one of its clients sends the directory that its own directory has already,
-- as it does when two of its dumps bear the same second. Its round ends the whole process: whatever
-- would come after it, no other client is served again and the disk stays as it is.
pub serve_stops :
    (cwd : FilePath) (s : Server) (before : List Client) (c : Client) (others : List Client)
    (events : List Event)
    → s.running ≡ true
    → s.clients ≡ before ++ c ∷ others
    → Repeats cwd s.disk c
    → serve cwd (works (length before) ∷ events) s
      ≡ record { disk = s.disk; clients = before ++ c ∷ others; running = false }
unfolding serve handle
serve_stops cwd s before c others events up cs r =
    let ended : handle cwd (works (length before)) s
        ≡ record { disk = s.disk; clients = before ++ c ∷ others; running = false } =
      ap (λ clients. work cwd (length before) clients s.disk) cs
      ∙ work-Repeats cwd s.disk before c others r in
    rw (up, serve)
      (ap (serve cwd events) ended
        ∙ serve_ended cwd events
            (record { disk = s.disk; clients = before ++ c ∷ others; running = false }) refl)
