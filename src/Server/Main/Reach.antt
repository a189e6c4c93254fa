-- ===== src/Server/Main/Reach.antt =====
-- What every run of `main` of server_linux/server.cpp keeps.
use project.Prelude.{
  ℕ, zero, suc, ◌≡◌, ◌≢◌, refl, true, List, [], ◌∷◌, ◌++◌, length, if-both, Status, ok, err, exit,
  fault, no_fuel,
}
use project.Wire.{size, box_size}
use project.Wire.Format.{dump_message}
use project.Server.Transfer.{send_all}
use project.Server.Files.{FilePath, Disk, lookup}
use project.Server.Files.Elsewhere.{Untouched}
use project.Server.Files.Distinct.{
  IsDistinctDisk, mkdir-IsDistinct, opened-IsDistinct, fwrite-IsDistinct,
}
use project.Server.Receive.{Host, write_dir}
use project.Server.Receive.Keeping.{Kept, Keeps}
use project.Server.Receive.Keeps.{write_dir-Keeps}
use project.Server.Receive.Confined.{write_dir-Untouched}
use project.Server.Session.{client_thread}
use project.Server.Main.{
  Client, Server, Event, connects, refuses, works, after_round, client_round, work, handle, serve,
}

-- Of every thread's calls of `writeDir`.
module _ (cwd : FilePath) (P : Disk → Type 0)
    (law : (peer : List ℕ) (fuel : ℕ) → Keeps P (write_dir peer fuel true cwd)) where
  round_end :
      (a : Status × Host) (h : Host) (r : Status)
      → P a.1.disk
      → P h.disk
      → P (elim r as (λ x. Status × Host) [ ok ↦ a | other ↦ (other, h) ]).1.disk
  round_end a h ok u v = u
  round_end a h err u v = v
  round_end a h exit u v = v
  round_end a h fault u v = v
  round_end a h no_fuel u v = v

  client_thread-Keeps :
      (peer : List ℕ) (fuel rounds : ℕ) → Keeps P (client_thread peer fuel cwd rounds)
  unfolding client_thread
  client_thread-Keeps peer fuel zero = record { run = λ h p. p }
  client_thread-Keeps peer fuel (suc rounds) = record {
    run = λ h p.
        let (sent, s) = send_all (box_size size) (dump_message size) h.sock in
        let (stored, h') = write_dir peer fuel true cwd (record h { sock = s }) in
        let q : P h'.disk = (law peer fuel).run (record h { sock = s }) p in
        round_end
          (elim stored as (λ x. Status × Host) [
            | ok ↦ client_thread peer fuel cwd rounds h'
            | other ↦ (other, h')
          ])
          (record h { sock = s }) sent
          (round_end (client_thread peer fuel cwd rounds h') h' stored
            ((client_thread-Keeps peer fuel rounds).run h' q) q)
          p;
  }

  after_round_keeps :
      (c : Client) (others : List Client) (r : Status × Host)
      → P r.1.disk
      → P (after_round c others r).disk
  unfolding after_round
  after_round_keeps c others (ok, h) p = p
  after_round_keeps c others (err, h) p = p
  after_round_keeps c others (exit, h) p = p
  after_round_keeps c others (fault, h) p = p
  after_round_keeps c others (no_fuel, h) p = p

  work_keeps : (k : ℕ) (cs : List Client) (disk : Disk) → P disk → P (work cwd k cs disk).disk
  unfolding work client_round
  work_keeps k [] disk p = p
  work_keeps zero (c ∷ cs) disk p = after_round_keeps c cs (client_round cwd c disk) (
      (client_thread-Keeps c.peer (suc (length c.sock.input)) 1).run
        (record { sock = c.sock; disk = disk }) p)
  work_keeps (suc k) (c ∷ cs) disk p = work_keeps k cs disk p

  handle_keeps : (e : Event) (s : Server) → P s.disk → P (handle cwd e s).disk
  unfolding handle
  handle_keeps (connects c created) s p = if-both (λ (t : Server). P t.disk) created p p
  handle_keeps refuses s p = p
  handle_keeps (works k) s p = work_keeps k s.clients s.disk p

  pub serve_keeps : (events : List Event) (s : Server) → P s.disk → P (serve cwd events s).disk
  unfolding serve
  serve_keeps [] s p = p
  serve_keeps (e ∷ events) s p =
      if-both (λ (t : Server). P t.disk) s.running
        (serve_keeps events (handle cwd e s) (handle_keeps e s p)) p

abbrev pub Anywhere : FilePath → Type 0
Anywhere p = Unit

pub Distinct-Kept : Kept Anywhere IsDistinctDisk
Distinct-Kept = record {
  below = λ p more q. tt;
  by_mkdir = λ p d q. mkdir-IsDistinct p d;
  by_open = λ p d d' q. opened-IsDistinct p d d';
  by_write = λ p bytes d q. fwrite-IsDistinct p bytes d;
}

-- On a disk with no path twice, whatever clients connect, in whatever order the rounds of their
-- threads come, and whatever the clients send and the connections and the file system answer: no
-- path of the server's disk ever stands for two items.
pub serve-IsDistinct :
    (cwd : FilePath) (events : List Event) (s : Server)
    → IsDistinctDisk s.disk
    → IsDistinctDisk (serve cwd events s).disk
serve-IsDistinct cwd events s d =
    serve_keeps cwd IsDistinctDisk
      (λ peer fuel. write_dir-Keeps Anywhere IsDistinctDisk Distinct-Kept peer fuel true cwd tt)
      events s d

-- A path that does not start with the text of the server's directory leads, after any run with any
-- clients, where it led at the start.
pub serve_confined :
    (cwd p : FilePath) (events : List Event) (s : Server)
    → ((rest : List ℕ) → p ≢ cwd ++ rest)
    → lookup p (serve cwd events s).disk.items ≡ lookup p s.disk.items
serve_confined cwd p events s out =
    serve_keeps cwd (Untouched cwd s.disk)
      (λ peer fuel. write_dir-Untouched peer fuel true cwd s.disk) events s (λ q beyond. refl) p out
