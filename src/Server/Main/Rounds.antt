-- ===== src/Server/Main/Rounds.antt =====
-- That the fuel of a round in Server/Main is enough: `clientThread` of server_linux/server.cpp.
use project.Prelude.{
  ℕ, zero, suc, ◌+◌, ◌<◌, ◌≡◌, refl, ap, ◌∙◌, true, List, length, Status, ok, err, exit, fault,
  no_fuel, arith, ltb, Bool-cases, inl, inr,
}
use project.Socket.{Sock, Written, write_error, written, write, close}
use project.Socket.Buffer.{window}
use project.Wire.{size, box_size}
use project.Wire.Format.{dump_message}
use project.Socket.Counts.{Outcome-cases}
use project.Server.Transfer.{after_write, send_loop, send_all}
use project.Server.Transfer.Totality.{Returns, success, failed, send_all-Returns}
use project.Server.Files.{FilePath, Disk}
use project.Server.Receive.{Host, write_dir}
use project.Server.Receive.Ending.{Ended, failed, EndsIn}
use project.Server.Receive.Ends.{write_dir_ends}
use project.Server.Session.{client_thread}
use project.Server.Main.{Client, client_round}

write_input : (buf : List ℕ) (s : Sock) → (write buf s).1.input ≡ s.input
unfolding write
write_input buf s = elim (Bool-cases s.closed) [
  | inl shut ↦ rw (shut, write) refl
  | inr opened ↦ elim (Outcome-cases (s.calls s.clock)) [
    | inl lost ↦ rw (opened, lost, write) refl
    | inr (k, went) ↦ rw (opened, went, write) refl
  ]
]

after_write_input :
    (again : ℕ → Sock → Status × Sock) (m : ℕ)
    → ((n : ℕ) (t : Sock) → length t.input ≡ m → length (again (suc n) t).1.input ≡ m)
    → (r : Written) (t : Sock) → length t.input ≡ m
    → length (after_write again r t).1.input ≡ m
unfolding after_write close
after_write_input again m h write_error t e = e
after_write_input again m h (written zero) t e = e
after_write_input again m h (written (suc n)) t e = h n t e

send_loop_input :
    (fuel size : ℕ) (src : List ℕ) (total : ℕ) (s : Sock)
    → length (send_loop fuel size src total s).1.input ≡ length s.input
unfolding send_loop
send_loop_input zero size src total s = refl
send_loop_input (suc fuel) size src total s = elim (Bool-cases (ltb total size)) [
  | inr stop ↦ rw (stop, send_loop) refl
  | inl more ↦
      rw (more, send_loop)
        (after_write_input (λ n t. send_loop fuel size src (total + n) t) (length s.input)
          (λ n t e. send_loop_input fuel size src (total + suc n) t ∙ e)
          (write (window size total src) s).0 (write (window size total src) s).1
          (ap length (write_input (window size total src) s)))
]

lt_suc : (m n : ℕ) → m ≡ n → m < suc n
lt_suc m n e = omega arith

-- How a round ends: with no more rounds to come, in one of the ways that the program has.
pub data RoundEnds : Status → Status → Type 0 where
  goes_on : RoundEnds no_fuel ok
  breaks_off : (stored : Status) → RoundEnds err stored
  leaves : RoundEnds exit exit
  breaks : RoundEnds fault fault

after_stored :
    (h : Host) (r : Status)
    → Ended r
    → RoundEnds (elim r as (λ x. Status × Host) [ ok ↦ (no_fuel, h) | other ↦ (other, h) ]).0 r
after_stored h ok e = goes_on
after_stored h err e = breaks_off err
after_stored h exit e = leaves
after_stored h fault e = breaks
after_stored h no_fuel e = elim e [ ]

after_sent :
    (a : Status × Host) (h : Host) (stored sent : Status) (s : Sock)
    → Returns sent s
    → RoundEnds a.0 stored
    → RoundEnds (elim sent as (λ x. Status × Host) [ ok ↦ a | other ↦ (other, h) ]).0 stored
after_sent a h stored sent s (success _) e = e
after_sent a h stored sent s (failed _ shut) e = breaks_off stored

-- What `writeDir` returns in a round, behind the signal.
abbrev pub stored_in : FilePath → Client → Disk → Status × Host
stored_in cwd c disk =
    write_dir c.peer (suc (length c.sock.input)) true cwd
      (record { sock = (send_all (box_size size) (dump_message size) c.sock).1; disk = disk })

-- A client sends any bytes and then closes its connection, so that a read behind them finds the end of
-- the stream, and no write to the connection raises SIGPIPE. Whatever else the network and the file
-- system answer: the round of the client's thread ends, without running out of fuel; it goes on to
-- another round only where `writeDir` returned 0, ends the process only where that did, and ends the
-- thread otherwise.
pub client_round-RoundEnds :
    (cwd : FilePath) (c : Client) (disk : Disk)
    → RoundEnds (client_round cwd c disk).0 (stored_in cwd c disk).0
unfolding client_round client_thread send_all
client_round-RoundEnds cwd c disk =
    let s : Sock = (send_all (box_size size) (dump_message size) c.sock).1 in
    let h : Host = record { sock = s; disk = disk } in
    let fuel : ℕ = suc (length c.sock.input) in
    let same : length s.input ≡ length c.sock.input =
      send_loop_input (suc (box_size size)) (box_size size) (dump_message size) 0 c.sock in
    let ended : EndsIn (length s.input) (write_dir c.peer fuel true cwd h) =
      write_dir_ends c.peer fuel true cwd h (lt_suc (length s.input) (length c.sock.input) same) in
    let stored : Status × Host = write_dir c.peer fuel true cwd h in
    after_sent
      (elim stored.0 as (λ x. Status × Host) [
        | ok ↦ (no_fuel, stored.1)
        | other ↦ (other, stored.1)
      ])
      h stored.0 (send_all (box_size size) (dump_message size) c.sock).0 s
      (send_all-Returns (box_size size) (dump_message size) c.sock)
      (after_stored stored.1 stored.0 ended.ended)
