-- ===== src/Server/Receive/Ending.antt =====
-- That the steps of `writeDir` and `writeFile` of server_linux/server.cpp come to an end.
use project.Prelude.{
  ℕ, zero, suc, ◌+◌, ◌-◌, ◌≤◌, ◌<◌, min, List, length, take, replicate, if-both, c_string, bytes_eq,
  Option-cases, inl, inr, Status, ok, err, exit, fault, no_fuel, arith,
}
use project.Socket.{Sock}
use project.Wire.{size, success_text}
use project.Server.Transfer.{receive_all}
use project.Server.Transfer.Drained.{Drained, all, part, receive_all-Drained}
use project.Server.Files.{FilePath, Made, made, exists, refused, mkdir, open_wb, fwrite}
use project.Server.Receive.{
  Host, Step, join, receive, write_loop, write_file, make_dir, make_top, after_nested, if_success,
}

-- A way in which the program itself ends a function, and no way out of fuel.
pub data Ended : Status → Type 0 where
  returned : Ended ok
  failed : Ended err
  exited : Ended exit
  faulted : Ended fault

-- The step ended, and its connection holds at most `m` bytes.
pub record EndsIn (m : ℕ) (r : Status × Host) : Type 0 where
  pub ended : Ended r.0
  pub shrinks : length r.1.sock.input ≤ m

-- From every state whose connection holds at most `m` bytes.
pub record Ends (m : ℕ) (k : Step) : Type 0 where
  pub run : (h : Host) → length h.sock.input ≤ m → EndsIn m (k h)

widen_end : (m n : ℕ) (r : Status × Host) → m ≤ n → EndsIn m r → EndsIn n r
widen_end m n r le e = record { ended = e.ended; shrinks = omega (arith, e.shrinks) }

after_receive :
    (n m : ℕ) (h : Host) (rest : List ℕ → Step) (bytes : List ℕ) (r : Status) (t : Sock)
    → length h.sock.input ≤ m
    → Drained n (length h.sock.input) r t
    → ((h' : Host) → n + length h'.sock.input ≤ m → EndsIn m (rest bytes h'))
    → EndsIn m (elim r as (λ x. Status × Host) [
      | ok ↦ rest bytes (record h { sock = t })
      | other ↦ (other, record h { sock = t })
    ])
after_receive n m h rest bytes r t le (all _ e) k = k (record h { sock = t }) (omega arith)
after_receive n m h rest bytes r t le (part _ p) k = record {
  ended = failed;
  shrinks = omega arith;
}

receive-Ends :
    (n m : ℕ) (buffer : List ℕ) (rest : List ℕ → Step)
    → ((bytes : List ℕ) (h : Host) → n + length h.sock.input ≤ m → EndsIn m (rest bytes h))
    → Ends m (receive n buffer rest)
unfolding receive
receive-Ends n m buffer rest k = record {
  run = λ h le.
      let r = receive_all n buffer h.sock in
      after_receive n m h rest r.1 r.0 r.2 le (receive_all-Drained n buffer h.sock) (k r.1);
}

-- A message that is there whole leaves so much less to read.
pub message-Ends :
    (n m : ℕ) (buffer : List ℕ) (rest : List ℕ → Step)
    → (n ≤ m → (bytes : List ℕ) → Ends (m - n) (rest bytes))
    → Ends m (receive n buffer rest)
message-Ends n m buffer rest k = receive-Ends n m buffer rest (λ bytes h le.
    widen_end (m - n) m (rest bytes h) (omega arith) ((k (omega arith) bytes).run h (omega arith)))

write_loop-Ends :
    (n m : ℕ) (path : FilePath) (left : ℕ) → left < n → Ends m (write_loop n path left)
unfolding write_loop
write_loop-Ends zero m path left lt = absurd (omega arith)
write_loop-Ends (suc n) m path zero lt = record {
  run = λ h le. record { ended = returned; shrinks = le };
}
write_loop-Ends (suc n) m path (suc left) lt =
    let count : ℕ = min (suc left) size in
    receive-Ends count m (replicate size 0)
      (λ buffer h'.
        write_loop n path (suc left - count)
          (record h' { disk = fwrite path (take count buffer) h'.disk }))
      (λ bytes h le.
        (write_loop-Ends n m path (suc left - count) (omega arith)).run
          (record h { disk = fwrite path (take count bytes) h.disk }) (omega arith))

pub write_file-Ends :
    (m : ℕ) (cwd : FilePath) (name : List ℕ) (n : ℕ) → Ends m (write_file cwd name n)
unfolding write_file
write_file-Ends m cwd name n = record {
  run = λ h le. elim (Option-cases (open_wb (join cwd name) h.disk)) [
    | inl closed ↦ rw (closed, write_file) (record { ended = faulted; shrinks = le })
    | inr (d, opened) ↦
        rw (opened, write_file)
          ((write_loop-Ends (suc n) m (join cwd name) n (omega arith)).run (record h { disk = d })
            le)
  ];
}

after_made :
    (m : ℕ) (x : Made) (a b : Status × Host)
    → EndsIn m a
    → EndsIn m b
    → EndsIn m (elim x as (λ y. Status × Host) [ made ↦ a | _ ↦ b ])
after_made m made a b p q = p
after_made m exists a b p q = q
after_made m refused a b p q = q

after_top :
    (m : ℕ) (x : Made) (a b : Status × Host)
    → EndsIn m a
    → EndsIn m b
    → EndsIn m (elim x as (λ y. Status × Host) [ refused ↦ b | _ ↦ a ])
after_top m made a b p q = p
after_top m exists a b p q = p
after_top m refused a b p q = q

pub make_dir-Ends :
    (m : ℕ) (path : FilePath) (rest : FilePath → Step)
    → Ends m (rest path)
    → Ends m (make_dir path rest)
unfolding make_dir
make_dir-Ends m path rest e = record {
  run = λ h le.
      let (x, d) = mkdir path h.disk in
      after_made m x (rest path (record h { disk = d })) (exit, record h { disk = d })
        (e.run (record h { disk = d }) le) (record { ended = exited; shrinks = le });
}

pub make_top-Ends :
    (m : ℕ) (path : FilePath) (rest : FilePath → Step)
    → Ends m (rest path)
    → Ends m (make_top path rest)
unfolding make_top
make_top-Ends m path rest e = record {
  run = λ h le.
      let (x, d) = mkdir path h.disk in
      after_top m x (rest path (record h { disk = d })) (exit, record h { disk = d })
        (e.run (record h { disk = d }) le) (record { ended = exited; shrinks = le });
}

pub after_nested-Ends :
    (m : ℕ) (r : Status × Host) (rest : Step)
    → EndsIn m r
    → Ends m rest
    → EndsIn m (after_nested r rest)
unfolding after_nested
after_nested-Ends m (ok, h) rest p e = e.run h p.shrinks
after_nested-Ends m (err, h) rest p e = e.run h p.shrinks
after_nested-Ends m (exit, h) rest p e = p
after_nested-Ends m (fault, h) rest p e = p
after_nested-Ends m (no_fuel, h) rest p e = p

pub if_success-Ends :
    (m : ℕ) (msg : List ℕ) (rest : Step) → Ends m rest → Ends m (if_success msg rest)
unfolding if_success
if_success-Ends m msg rest e = record {
  run = λ h le.
      if-both (EndsIn m) (bytes_eq (c_string msg) success_text) (e.run h le)
        (record { ended = failed; shrinks = le });
}
