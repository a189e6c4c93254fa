-- ===== src/Server/Receive/Keeping.antt =====
-- Properties of the disk that the steps of `writeDir` and `writeFile` of server_linux/server.cpp
-- keep, because the three operations on the disk do at the paths that are used.
use project.Prelude.{
  ℕ, zero, suc, ◌-◌, min, ◌≡◌, List, ◌∷◌, ◌++◌, some, take, replicate, if-both, c_string, bytes_eq,
  Option-cases, inl, inr, Status, ok, err, exit, fault, no_fuel,
}
use project.Wire.{size, success_text}
use project.Server.Transfer.{receive_all}
use project.Server.Files.{FilePath, Disk, Made, made, exists, refused, mkdir, open_wb, fwrite}
use project.Server.Receive.{
  Host, Step, slash, join, receive, write_loop, write_file, make_dir, make_top, after_nested,
  if_success,
}

-- The operations at the paths of `Q`, which have all paths below them, keep `P`.
pub record Kept (Q : FilePath → Type 0) (P : Disk → Type 0) : Type 0 where
  pub below : (p : FilePath) (more : List ℕ) → Q p → Q (p ++ more)
  pub by_mkdir : (p : FilePath) (d : Disk) → Q p → P d → P (mkdir p d).1
  pub by_open : (p : FilePath) (d d' : Disk) → Q p → open_wb p d ≡ some d' → P d → P d'
  pub by_write : (p : FilePath) (bytes : List ℕ) (d : Disk) → Q p → P d → P (fwrite p bytes d)

-- A step, from every state.
pub record Keeps (P : Disk → Type 0) (m : Step) : Type 0 where
  pub run : (h : Host) → P h.disk → P (m h).1.disk

module _ (Q : FilePath → Type 0) (P : Disk → Type 0) (law : Kept Q P) where
  after_receive :
      (a : Status × Host) (h : Host) (r : Status)
      → P a.1.disk
      → P h.disk
      → P (elim r as (λ x. Status × Host) [ ok ↦ a | other ↦ (other, h) ]).1.disk
  after_receive a h ok u v = u
  after_receive a h err u v = v
  after_receive a h exit u v = v
  after_receive a h fault u v = v
  after_receive a h no_fuel u v = v

  pub receive-Keeps :
      (n : ℕ) (buffer : List ℕ) (rest : List ℕ → Step)
      → ((bytes : List ℕ) → Keeps P (rest bytes))
      → Keeps P (receive n buffer rest)
  unfolding receive
  receive-Keeps n buffer rest s = record {
    run = λ h p.
        let (r, bytes, t) = receive_all n buffer h.sock in
        after_receive (rest bytes (record h { sock = t })) (record h { sock = t }) r
          ((s bytes).run (record h { sock = t }) p) p;
  }

  write_loop-Keeps : (n left : ℕ) (path : FilePath) → Q path → Keeps P (write_loop n path left)
  unfolding write_loop
  write_loop-Keeps zero left path q = record { run = λ h p. p }
  write_loop-Keeps (suc n) zero path q = record { run = λ h p. p }
  write_loop-Keeps (suc n) (suc left) path q =
      let count : ℕ = min (suc left) size in
      receive-Keeps count (replicate size 0)
        (λ buffer h.
          write_loop n path (suc left - count)
            (record h { disk = fwrite path (take count buffer) h.disk }))
        (λ bytes. record {
          run = λ h p.
              (write_loop-Keeps n (suc left - count) path q).run
                (record h { disk = fwrite path (take count bytes) h.disk })
                (law.by_write path (take count bytes) h.disk q p);
        })

  pub write_file-Keeps :
      (cwd : FilePath) (name : List ℕ) (n : ℕ) → Q cwd → Keeps P (write_file cwd name n)
  unfolding write_file
  write_file-Keeps cwd name n q =
      let inside : Q (join cwd name) = law.below cwd (slash ∷ name) q in
      record {
        run = λ h p. elim (Option-cases (open_wb (join cwd name) h.disk)) [
          | inl closed ↦ rw (closed, write_file) p
          | inr (d, opened) ↦
              rw (opened, write_file)
                ((write_loop-Keeps (suc n) n (join cwd name) inside).run (record h { disk = d })
                  (law.by_open (join cwd name) h.disk d inside opened p))
        ];
      }

  after_made :
      (a b : Status × Host) (m : Made)
      → P a.1.disk
      → P b.1.disk
      → P (elim m as (λ x. Status × Host) [ made ↦ a | _ ↦ b ]).1.disk
  after_made a b made u v = u
  after_made a b exists u v = v
  after_made a b refused u v = v

  after_top :
      (a b : Status × Host) (m : Made)
      → P a.1.disk
      → P b.1.disk
      → P (elim m as (λ x. Status × Host) [ refused ↦ b | _ ↦ a ]).1.disk
  after_top a b made u v = u
  after_top a b exists u v = u
  after_top a b refused u v = v

  pub make_dir-Keeps :
      (path : FilePath) (rest : FilePath → Step)
      → Q path
      → Keeps P (rest path)
      → Keeps P (make_dir path rest)
  unfolding make_dir
  make_dir-Keeps path rest q s = record {
    run = λ h p.
        let (m, d) = mkdir path h.disk in
        let u = law.by_mkdir path h.disk q p in
        after_made (rest path (record h { disk = d })) (exit, record h { disk = d }) m
          (s.run (record h { disk = d }) u) u;
  }

  pub make_top-Keeps :
      (path : FilePath) (rest : FilePath → Step)
      → Q path
      → Keeps P (rest path)
      → Keeps P (make_top path rest)
  unfolding make_top
  make_top-Keeps path rest q s = record {
    run = λ h p.
        let (m, d) = mkdir path h.disk in
        let u = law.by_mkdir path h.disk q p in
        after_top (rest path (record h { disk = d })) (exit, record h { disk = d }) m
          (s.run (record h { disk = d }) u) u;
  }

  pub after_nested-Keeps :
      (r : Status × Host) (rest : Step) → P r.1.disk → Keeps P rest → P (after_nested r rest).1.disk
  unfolding after_nested
  after_nested-Keeps (ok, h) rest u s = s.run h u
  after_nested-Keeps (err, h) rest u s = s.run h u
  after_nested-Keeps (exit, h) rest u s = u
  after_nested-Keeps (fault, h) rest u s = u
  after_nested-Keeps (no_fuel, h) rest u s = u

  pub if_success-Keeps : (msg : List ℕ) (rest : Step) → Keeps P rest → Keeps P (if_success msg rest)
  unfolding if_success
  if_success-Keeps msg rest s = record {
    run = λ h p.
        let R : Status × Host → Type 0 = λ r. P r.1.disk in
        if-both R (bytes_eq (c_string msg) success_text) (s.run h p) p;
  }
