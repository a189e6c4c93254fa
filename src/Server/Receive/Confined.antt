-- ===== src/Server/Receive/Confined.antt =====
-- What `writeDir` of server_linux/server.cpp leaves alone, whatever a client sends.
use project.Prelude.{
  ℕ, ◌≡◌, ◌≢◌, refl, sym, ◌∙◌, ap, subst, Bool, List, [], ◌++◌, append_assoc, append-nil, some,
}
use project.Server.Files.{FilePath, Disk, lookup, mkdir, open_wb, fwrite}
use project.Server.Files.Elsewhere.{Untouched, mkdir-Untouched, open_wb-Untouched, fwrite-Untouched}
use project.Server.Receive.{Host, write_dir}
use project.Server.Receive.Keeping.{Kept, Keeps}
use project.Server.Receive.Keeps.{write_dir-Keeps}

-- The paths that start with the text of `cwd`.
abbrev pub StartsWith : FilePath → FilePath → Type 0
StartsWith cwd p = (more : List ℕ) × (p ≡ cwd ++ more)

pub Untouched-Kept : (cwd : FilePath) (d0 : Disk) → Kept (StartsWith cwd) (Untouched cwd d0)
Untouched-Kept cwd d0 = record {
  below = λ p more (start, e). (start ++ more, ap (λ q. q ++ more) e ∙ append_assoc cwd start more);
  by_mkdir = λ p d (start, e) u q out.
      subst (λ path. lookup q (mkdir path d).1.items ≡ lookup q d.items) (sym e)
        (mkdir-Untouched cwd start d q out)
      ∙ u q out;
  by_open = λ p d d' (start, e) opened u q out.
      let step : Untouched cwd d d' =
        rw (subst (λ path. open_wb path d ≡ some d') e opened) at (open_wb-Untouched cwd start d) in
      step q out ∙ u q out;
  by_write = λ p bytes d (start, e) u q out.
      subst (λ path. lookup q (fwrite path bytes d).items ≡ lookup q d.items) (sym e)
        (fwrite-Untouched cwd start bytes d q out)
      ∙ u q out;
}

pub write_dir-Untouched :
    (peer : List ℕ) (fuel : ℕ) (flag : Bool) (cwd : FilePath) (d0 : Disk)
    → Keeps (Untouched cwd d0) (write_dir peer fuel flag cwd)
write_dir-Untouched peer fuel flag cwd d0 =
    write_dir-Keeps (StartsWith cwd) (Untouched cwd d0) (Untouched-Kept cwd d0) peer fuel flag cwd
      ([], sym (append-nil cwd))

-- Whatever a client sends, and whatever the connection and the file system answer: a path that does
-- not start with the text of the directory that `writeDir` is given leads after it where it led
-- before, however far it came. (A name with "../" in it keeps the text's start.)
pub write_dir_confined :
    (peer : List ℕ) (fuel : ℕ) (flag : Bool) (cwd p : FilePath) (h : Host)
    → ((rest : List ℕ) → p ≢ cwd ++ rest)
    → lookup p (write_dir peer fuel flag cwd h).1.disk.items ≡ lookup p h.disk.items
write_dir_confined peer fuel flag cwd p h out =
    (write_dir-Untouched peer fuel flag cwd h.disk).run h (λ q beyond. refl) p out
