-- ===== src/Server/Receive/Live.antt =====
-- What `writeDir` stores of a tree that a client sent whole, while no call on the socket fails.
use project.Prelude.{
  ℕ, zero, suc, ◌-◌, ◌<◌, min, ◌≡◌, refl, sym, ◌∙◌, ap, none, List, [], ◌∷◌, ◌++◌, append_assoc,
  append-nil, length, take, drop, replicate, length-take, length-drop, take-append, drop-length,
  append_cancel_left, take-append-drop, Status, ok, arith,
}
use project.Socket.{Sock}
use project.Socket.Delivery.{IsLive, Receives, Receives-refl, Receives-trans, Receives-IsLive}
use project.Wire.{size}
use project.Server.Transfer.{receive_all}
use project.Server.Transfer.Live.{receive_all-Filled}
use project.Server.Files.{regular, FilePath, Listing, Disk, lookup, fwrite}
use project.Server.Files.Laws.{with_items, IsFresh, open_wb_fresh, fwrite_last}
use project.Server.Receive.{Host, Step, join, receive, write_loop, write_file}

-- A step that ended with 0, read exactly `bytes`, and left the disk as `d`.
pub record Stored (bytes : List ℕ) (d : Disk) (h : Host) (r : Status × Host) : Type 0 where
  pub status : r.0 ≡ ok
  pub receives : Receives bytes h.sock r.1.sock
  pub disk : r.1.disk ≡ d

-- What is left to read after the bytes that were read.
pub left_over :
    (bytes tail : List ℕ) (s t : Sock)
    → Receives bytes s t
    → s.input ≡ bytes ++ tail
    → t.input ≡ tail
left_over bytes tail s t r e = append_cancel_left bytes t.input tail (sym r.input ∙ e)

abbrev pub at_sock : Host → Sock → Host
at_sock h s = record h { sock = s }

-- The rule for one message and what follows it.
receive-Stored :
    (n : ℕ) (buffer bytes more tail : List ℕ) (d : Disk) (rest : List ℕ → Step) (h : Host)
    → length bytes ≡ n
    → IsLive h.sock
    → h.sock.input ≡ bytes ++ (more ++ tail)
    → ((s : Sock)
        → IsLive s
        → s.input ≡ more ++ tail
        → Stored more d (at_sock h s) (rest (bytes ++ drop n buffer) (at_sock h s)))
    → Stored (bytes ++ more) d h (receive n buffer rest h)
unfolding receive
receive-Stored n buffer bytes more tail d rest h len l e next =
    let filled = receive_all-Filled n buffer bytes (more ++ tail) h.sock len e l in
    let s : Sock = (receive_all n buffer h.sock).2 in
    let stored =
      next s (Receives-IsLive filled.receives l)
        (left_over bytes (more ++ tail) h.sock s filled.receives e) in
    rw (filled.status, filled.dest, receive)
      (record {
        status = stored.status;
        receives = Receives-trans filled.receives stored.receives;
        disk = stored.disk;
      })

-- The same with a buffer that the message fills.
pub message-Stored :
    (n : ℕ) (buffer bytes more tail : List ℕ) (d : Disk) (rest : List ℕ → Step) (h : Host)
    → length buffer ≡ n
    → length bytes ≡ n
    → IsLive h.sock
    → h.sock.input ≡ bytes ++ (more ++ tail)
    → ((s : Sock)
        → IsLive s
        → s.input ≡ more ++ tail
        → Stored more d (at_sock h s) (rest bytes (at_sock h s)))
    → Stored (bytes ++ more) d h (receive n buffer rest h)
message-Stored n buffer bytes more tail d rest h fits len l e next =
    let full : bytes ++ drop n buffer ≡ bytes =
      ap (λ xs. bytes ++ xs) (drop-length n buffer (omega arith)) ∙ append-nil bytes in
    receive-Stored n buffer bytes more tail d rest h len l e λ s live i. rw full (next s live i)

-- The loop of `writeFile`, with `old` in the file already.
write_loop-Stored :
    (n : ℕ) (path : FilePath) (left : ℕ) (old wanted tail : List ℕ) (items : Listing) (h : Host)
    → left < n
    → length wanted ≡ left
    → lookup path items ≡ none
    → h.disk.items ≡ items ++ (path, regular old) ∷ []
    → IsLive h.sock
    → h.sock.input ≡ wanted ++ tail
    → Stored wanted
        (record h.disk { items = items ++ (path, regular (old ++ wanted)) ∷ [] })
        h
        (write_loop n path left h)
unfolding write_loop
write_loop-Stored zero path left old wanted tail items h lt len absent e l i = absurd (omega arith)
write_loop-Stored (suc n) path zero old [] tail items h lt len absent e l i = record {
  status = refl;
  receives = Receives-refl h.sock;
  disk = rw (append-nil old) (λ k. record h.disk { items = e k });
}
write_loop-Stored (suc n) path zero old (w ∷ ws) tail items h lt len absent e l i =
    absurd (omega arith)
write_loop-Stored (suc n) path (suc left) old wanted tail items h lt len absent e l i =
    let count : ℕ = min (suc left) size in
    let bytes : List ℕ = take count wanted in
    let more : List ℕ = drop count wanted in
    let short : length bytes ≡ count = length-take count wanted ∙ omega arith in
    let split : bytes ++ more ≡ wanted = take-append-drop count wanted in
    let whole : h.sock.input ≡ bytes ++ (more ++ tail) =
      i ∙ ap (λ xs. xs ++ tail) (sym split) ∙ append_assoc bytes more tail in
    let buffer : List ℕ = replicate size 0 in
    let filed : List ℕ → Disk = λ xs. record h.disk { items = items ++ (path, regular xs) ∷ [] } in
    let rest : List ℕ → Step = λ buffer' h'.
      write_loop n path (suc left - count)
        (record h' { disk = fwrite path (take count buffer') h'.disk }) in
    let next : (s : Sock)
        → IsLive s
        → s.input ≡ more ++ tail
        → Stored more (filed (old ++ wanted)) (at_sock h s)
            (rest (bytes ++ drop count buffer) (at_sock h s)) =
      λ s live input.
        let same =
          ap (λ xs. fwrite path xs h.disk) (take-append count bytes (drop count buffer) (sym short))
          ∙ fwrite_last path old bytes items h.disk absent e in
        let step =
          write_loop-Stored n path (suc left - count) (old ++ bytes) more tail items
            (record { sock = s; disk = filed (old ++ bytes) }) (omega arith)
            (length-drop count wanted ∙ omega arith) absent refl live input in
        rw same (record {
          status = step.status;
          receives = step.receives;
          disk = step.disk ∙ ap filed (append_assoc old bytes more ∙ ap (λ xs. old ++ xs) split);
        }) in
    rw split at (
      receive-Stored count buffer bytes more tail (filed (old ++ wanted)) rest h short l whole next)

pub write_file-Stored :
    (cwd : FilePath) (name content tail : List ℕ) (h : Host)
    → IsFresh ((join cwd name, regular content) ∷ []) h.disk
    → IsLive h.sock
    → h.sock.input ≡ content ++ tail
    → Stored content
        (with_items h.disk ((join cwd name, regular content) ∷ []))
        h
        (write_file cwd name (length content) h)
unfolding write_file
write_file-Stored cwd name content tail h (absent, allowed, _) l e =
    rw (open_wb_fresh (join cwd name) h.disk absent allowed, write_file)
      (record { status = stored.status; receives = stored.receives; disk = stored.disk })
  where
    stored :
        Stored content
          (with_items h.disk ((join cwd name, regular content) ∷ []))
          (record h { disk = with_items h.disk ((join cwd name, regular []) ∷ []) })
          (write_loop
            (suc (length content))
            (join cwd name)
            (length content)
            (record h { disk = with_items h.disk ((join cwd name, regular []) ∷ []) }))
    stored =
        write_loop-Stored (suc (length content)) (join cwd name) (length content) [] content tail
          h.disk.items _ (omega arith) refl absent refl l e
