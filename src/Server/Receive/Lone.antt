-- ===== src/Server/Receive/Lone.antt =====
-- What `writeDir` does with a client's first box, where it is not that of a new directory.
use project.Prelude.{
  ℕ, suc, ◌^◌, ◌<◌, ◌≡◌, ◌∙◌, ap, true, some, List, [], ◌∷◌, ◌++◌, append-nil, length, drop,
  drop-length, length-replicate, exit, arith,
}
use project.Socket.{Sock}
use project.Socket.Delivery.{IsLive, Receives-IsLive}
use project.Wire.{size, box_size, file_tag, dir_tag, decode_box, blank}
use project.Wire.Format.{success_message, header, IsName, length-success, length-header}
use project.Server.Transfer.{receive_all}
use project.Server.Transfer.Live.{receive_all-Filled}
use project.Server.Files.{Item, regular, FilePath, lookup, mkdir}
use project.Server.Files.Laws.{with_items, IsFresh}
use project.Server.Receive.{
  Host, Step, join, receive, if_success, make_dir, enter, dispatch, write_dir,
}
use project.Server.Receive.Live.{Stored, at_sock, left_over, write_file-Stored}
use project.Server.Receive.Top.{make_top_exists}
use project.Server.Receive.Steps.{
  dispatch_file, dispatch_dir, listing_step, box-Stored, if_success-message,
}

-- A file instead of a directory, as the first that a client sends, with a name and a size that fit a
-- box, on a connection on which no call fails, and a new path: `writeDir` reads exactly the two
-- messages and the content, and the file stands in the server's own directory, next to the
-- clients' directories.
pub write_dir_file :
    (peer name content : List ℕ) (fuel : ℕ) (cwd : FilePath) (h : Host) (tail : List ℕ)
    → IsName size name
    → length content < 256 ^ 8
    → IsFresh ((join cwd name, regular content) ∷ []) h.disk
    → IsLive h.sock
    → h.sock.input
      ≡ (success_message size ++ (header size file_tag (length content) name ++ content)) ++ tail
    → Stored
        (success_message size ++ (header size file_tag (length content) name ++ content))
        (with_items h.disk ((join cwd name, regular content) ∷ []))
        h
        (write_dir peer (suc fuel) true cwd h)
write_dir_file peer name content fuel cwd h tail v fits fresh l e =
    box-Stored peer fuel true cwd (header size file_tag (length content) name) content tail
      (with_items h.disk ((join cwd name, regular content) ∷ [])) h
      (length-header size file_tag (length content) name v.fits) l e
      λ s live i.
        rw
          (dispatch_file peer true cwd name (length content) v fits (listing_step peer fuel)
            (at_sock h s))
          (write_file-Stored cwd name content tail (at_sock h s) fresh live i)

-- The rest of a step, behind a message.
record Reached (n : ℕ) (buffer bytes tail : List ℕ) (rest : List ℕ → Step) (h : Host) : Type 0 where
  pub behind : Sock
  pub live : IsLive behind
  pub input : behind.input ≡ tail
  pub same : receive n buffer rest h ≡ rest bytes (at_sock h behind)

receive-Reached :
    (n : ℕ) (buffer bytes tail : List ℕ) (rest : List ℕ → Step) (h : Host)
    → length buffer ≡ n
    → length bytes ≡ n
    → IsLive h.sock
    → h.sock.input ≡ bytes ++ tail
    → Reached n buffer bytes tail rest h
unfolding receive
receive-Reached n buffer bytes tail rest h fits len l e =
    let filled = receive_all-Filled n buffer bytes tail h.sock len e l in
    let s : Sock = (receive_all n buffer h.sock).2 in
    let full : bytes ++ drop n buffer ≡ bytes =
      ap (λ xs. bytes ++ xs) (drop-length n buffer (omega arith)) ∙ append-nil bytes in
    record {
      behind = s;
      live = Receives-IsLive filled.receives l;
      input = left_over bytes tail h.sock s filled.receives e;
      same = rw (filled.status, filled.dest, receive) (ap (λ xs. rest xs (at_sock h s)) full);
    }

-- The first box, whatever is in it: `dispatch`, with the connection behind the box.
pub box-Reached :
    (peer : List ℕ) (fuel : ℕ) (cwd : FilePath) (h : Host) (box tail : List ℕ)
    → length box ≡ box_size size
    → IsLive h.sock
    → h.sock.input ≡ success_message size ++ (box ++ tail)
    → (s : Sock) × (write_dir peer (suc fuel) true cwd h
        ≡ dispatch peer true cwd (decode_box box) (listing_step peer fuel) (at_sock h s))
unfolding write_dir
box-Reached peer fuel cwd h box tail len l e =
    let after_box : List ℕ → Step =
      λ msg'. dispatch peer true cwd (decode_box msg') (listing_step peer fuel) in
    let first =
      receive-Reached (box_size size) (blank size) (success_message size) (box ++ tail)
        (λ msg. if_success msg (receive (box_size size) msg after_box)) h
        (length-replicate (box_size size) 0) (length-success size) l e in
    let second =
      receive-Reached (box_size size) (success_message size) box tail after_box
        (at_sock h first.behind) (length-success size) len first.live first.input in
    (
      second.behind,
      first.same
          ∙ if_success-message (receive (box_size size) (success_message size) after_box)
              (at_sock h first.behind)
          ∙ second.same,
    )

-- The first box, of a directory: `enter`.
header-Reached :
    (peer name : List ℕ) (fuel : ℕ) (cwd : FilePath) (h : Host) (tail : List ℕ)
    → IsName size name
    → IsLive h.sock
    → h.sock.input ≡ success_message size ++ (header size dir_tag 0 name ++ tail)
    → (s : Sock) × (write_dir peer (suc fuel) true cwd h
        ≡ enter peer true cwd name (listing_step peer fuel) (at_sock h s))
header-Reached peer name fuel cwd h tail v l e =
    let (s, reached) =
      box-Reached peer fuel cwd h (header size dir_tag 0 name) tail
        (length-header size dir_tag 0 name v.fits) l e in
    (
      s,
      reached
          ∙ dispatch_dir peer true cwd name 0 v (omega arith) (listing_step peer fuel)
              (at_sock h s),
    )

make_dir_taken :
    (p : FilePath) (rest : FilePath → Step) (h : Host) (item : Item)
    → lookup p h.disk.items ≡ some item
    → make_dir p rest h ≡ (exit, h)
unfolding make_dir mkdir
make_dir_taken p rest h item there = ground arith

-- A directory whose path is taken on the disk already, under a directory of the client that is there,
-- with a name that fits a box, on a connection on which no call fails: `writeDir` ends the whole
-- process, with the disk as it was.
pub write_dir_taken :
    (peer name : List ℕ) (fuel : ℕ) (cwd : FilePath) (h : Host) (tail : List ℕ) (own item : Item)
    → IsName size name
    → lookup (join cwd peer) h.disk.items ≡ some own
    → lookup (join (join cwd peer) name) h.disk.items ≡ some item
    → IsLive h.sock
    → h.sock.input ≡ success_message size ++ (header size dir_tag 0 name ++ tail)
    → (s : Sock) × (write_dir peer (suc fuel) true cwd h ≡ (exit, at_sock h s))
unfolding enter
write_dir_taken peer name fuel cwd h tail own item v mine taken l e =
    let (s, reached) = header-Reached peer name fuel cwd h tail v l e in
    let k : FilePath → Step = listing_step peer fuel in
    (
      s,
      reached
          ∙ make_top_exists (join cwd peer) (λ top. make_dir (join top name) k) (at_sock h s) own
              mine
          ∙ make_dir_taken (join (join cwd peer) name) k (at_sock h s) item taken,
    )
