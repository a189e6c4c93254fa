-- ===== src/Alone/Misread.antt =====
-- The server of server_linux/server.cpp on what the stand-alone client, kernel/executable/main.cpp,
-- sends of a directory.
use project.Prelude.{
  ℕ, suc, ◌≤◌, ◌≡◌, refl, sym, ◌∙◌, ap, true, none, List, [], ◌∷◌, ◌++◌, append_assoc, length, take,
  drop, replicate, replicate-append, drop-replicate, take-append-drop, fault, put_string, le_value,
  c_string, has_nul, lengths, ap₂,
}
use project.Socket.{Sock}
use project.Socket.Delivery.{IsLive}
use project.Wire.{size, alone_size, box_size, decode_box, success_text}
use project.Wire.Format.{success_message}
use project.Server.Files.{FilePath, open_wb}
use project.Server.Receive.{Host, Step, join, write_file, dispatch, write_dir}
use project.Server.Receive.Live.{at_sock}
use project.Server.Receive.Steps.{listing_step}
use project.Server.Receive.Lone.{box-Reached}

-- The larger buffer is the smaller one and more zeros.
success_split : success_message alone_size ≡ success_message size ++ replicate size 0
unfolding put_string
success_split =
    let zero_byte : ℕ = 0 in
    let long = drop-replicate 8 32784 zero_byte in
    let short = drop-replicate 8 16400 zero_byte in
    ap (λ xs. success_text ++ 0 ∷ xs)
      (long
        ∙ sym (
            ap (λ xs. xs ++ replicate size 0) short
            ∙ replicate-append 16392 size 32776 zero_byte refl))

zeros_shared :
    (tail : List ℕ)
    → replicate size 0 ++ tail
      ≡ (replicate 17 0 ++ (replicate 16367 0 ++ take 16 tail)) ++ drop 16 tail
zeros_shared tail =
    let zero_byte : ℕ = 0 in
    ap₂ (λ (xs ys : List ℕ). xs ++ ys) (sym (replicate-append 17 16367 size zero_byte refl))
      (sym (take-append-drop 16 tail))
    ∙ simp append_assoc

zeros_decoded :
    (more : List ℕ)
    → decode_box (replicate 17 0 ++ more)
      ≡ record { file_type = 0; file_size = 0; name_data = 0 ∷ more }
unfolding decode_box replicate take drop le_value
zeros_decoded more = refl

-- A box that starts with as many zeros as its fields in front of the name take, and one more: it is
-- taken for an empty file without a name, and the file does not open.
dispatch_zeros :
    (peer : List ℕ) (cwd : FilePath) (listing : FilePath → Step) (more : List ℕ) (h : Host)
    → open_wb (join cwd []) h.disk ≡ none
    → dispatch peer true cwd (decode_box (replicate 17 0 ++ more)) listing h ≡ (fault, h)
unfolding dispatch write_file c_string has_nul
dispatch_zeros peer cwd listing more h shut = rw (zeros_decoded more) (rw (shut, write_file) refl)

-- On a connection on which no call fails, that delivers the stand-alone client's buffer that says
-- "success" and at least 16 bytes more, on a disk where no file opens under the server's directory
-- and an empty name: `writeDir` ends in undefined behaviour, with the disk as it was.
pub alone_misread :
    (peer : List ℕ) (fuel : ℕ) (cwd : FilePath) (h : Host) (tail : List ℕ)
    → IsLive h.sock
    → h.sock.input ≡ success_message alone_size ++ tail
    → 16 ≤ length tail
    → open_wb (join cwd []) h.disk ≡ none
    → (s : Sock) × (write_dir peer (suc fuel) true cwd h ≡ (fault, at_sock h s))
alone_misread peer fuel cwd h tail l e enough shut =
    let more : List ℕ = replicate 16367 0 ++ take 16 tail in
    let box : List ℕ = replicate 17 0 ++ more in
    let len : length box ≡ box_size size = omega lengths in
    let split : h.sock.input ≡ success_message size ++ (box ++ drop 16 tail) =
      e
      ∙ ap (λ xs. xs ++ tail) success_split
      ∙ append_assoc (success_message size) (replicate size 0) tail
      ∙ ap (λ xs. success_message size ++ xs) (zeros_shared tail) in
    let (s, reached) = box-Reached peer fuel cwd h box (drop 16 tail) len l split in
    (s, reached ∙ dispatch_zeros peer cwd (listing_step peer fuel) more (at_sock h s) shut)
