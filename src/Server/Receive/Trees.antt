-- ===== src/Server/Receive/Trees.antt =====
-- What `writeDir` stores of a whole tree.
use project.Prelude.{
  ℕ, zero, suc, ◌<◌, ◌≡◌, refl, sym, ◌∙◌, ap, false, List, [], ◌∷◌, ◌++◌, append_assoc, length,
  length-append, length-le_bytes, subst, arith,
}
use project.Socket.Delivery.{IsLive, Receives-refl, Receives-trans, Receives-IsLive}
use project.Wire.{size, file_tag, dir_tag, int_bytes}
use project.Wire.Format.{
  flag_of, behind_flag, length-encode_forest, Tree, Forest, file, dir, end, also, success_message,
  header, encode, encode_forest, IsTree, IsForest, length-header,
}
use project.Server.Files.{directory, regular, FilePath, Listing, Disk}
use project.Server.Files.Laws.{with_items, IsFresh, IsFresh-append}
use project.Server.Receive.{Host, join, receive, write_dir, write_entries}
use project.Server.Receive.Live.{Stored, at_sock, left_over, write_file-Stored}
use project.Server.Receive.Steps.{
  with_items_twice, with_items-nil, after_nested_ok, box-Stored, flag-Stored, entries_end,
  entries_also, enter_fresh, dir-Stored, dispatch_file, listing_step,
}

-- What is to be on the disk, in the order of creation: no code.
unfoldable mutual
  pub listing : FilePath → Tree → Listing
  listing cwd (file name content) = (join cwd name, regular content) ∷ []
  listing cwd (dir name f) = (join cwd name, directory) ∷ listing_forest (join cwd name) f

  pub listing_forest : FilePath → Forest → Listing
  listing_forest cwd end = []
  listing_forest cwd (also t rest) = listing cwd t ++ listing_forest cwd rest

module _ (peer : List ℕ) where
  mutual
    unfolding encode listing behind_flag

    write_dir-Stored :
        (t : Tree) (fuel : ℕ) (cwd : FilePath) (h : Host) (tail : List ℕ)
        → IsTree size t
        → length (encode size t) < fuel
        → IsFresh (listing cwd t) h.disk
        → IsLive h.sock
        → h.sock.input ≡ encode size t ++ tail
        → Stored
            (encode size t)
            (with_items h.disk (listing cwd t))
            h
            (write_dir peer fuel false cwd h)
    write_dir-Stored t zero cwd h tail v lt fresh l e = absurd (omega arith)
    write_dir-Stored (file name content) (suc fuel) cwd h tail v lt fresh l e =
        box-Stored peer fuel false cwd (header size file_tag (length content) name) content tail _ h
          (length-header size file_tag (length content) name v.0.fits) l e
          λ s live i.
            rw
              (dispatch_file peer false cwd name (length content) v.0 v.1 (listing_step peer fuel)
                (at_sock h s))
              (write_file-Stored cwd name content tail (at_sock h s) fresh live i)
    write_dir-Stored (dir name f) (suc fuel) cwd h tail v lt fresh l e =
        let new : Disk = with_items h.disk ((join cwd name, directory) ∷ []) in
        let all : with_items new (listing_forest (join cwd name) f)
            ≡ with_items h.disk ((join cwd name, directory) ∷ listing_forest (join cwd name) f) =
          with_items_twice h.disk ((join cwd name, directory) ∷ [])
            (listing_forest (join cwd name) f) in
        dir-Stored peer fuel false cwd name f (join cwd name) new _ h tail v.0
          (λ k s. enter_fresh peer cwd name (listing_forest (join cwd name) f) h k s fresh)
          (λ s live i. rw (← all) (
            write_entries-Stored f fuel (join cwd name) (record { sock = s; disk = new }) tail v.1
              (omega (
                arith,
                length-append (success_message size)
                    (header size dir_tag 0 name ++ encode_forest size f),
                length-append (header size dir_tag 0 name) (encode_forest size f),
                length-encode_forest size f,
              ))
              fresh.2 live i))
          l e

    pub write_entries-Stored :
        (f : Forest) (fuel : ℕ) (cwd : FilePath) (h : Host) (tail : List ℕ)
        → IsForest size f
        → length (behind_flag size f) < fuel
        → IsFresh (listing_forest cwd f) h.disk
        → IsLive h.sock
        → h.sock.input ≡ behind_flag size f ++ tail
        → Stored
            (behind_flag size f)
            (with_items h.disk (listing_forest cwd f))
            h
            (write_entries peer fuel cwd (flag_of f) h)
    write_entries-Stored f zero cwd h tail v lt fresh l e = absurd (omega arith)
    write_entries-Stored end (suc fuel) cwd h tail v lt fresh l e =
        rw (entries_end peer fuel cwd h) (record {
          status = refl;
          receives = Receives-refl h.sock;
          disk = sym (with_items-nil h.disk);
        })
    write_entries-Stored (also t rest) (suc fuel) cwd h tail v lt fresh l e =
        let (here, later) = IsFresh-append (listing cwd t) (listing_forest cwd rest) h.disk fresh in
        let first =
          write_dir-Stored t fuel cwd h (encode_forest size rest ++ tail) v.0
            (omega (
              arith,
              length-append (encode size t) (encode_forest size rest),
              length-encode_forest size rest,
            ))
            here l (e ∙ append_assoc (encode size t) (encode_forest size rest) tail) in
        let h1 : Host = (write_dir peer fuel false cwd h).1 in
        let second =
          flag-Stored peer fuel cwd rest (int_bytes 1) tail
            (with_items h1.disk (listing_forest cwd rest)) h1 (length-le_bytes 4 1)
            (Receives-IsLive first.receives l)
            (left_over (encode size t) (encode_forest size rest ++ tail) h.sock h1.sock
              first.receives (e ∙ append_assoc (encode size t) (encode_forest size rest) tail))
            (λ s live i.
              write_entries-Stored rest fuel cwd (at_sock h1 s) tail v.1
                (omega (
                  arith,
                  length-append (encode size t) (encode_forest size rest),
                  length-encode_forest size rest,
                ))
                (subst (IsFresh (listing_forest cwd rest)) (sym first.disk) later) live i) in
        rw
          (
            entries_also peer fuel cwd h,
            after_nested_ok (write_dir peer fuel false cwd h)
                (receive 4 (int_bytes 1) (λ loop_flag. write_entries peer fuel cwd loop_flag))
                first.status,
          )
          (record {
            status = second.status;
            receives = Receives-trans first.receives second.receives;
            disk =
                second.disk
                ∙ ap (λ d. with_items d (listing_forest cwd rest)) first.disk
                ∙ with_items_twice h.disk (listing cwd t) (listing_forest cwd rest);
          })

-- A nested `writeDir`, on the encoding of a tree whose names and sizes fit a box, on a connection
-- on which no call fails, with paths that are new on the disk and fuel above the encoding's
-- length: it returns 0 having read exactly the encoding, and exactly the tree's directories and
-- files are new.
pub write_dir_nested :
    (peer : List ℕ) (t : Tree) (fuel : ℕ) (cwd : FilePath) (h : Host) (tail : List ℕ)
    → IsTree size t
    → length (encode size t) < fuel
    → IsFresh (listing cwd t) h.disk
    → IsLive h.sock
    → h.sock.input ≡ encode size t ++ tail
    → Stored (encode size t) (with_items h.disk (listing cwd t)) h (write_dir peer fuel false cwd h)
write_dir_nested = write_dir-Stored
