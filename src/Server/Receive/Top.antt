-- ===== src/Server/Receive/Top.antt =====
-- What `writeDir` stores when `clientThread` calls it: the directory that a client sent, under the
-- server's own directory for that client.
use project.Prelude.{
  ℕ, zero, suc, ◌<◌, ◌≡◌, refl, ◌∙◌, true, false, Option, none, some, List, [], ◌∷◌, ◌++◌, length,
  length-append, arith,
}
use project.Socket.Delivery.{IsLive}
use project.Wire.{size, dir_tag}
use project.Wire.Format.{
  Tree, Forest, dir, success_message, header, encode, encode_forest, IsTree, behind_flag,
  length-encode_forest,
}
use project.Server.Files.{Item, directory, FilePath, Listing, Disk, lookup, mkdir}
use project.Server.Files.Laws.{with_items, IsFresh, mkdir_fresh}
use project.Server.Receive.{Host, Step, join, make_dir, make_top, enter, write_dir}
use project.Server.Receive.Live.{Stored, at_sock}
use project.Server.Receive.Steps.{with_items_twice, make_dir_fresh, dir-Stored}
use project.Server.Receive.Trees.{listing, listing_forest, write_entries-Stored}

pub make_top_exists :
    (p : FilePath) (rest : FilePath → Step) (h : Host) (item : Item)
    → lookup p h.disk.items ≡ some item
    → make_top p rest h ≡ rest p h
unfolding make_top mkdir
make_top_exists p rest h item there = ground arith

make_top_fresh :
    (p : FilePath) (rest : FilePath → Step) (h : Host)
    → lookup p h.disk.items ≡ none
    → h.disk.denied p ≡ false
    → make_top p rest h ≡ rest p (record h { disk = with_items h.disk ((p, directory) ∷ []) })
unfolding make_top
make_top_fresh p rest h absent allowed =
    let e = mkdir_fresh p h.disk absent allowed in rw (e, make_top) (rw e)

module _ (peer : List ℕ) where
  -- What a dump adds: the client's own directory only where it is not there yet.
  abbrev pub arrival : FilePath → Tree → Option Item → Listing
  arrival cwd t none = (join cwd peer, directory) ∷ listing (join cwd peer) t
  arrival cwd t (some item) = listing (join cwd peer) t

  enter_top_exists :
      (cwd name : FilePath) (k : FilePath → Step) (h : Host) (item : Item)
      → lookup (join cwd peer) h.disk.items ≡ some item
      → lookup (join (join cwd peer) name) h.disk.items ≡ none
      → h.disk.denied (join (join cwd peer) name) ≡ false
      → enter peer true cwd name k h
        ≡ k
            (join (join cwd peer) name)
            (record h { disk = with_items h.disk ((join (join cwd peer) name, directory) ∷ []) })
  unfolding enter
  enter_top_exists cwd name k h item there absent allowed =
      make_top_exists (join cwd peer) (λ top. make_dir (join top name) k) h item there
      ∙ make_dir_fresh (join (join cwd peer) name) k h absent allowed

  enter_top_fresh :
      (cwd name : FilePath) (k : FilePath → Step) (h : Host)
      → lookup (join cwd peer) h.disk.items ≡ none
      → h.disk.denied (join cwd peer) ≡ false
      → lookup
          (join (join cwd peer) name)
          (with_items h.disk ((join cwd peer, directory) ∷ [])).items
        ≡ none
      → h.disk.denied (join (join cwd peer) name) ≡ false
      → enter peer true cwd name k h
        ≡ k (join (join cwd peer) name) (record h {
          disk =
              with_items
                (with_items h.disk ((join cwd peer, directory) ∷ []))
                ((join (join cwd peer) name, directory) ∷ []);
        })
  unfolding enter
  enter_top_fresh cwd name k h there allow absent allowed =
      make_top_fresh (join cwd peer) (λ top. make_dir (join top name) k) h there allow
      ∙ make_dir_fresh (join (join cwd peer) name) k
          (record h { disk = with_items h.disk ((join cwd peer, directory) ∷ []) }) absent allowed

  room :
      (name : List ℕ) (f : Forest) (fuel : ℕ)
      → length (encode size (dir name f)) < suc fuel
      → length (behind_flag size f) < fuel
  unfolding encode
  room name f fuel lt = omega (
    arith,
    length-append (success_message size) (header size dir_tag 0 name ++ encode_forest size f),
    length-append (header size dir_tag 0 name) (encode_forest size f),
    length-encode_forest size f,
  )

  top-Stored :
      (found : Option Item) (name : List ℕ) (f : Forest) (fuel : ℕ) (cwd : FilePath) (h : Host)
      (tail : List ℕ)
      → lookup (join cwd peer) h.disk.items ≡ found
      → IsTree size (dir name f)
      → length (encode size (dir name f)) < fuel
      → IsFresh (arrival cwd (dir name f) found) h.disk
      → IsLive h.sock
      → h.sock.input ≡ encode size (dir name f) ++ tail
      → Stored
          (encode size (dir name f))
          (with_items h.disk (arrival cwd (dir name f) found))
          h
          (write_dir peer fuel true cwd h)
  unfolding listing
  top-Stored found name f zero cwd h tail at v lt fresh l e = absurd (omega arith)
  top-Stored (some item) name f (suc fuel) cwd h tail there v lt (absent, allowed, fresh) l e =
      let p : FilePath = join (join cwd peer) name in
      let new : Disk = with_items h.disk ((p, directory) ∷ []) in
      dir-Stored peer fuel true cwd name f p new _ h tail v.0
        (λ k s. enter_top_exists cwd name k (at_sock h s) item there absent allowed)
        (λ s live i. rw (← with_items_twice h.disk ((p, directory) ∷ []) (listing_forest p f)) (
          write_entries-Stored peer f fuel p (record { sock = s; disk = new }) tail v.1
            (room name f fuel lt) fresh live i))
        l e
  top-Stored none name f (suc fuel) cwd h tail there v lt (gone, allow, fresh') l e =
      let (absent, allowed, fresh) = fresh' in
      let q : FilePath = join cwd peer in
      let p : FilePath = join q name in
      let top : Disk = with_items h.disk ((q, directory) ∷ []) in
      let new : Disk = with_items top ((p, directory) ∷ []) in
      let all =
        with_items_twice top ((p, directory) ∷ []) (listing_forest p f)
        ∙ with_items_twice h.disk ((q, directory) ∷ []) ((p, directory) ∷ listing_forest p f) in
      dir-Stored peer fuel true cwd name f p new _ h tail v.0
        (λ k s. enter_top_fresh cwd name k (at_sock h s) gone allow absent allowed)
        (λ s live i. rw (← all) (
          write_entries-Stored peer f fuel p (record { sock = s; disk = new }) tail v.1
            (room name f fuel lt) fresh live i))
        l e

-- The `writeDir` that `clientThread` calls, on the encoding of a directory whose names and sizes
-- fit a box, on a connection on which no call fails, with paths that are new on the disk and fuel
-- above the encoding's length: it returns 0 having read exactly the encoding, and what is new on
-- the disk is exactly the directory and what is in it, under the client's own directory, which is
-- made only where it is missing.
pub write_dir_first :
    (peer name : List ℕ) (f : Forest) (fuel : ℕ) (cwd : FilePath) (h : Host) (tail : List ℕ)
    → IsTree size (dir name f)
    → length (encode size (dir name f)) < fuel
    → IsFresh (arrival peer cwd (dir name f) (lookup (join cwd peer) h.disk.items)) h.disk
    → IsLive h.sock
    → h.sock.input ≡ encode size (dir name f) ++ tail
    → Stored
        (encode size (dir name f))
        (with_items h.disk (arrival peer cwd (dir name f) (lookup (join cwd peer) h.disk.items)))
        h
        (write_dir peer fuel true cwd h)
write_dir_first peer name f fuel cwd h tail =
    top-Stored peer (lookup (join cwd peer) h.disk.items) name f fuel cwd h tail refl
