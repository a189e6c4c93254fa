-- ===== src/Server/Receive/Steps.antt =====
-- The rounds of `writeDir` on what the protocol says, one rule for each.
use project.Prelude.{
  ℕ, suc, ◌^◌, ◌<◌, ◌≡◌, refl, ◌∙◌, ap, Bool, false, none, List, [], ◌∷◌, ◌++◌, append_assoc,
  append-nil, length, replicate, length-append, length-replicate, le_bytes, le_value, bytes_eq_refl,
  Status, ok, err, exit, fault, no_fuel, arith,
}
use project.Socket.{Sock}
use project.Socket.Delivery.{IsLive}
use project.Wire.{
  size, box_size, file_tag, dir_tag, decode_box, named_box, blank, success_text, int_bytes,
}
use project.Wire.Layout.{
  decode_box-encode_box, named_box-IsBox, named_box-name, named_box-has_nul, c_string-put_string,
}
use project.Wire.Format.{
  flag_of, behind_flag, flag_split, length-encode_forest, Forest, dir, success_message, header,
  encode, encode_forest, IsName, length-success, length-header,
}
use project.Server.Files.{directory, FilePath, Listing, Disk, lookup}
use project.Server.Files.Laws.{with_items, IsFresh, mkdir_fresh}
use project.Server.Receive.{
  Host, Step, join, receive, write_file, make_dir, enter, dispatch, if_success, after_nested,
  write_dir, write_entries,
}
use project.Server.Receive.Live.{Stored, at_sock, message-Stored}

pub with_items_twice :
    (d : Disk) (xs ys : Listing) → with_items (with_items d xs) ys ≡ with_items d (xs ++ ys)
with_items_twice d xs ys k = record d { items = append_assoc d.items xs ys k }

pub with_items-nil : (d : Disk) → with_items d [] ≡ d
with_items-nil d k = record d { items = append-nil d.items k }

pub make_dir_fresh :
    (p : FilePath) (rest : FilePath → Step) (h : Host)
    → lookup p h.disk.items ≡ none
    → h.disk.denied p ≡ false
    → make_dir p rest h ≡ rest p (record h { disk = with_items h.disk ((p, directory) ∷ []) })
unfolding make_dir
make_dir_fresh p rest h absent allowed =
    let e = mkdir_fresh p h.disk absent allowed in rw (e, make_dir) (rw e)

pub after_nested_ok : (r : Status × Host) (rest : Step) → r.0 ≡ ok → after_nested r rest ≡ rest r.1
unfolding after_nested
after_nested_ok (ok, h) rest e = refl
after_nested_ok (err, h) rest e = cc
after_nested_ok (exit, h) rest e = cc
after_nested_ok (fault, h) rest e = cc
after_nested_ok (no_fuel, h) rest e = cc

pub if_success-message :
    (rest : Step) (h : Host) → if_success (success_message size) rest h ≡ rest h
unfolding if_success
if_success-message rest h =
    rw (c_string-put_string success_text (blank size) (omega arith), bytes_eq_refl success_text)

module _ (peer : List ℕ) where
  module _ (flag : Bool) (cwd name : List ℕ) (n : ℕ) (v : IsName size name) (fits : n < 256 ^ 8)
      (next : FilePath → Step) (h : Host) where
    pub dispatch_file :
        dispatch peer flag cwd (decode_box (header size file_tag n name)) next h
        ≡ write_file cwd name n h
    unfolding dispatch
    dispatch_file =
        rw
          (
            decode_box-encode_box size (named_box size file_tag n name)
                (named_box-IsBox size file_tag n name (omega arith) fits v.fits),
            named_box-has_nul size file_tag n name,
            named_box-name size file_tag n name v.bytes,
          )
          (unfold named_box in refl)

    pub dispatch_dir :
        dispatch peer flag cwd (decode_box (header size dir_tag n name)) next h
        ≡ enter peer flag cwd name next h
    unfolding dispatch
    dispatch_dir =
        rw
          (
            decode_box-encode_box size (named_box size dir_tag n name)
                (named_box-IsBox size dir_tag n name (omega arith) fits v.fits),
            named_box-has_nul size dir_tag n name,
            named_box-name size dir_tag n name v.bytes,
          )
          (unfold named_box in refl)

  -- The continuation that `writeDir` hands on for a directory.
  abbrev pub listing_step : ℕ → FilePath → Step
  listing_step fuel p =
      receive 4 (replicate 4 255) (λ loop_flag. write_entries peer fuel p loop_flag)

  -- `writeDir` on a message that says success, a box, and what follows the box.
  pub box-Stored :
      (fuel : ℕ) (flag : Bool) (cwd : FilePath) (box payload tail : List ℕ) (d : Disk) (h : Host)
      → length box ≡ box_size size
      → IsLive h.sock
      → h.sock.input ≡ (success_message size ++ (box ++ payload)) ++ tail
      → ((s : Sock)
          → IsLive s
          → s.input ≡ payload ++ tail
          → Stored payload d
              (at_sock h s)
              (dispatch peer flag cwd (decode_box box) (listing_step fuel) (at_sock h s)))
      → Stored (success_message size ++ (box ++ payload)) d h (write_dir peer (suc fuel) flag cwd h)
  unfolding write_dir
  box-Stored fuel flag cwd box payload tail d h len l e next =
      message-Stored (box_size size) (blank size) (success_message size) (box ++ payload) tail d
        (λ msg. if_success msg (
          receive (box_size size) msg
            (λ msg'. dispatch peer flag cwd (decode_box msg') (listing_step fuel))))
        h (length-replicate (box_size size) 0) (length-success size) l
        (e ∙ append_assoc (success_message size) (box ++ payload) tail)
        λ s live i.
          rw
            (if_success-message
              (receive (box_size size) (success_message size)
                (λ msg'. dispatch peer flag cwd (decode_box msg') (listing_step fuel)))
              (at_sock h s))
            (message-Stored (box_size size) (success_message size) box payload tail d
              (λ msg'. dispatch peer flag cwd (decode_box msg') (listing_step fuel)) (at_sock h s)
              (length-success size) len live (i ∙ append_assoc box payload tail)
              (λ s' live' i'. next s' live' i'))

  -- The next flag, and the loop behind it.
  pub flag-Stored :
      (fuel : ℕ) (p : FilePath) (f : Forest) (buffer tail : List ℕ) (d : Disk) (h : Host)
      → length buffer ≡ 4
      → IsLive h.sock
      → h.sock.input ≡ encode_forest size f ++ tail
      → ((s : Sock)
          → IsLive s
          → s.input ≡ behind_flag size f ++ tail
          → Stored
              (behind_flag size f)
              d
              (at_sock h s)
              (write_entries peer fuel p (flag_of f) (at_sock h s)))
      → Stored
          (encode_forest size f)
          d
          h
          (receive 4 buffer (λ loop_flag. write_entries peer fuel p loop_flag) h)
  flag-Stored fuel p f buffer tail d h four l e loop = rw (flag_split size f) (
      message-Stored 4 buffer (flag_of f) (behind_flag size f) tail d
        (λ loop_flag. write_entries peer fuel p loop_flag) h four
        (omega (
          arith,
          length-encode_forest size f,
          ap length (flag_split size f),
          length-append (flag_of f) (behind_flag size f),
        ))
        l
        (e
          ∙ ap (λ xs. xs ++ tail) (flag_split size f)
          ∙ append_assoc (flag_of f) (behind_flag size f) tail)
        loop)

  pub entries_end :
      (fuel : ℕ) (p : FilePath) (h : Host)
      → write_entries peer (suc fuel) p (int_bytes 0) h ≡ (ok, h)
  unfolding write_dir le_bytes le_value
  entries_end fuel p h = refl

  pub entries_also :
      (fuel : ℕ) (p : FilePath) (h : Host)
      → write_entries peer (suc fuel) p (int_bytes 1) h
        ≡ after_nested
            (write_dir peer fuel false p h)
            (receive 4 (int_bytes 1) (λ loop_flag. write_entries peer fuel p loop_flag))
  unfolding write_dir le_bytes le_value
  entries_also fuel p h = refl

  pub enter_fresh :
      (cwd name : List ℕ) (new : Listing) (h : Host) (k : FilePath → Step) (s : Sock)
      → IsFresh ((join cwd name, directory) ∷ new) h.disk
      → enter peer false cwd name k (at_sock h s)
        ≡ k
            (join cwd name)
            (record { sock = s; disk = with_items h.disk ((join cwd name, directory) ∷ []) })
  unfolding enter
  enter_fresh cwd name new h k s (absent, allowed, _) =
      make_dir_fresh (join cwd name) k (at_sock h s) absent allowed

  -- A directory whose path `enter` leads to, from the loop's lemma.
  pub dir-Stored :
      (fuel : ℕ) (flag : Bool) (cwd name : List ℕ) (f : Forest) (p : FilePath) (d d' : Disk)
      (h : Host) (tail : List ℕ)
      → IsName size name
      → ((k : FilePath → Step) (s : Sock)
          → enter peer flag cwd name k (at_sock h s) ≡ k p (record { sock = s; disk = d }))
      → ((s : Sock)
          → IsLive s
          → s.input ≡ behind_flag size f ++ tail
          → Stored
              (behind_flag size f)
              d'
              (record { sock = s; disk = d })
              (write_entries peer fuel p (flag_of f) (record { sock = s; disk = d })))
      → IsLive h.sock
      → h.sock.input ≡ encode size (dir name f) ++ tail
      → Stored (encode size (dir name f)) d' h (write_dir peer (suc fuel) flag cwd h)
  unfolding encode
  dir-Stored fuel flag cwd name f p d d' h tail v enters loop l e =
      box-Stored fuel flag cwd (header size dir_tag 0 name) (encode_forest size f) tail d' h
        (length-header size dir_tag 0 name v.fits) l e
        λ s live i.
          rw
            (
              dispatch_dir flag cwd name 0 v (omega arith) (listing_step fuel) (at_sock h s),
              enters (listing_step fuel) s,
            )
            (moved s (
              flag-Stored fuel p f (replicate 4 255) tail d' (record { sock = s; disk = d })
                (length-replicate 4 255) live i loop))
    where
      moved :
          (s : Sock)
          → Stored
              (encode_forest size f)
              d'
              (record { sock = s; disk = d })
              (listing_step fuel p (record { sock = s; disk = d }))
          → Stored
              (encode_forest size f)
              d'
              (at_sock h s)
              (listing_step fuel p (record { sock = s; disk = d }))
      moved s x = record { status = x.status; receives = x.receives; disk = x.disk }
