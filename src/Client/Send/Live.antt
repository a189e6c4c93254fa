-- ===== src/Client/Send/Live.antt =====
-- What `sendDir` sends of a readable tree while no call on the socket fails.
use project.Prelude.{
  ℕ, ◌^◌, ◌<◌, ◌≡◌, refl, ◌∙◌, true, false, some, List, [], ◌∷◌, ◌++◌, append_assoc, append-nil,
  arith, length-le_bytes,
}
use project.Socket.Delivery.{IsLive, Sends-refl}
use project.Wire.{box_size, dir_tag, int_bytes}
use project.Wire.Format.{
  length-success, Tree, Forest, also, success_message, header, encode, encode_forest, IsName,
  IsTree, IsForest,
}
use project.Client.Files.{
  Info, Node, node, Entries, entry, sent_as_file, base_name, backslash, is_dots,
}
use project.Client.Files.Shows.{
  Shows, shows_file, shows_dir, Lists, lists_end, lists_dots, lists_child, base_name-append,
}
use project.Client.Send.{
  Host, Step, ◌>>◌, send_message, send_plain, enter_dir, leave_dir, send_listing, send_dir,
  send_entries,
}
use project.Client.Send.Puts.{Put, Puts, Puts-seq, Puts-ok, Puts-message, Puts-header, Puts-plain}

module _ (room fuel : ℕ) (chunked : 0 < room) (counted : box_size room < 2 ^ 32)
    (enough : box_size room < fuel) where
  Puts-enter :
      (path c : List ℕ) (info : Info)
      → info.enters ≡ true
      → info.lists ≡ true
      → Puts [] c path (enter_dir room fuel path info)
  unfolding enter_dir
  Puts-enter path c info enters lists = record {
    run = λ h l e.
        simp (enters, lists) (record { status = refl; sends = Sends-refl h.sock; cwd = refl });
  }

  Puts-leave :
      (path c : List ℕ) (info : Info)
      → info.leaves ≡ true
      → Puts [] path c (leave_dir room fuel c info)
  unfolding leave_dir
  Puts-leave path c info leaves = record {
    run = λ h l e. simp leaves (record { status = refl; sends = Sends-refl h.sock; cwd = refl });
  }

  Puts-listing :
      (path name c : List ℕ) (info : Info) (f : Forest) (loop : Step) (bytes : List ℕ)
      → IsName room name
      → base_name path ≡ some name
      → info.enters ≡ true
      → info.lists ≡ true
      → info.leaves ≡ true
      → bytes ++ int_bytes 0 ≡ encode_forest room f
      → Puts bytes path path loop
      → Puts
          (header room dir_tag 0 name ++ encode_forest room f)
          c
          c
          (send_listing room fuel path c info loop)
  unfolding send_listing
  Puts-listing path name c info f loop bytes v e enters lists leaves all puts =
      let last =
        Puts-message room fuel chunked counted enough 4 (int_bytes 0) path (length-le_bytes 4 0)
          (omega arith) in
      let steps =
        Puts-seq (Puts-header room fuel chunked counted enough dir_tag 0 name path c v e) (
          Puts-seq (Puts-enter path c info enters lists)
            (Puts-seq puts (Puts-seq last (Puts-leave path c info leaves)))) in
      rw (append-nil (int_bytes 0), all) at steps

  -- What the loop over a listing sends: all of the forest but the 0 at its end.
  children : Forest → List ℕ
  children Forest.end = []
  children (also t rest) = int_bytes 1 ++ (encode room t ++ children rest)

  children-end : (f : Forest) → children f ++ int_bytes 0 ≡ encode_forest room f
  unfolding children encode
  children-end Forest.end = refl
  children-end (also t rest) = simp (append_assoc, children-end rest)

  module _ (path : List ℕ) (es : Entries) where
    send_dir_file :
        (info : Info) (a : ℕ) (h : Host)
        → info.attributes ≡ some a
        → sent_as_file a ≡ true
        → send_dir room fuel path (node info es) h
          ≡ (send_message room fuel (box_size room) (success_message room)
                >> send_plain room fuel path info)
              h
    unfolding send_dir
    send_dir_file info a h attrs plain = rw (attrs, plain, send_dir)

    send_dir_listing :
        (info : Info) (a : ℕ) (h : Host)
        → info.attributes ≡ some a
        → sent_as_file a ≡ false
        → send_dir room fuel path (node info es) h
          ≡ (send_message room fuel (box_size room) (success_message room)
                >> send_listing room fuel path h.cwd info (send_entries room fuel path es))
              h
    unfolding send_dir
    send_dir_listing info a h attrs plain = rw (attrs, plain, send_dir)

    send_entries_dots :
        (name : List ℕ) (child : Node)
        → is_dots name ≡ true
        → send_entries room fuel path (entry name child es) ≡ send_entries room fuel path es
    unfolding send_dir
    send_entries_dots name child dots = rw (dots, send_entries)

    send_entries_child :
        (name : List ℕ) (child : Node)
        → is_dots name ≡ false
        → send_entries room fuel path (entry name child es) ≡ (
            send_message room fuel 4 (int_bytes 1)
            >> (send_dir room fuel (path ++ backslash ∷ name) child
                >> send_entries room fuel path es))
    unfolding send_dir
    send_entries_child name child dots = rw (dots, send_entries)

  Puts-success :
      (c : List ℕ)
      → Puts
          (success_message room)
          c
          c
          (send_message room fuel (box_size room) (success_message room))
  Puts-success c =
      Puts-message room fuel chunked counted enough (box_size room) (success_message room) c
        (length-success room) (omega arith)

  mutual
    unfolding send_dir encode children

    send_dir-Puts :
        {name : List ℕ} {n : Node} {t : Tree}
        → Shows name n t
        → IsTree room t
        → (path c : List ℕ) → base_name path ≡ some name
        → Puts (encode room t) c c (send_dir room fuel path n)
    send_dir-Puts (shows_file name content info es a attrs plain opens sized read) v path c e =
        record {
          run = λ h l same. rw (send_dir_file path es info a h attrs plain) (
              (Puts-seq (Puts-success c) (
                  Puts-plain room fuel chunked counted enough path name content c info v.0 e opens
                    sized read)).run
                h l same);
        }
    send_dir-Puts (shows_dir name info es a f attrs plain enters lists leaves ls) v path c e =
        record {
          run = λ h l same.
              let loop = send_entries-Puts ls v.1 path in
              let steps = Puts-seq (Puts-success h.cwd) (
                Puts-listing path name h.cwd info f (send_entries room fuel path es) (children f)
                  v.0 e enters lists leaves (children-end f) loop) in
              let put = steps.run h l refl in
              rw (send_dir_listing path es info a h attrs plain)
                (record { status = put.status; sends = put.sends; cwd = put.cwd ∙ same });
        }

    send_entries-Puts :
        {es : Entries} {f : Forest}
        → Lists es f
        → IsForest room f
        → (path : List ℕ) → Puts (children f) path path (send_entries room fuel path es)
    send_entries-Puts lists_end v path = Puts-ok path
    send_entries-Puts (lists_dots name child {rest = rest} dots ls) v path =
        rw (send_entries_dots path rest name child dots) (send_entries-Puts ls v path)
    send_entries-Puts (lists_child {name = name} {child = child} {rest = rest} dots plain shows ls)
          v path =
        rw (send_entries_child path rest name child dots) (
          Puts-seq
            (Puts-message room fuel chunked counted enough 4 (int_bytes 1) path
              (length-le_bytes 4 1) (omega arith))
            (Puts-seq
              (send_dir-Puts shows v.0 (path ++ backslash ∷ name) path
                (base_name-append path name plain))
              (send_entries-Puts ls v.1 path)))

-- A tree on which every Windows call succeeds and whose names and sizes fit a box, on a connection
-- on which no call fails, with more fuel than a box has bytes: `sendDir` returns 0, exactly the
-- encoding of the tree went out, and the current directory is again what it was.
pub send_dir-encode :
    (room fuel : ℕ) (path name : List ℕ) (n : Node) (t : Tree) (h : Host)
    → 0 < room
    → box_size room < 2 ^ 32
    → box_size room < fuel
    → Shows name n t
    → IsTree room t
    → base_name path ≡ some name
    → IsLive h.sock
    → Put (encode room t) h.cwd h (send_dir room fuel path n h)
send_dir-encode room fuel path name n t h chunked counted enough shows v e l =
    (send_dir-Puts room fuel chunked counted enough shows v path h.cwd e).run h l refl
