-- ===== src/Client/Files/Shows.antt =====
-- Which directory tree a readable part of the file system shows. No code: what `sendDir` is to send.
use project.Prelude.{
  ℕ, ◌≡◌, ◌≢◌, refl, true, false, some, none, List, [], ◌∷◌, ◌++◌, All, length, arith,
}
use project.Wire.Format.{Tree, Forest, file, dir, also}
use project.Client.Files.{
  Info, Node, node, Entries, end, entry, sent_as_file, base_name, backslash, is_dots,
}

-- No attribute hides the kind of the path, and every call on it succeeds.
mutual
  pub data Shows : List ℕ → Node → Tree → Type 0 where
    shows_file :
        (name content : List ℕ) (info : Info) (es : Entries) (a : ℕ)
        → info.attributes ≡ some a
        → sent_as_file a ≡ true
        → info.opens ≡ true
        → info.file_size ≡ some (length content)
        → info.content ≡ some content
        → Shows name (node info es) (file name content)
    shows_dir :
        (name : List ℕ) (info : Info) (es : Entries) (a : ℕ) (f : Forest)
        → info.attributes ≡ some a
        → sent_as_file a ≡ false
        → info.enters ≡ true
        → info.lists ≡ true
        → info.leaves ≡ true
        → Lists es f
        → Shows name (node info es) (dir name f)

  -- The entries other than "." and "..", in the order in which they are listed.
  pub data Lists : Entries → Forest → Type 0 where
    lists_end : Lists end Forest.end
    lists_dots :
        (name : List ℕ) (child : Node) {rest : Entries} {f : Forest}
        → is_dots name ≡ true
        → Lists rest f
        → Lists (entry name child rest) f
    lists_child :
        {name : List ℕ} {child : Node} {t : Tree} {rest : Entries} {f : Forest}
        → is_dots name ≡ false
        → All (λ c. c ≢ backslash) name
        → Shows name child t
        → Lists rest f
        → Lists (entry name child rest) (also t f)

base_name_plain : (name : List ℕ) → All (λ c. c ≢ backslash) name → base_name name ≡ none
unfolding base_name
base_name_plain [] h = refl
base_name_plain (c ∷ cs) (p, h) = rw (base_name_plain cs h) (ground arith)

-- The name behind the last backslash of a path.
pub base_name-append :
    (path name : List ℕ)
    → All (λ c. c ≢ backslash) name
    → base_name (path ++ backslash ∷ name) ≡ some name
unfolding base_name
base_name-append [] name h = rw (base_name_plain name h)
base_name-append (c ∷ cs) name h = rw (base_name-append cs name h)
