-- ===== src/Client/Registry/Hives.antt =====
-- The five files of `dump_registries` of InfoDumping/InfoDumping.cpp.
use project.Prelude.{
  ℕ, ◌≡◌, refl, sym, subst, append-nil, ◌∙◌, ap, Bool, true, false, List, [], ◌∷◌, ◌++◌,
  append_assoc, some, All, codes, Status, ok, err,
}
use project.Json.{
  Json, array, object, no_items, item, no_members, member, is_blank, IsPlain, Reads, trail,
  brackets, braces, last_item, blank_before, last_member, blank, blank_items,
}
use project.Client.Registry.{Key}
use project.Client.Registry.Prints.{Emits, between-Prints}
use project.Client.Registry.Enumerate.{enumerate_key}
use project.Client.Registry.Says.{Says}
use project.Client.Registry.Says.Agree.{Shows-Says}
use project.Client.Registry.Tree.{enumerate_key-Emits}
use project.Client.Registry.Dump.{Hive, hives, say_hive, dump_path, dump_hives, dump_registries}

-- The file opens, and the dump of the root is JSON, of the value `shown`.
pub record ShowsHive (hive : Hive) : Type 0 where
  pub file_opens : hive.opens ≡ true
  pub label_plain : All IsPlain hive.label
  pub shown : Json
  pub base : Bool
  pub shows : Says [] hive.root false shown base

-- A file for each hive, in their order, with an object that has the value under the label of the hive.
pub data Written (dir timestamp : List ℕ) : List Hive → List (List ℕ × List ℕ) → Type 0 where
  none_written : Written dir timestamp [] []
  written :
      {rest : List Hive} {files : List (List ℕ × List ℕ)} (hive : Hive) (t : List ℕ)
      (h : ShowsHive hive)
      → Reads (object (member hive.label (array (item h.shown no_items)) no_members)) t []
      → Written dir timestamp rest files
      → Written dir timestamp (hive ∷ rest) ((dump_path dir timestamp hive, t) ∷ files)

pub record Dumped (dir timestamp : List ℕ) (done : List Hive) (status : Status)
    (result : Status × List (List ℕ × List ℕ)) : Type 0 where
  pub files : List (List ℕ × List ℕ)
  pub complete : Written dir timestamp done files
  pub outcome : result ≡ (status, files)

hive-Emits :
    (hive : Hive) (h : ShowsHive hive)
    → Emits (say_hive hive) false h.base (λ input rest.
      Reads (object (member hive.label (array (item h.shown no_items)) no_members)) input rest)
unfolding say_hive is_blank
hive-Emits hive h =
    let d : Emits (enumerate_key [] hive.root) _ _ (Reads _) =
      enumerate_key-Emits [] hive.root (Shows-Says h.shows) in
    record {
      out =
          (codes "{\n" ++ (codes " \"" ++ (hive.label ++ codes "\": [\n")))
          ++ (d.out ++ (codes " ]\n" ++ codes "}\n"));
      prints =
          between-Prints (codes "{\n" ++ (codes " \"" ++ (hive.label ++ codes "\": [\n")))
            (codes " ]\n" ++ codes "}\n") d.prints;
      read = λ rest.
          let same : ((codes "{\n" ++ (codes " \"" ++ (hive.label ++ codes "\": [\n")))
                  ++ (d.out ++ (codes " ]\n" ++ codes "}\n")))
                ++ rest
              ≡ codes "{\n \""
                ++ (hive.label ++ (codes "\": [\n" ++ (d.out ++ (codes " ]\n}\n" ++ rest)))) =
            simp append_assoc in
          rw same (
            trail 10 refl (
              braces (
                blank_before 10 refl (
                  blank_before 32 refl (
                    last_member hive.label h.label_plain (
                      trail 10 refl (
                        blank 32 refl (
                          brackets (
                            blank_items 10 refl (
                              last_item
                                (trail 32 refl (d.read (codes " ]\n}\n" ++ rest)))))))))))));
    }

dump_hives_step :
    (dir timestamp : List ℕ) (hive : Hive) (rest : List Hive) (files : List (List ℕ × List ℕ))
    {t : List ℕ} {b : Bool}
    → hive.opens ≡ true
    → say_hive hive false ≡ some (t, b)
    → dump_hives dir timestamp (hive ∷ rest) files
      ≡ dump_hives dir timestamp rest (files ++ (dump_path dir timestamp hive, t) ∷ [])
unfolding dump_hives
dump_hives_step dir timestamp hive rest files e p = rw (e, p, dump_hives) refl

record Reaches (dir timestamp : List ℕ) (before after : List Hive) (files : List (List ℕ × List ℕ))
    : Type 0 where
  pub more : List (List ℕ × List ℕ)
  pub complete : Written dir timestamp before more
  pub same :
      dump_hives dir timestamp (before ++ after) files
      ≡ dump_hives dir timestamp after (files ++ more)

dump_hives-Reaches :
    (dir timestamp : List ℕ) (before after : List Hive) (files : List (List ℕ × List ℕ))
    → All ShowsHive before
    → Reaches dir timestamp before after files
dump_hives-Reaches dir timestamp [] after files all = record {
  more = [];
  complete = none_written;
  same = ap (dump_hives dir timestamp after) (sym (append-nil files));
}
dump_hives-Reaches dir timestamp (hive ∷ before) after files (h, all) =
    let d : Emits (say_hive hive) false h.base _ = hive-Emits hive h in
    let file : List ℕ × List ℕ = (dump_path dir timestamp hive, d.out) in
    let later : Reaches dir timestamp before after (files ++ file ∷ []) =
      dump_hives-Reaches dir timestamp before after (files ++ file ∷ []) all in
    record {
      more = file ∷ later.more;
      complete =
          written hive d.out h
            (subst
              (λ t.
                Reads (object (member hive.label (array (item h.shown no_items)) no_members)) t [])
              (append-nil d.out) (d.read []))
            later.complete;
      same =
          dump_hives_step dir timestamp hive (before ++ after) files h.file_opens d.prints.result
          ∙ later.same
          ∙ ap (dump_hives dir timestamp after) (append_assoc files (file ∷ []) later.more);
    }

pub dump_registries-Written :
    (dir timestamp : List ℕ) (root : List ℕ → Key) (opens : List ℕ → Bool)
    → All ShowsHive (hives root opens)
    → Dumped dir timestamp (hives root opens) ok (dump_registries dir timestamp root opens)
unfolding dump_registries dump_hives
dump_registries-Written dir timestamp root opens all =
    let r : Reaches dir timestamp (hives root opens) [] [] =
      dump_hives-Reaches dir timestamp (hives root opens) [] [] all in
    record { files = r.more; complete = r.complete; outcome = r.same }

-- The dumps of the hives before are JSON as above, and the file of the next one does not open: the
-- function returns 1, and the files that it has written are exactly those before, each complete;
-- what comes after is not dumped.
pub dump_hives-Stops :
    (dir timestamp : List ℕ) (before : List Hive) (hive : Hive) (after : List Hive)
    → All ShowsHive before
    → hive.opens ≡ false
    → Dumped dir timestamp before err (dump_hives dir timestamp (before ++ hive ∷ after) [])
unfolding dump_hives
dump_hives-Stops dir timestamp before hive after all e =
    let r : Reaches dir timestamp before (hive ∷ after) [] =
      dump_hives-Reaches dir timestamp before (hive ∷ after) [] all in
    record { files = r.more; complete = r.complete; outcome = r.same ∙ (rw (e, dump_hives) refl) }
