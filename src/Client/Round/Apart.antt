-- ===== src/Client/Round/Apart.antt =====
-- The files of one round of dumps (`dump_ram`, `dump_process_info`, `dum_net` and `dump_registries` of
-- InfoDumping/InfoDumping.cpp) are different files, so that no dump overwrites another.
use project.Prelude.{
  ℕ, ◌≡◌, refl, ◌∙◌, true, false, Bool, some, List, [], ◌∷◌, ◌++◌, All, bytes_eq, bytes_eq_refl,
  ◌==◌, arith,
}
use project.Client.Registry.{Key}
use project.Client.Registry.Dump.{Hive, hives, dump_path}
use project.Client.Registry.Hives.{Written, none_written, written}
use project.Client.Dumps.{Machine, put, process_text, adapter_text, netstat_text, netstat_json}
use project.Client.Round.{image_path, put_files}

-- Two paths differ, as `strcmp` sees them.
abbrev pub Apart : List ℕ → List ℕ → Type 0
Apart p q = bytes_eq p q ≡ false

-- Two names in the same directory.
bytes_eq_prefix : (dir x y : List ℕ) → bytes_eq (dir ++ x) (dir ++ y) ≡ bytes_eq x y
unfolding bytes_eq
bytes_eq_prefix [] x y = refl
bytes_eq_prefix (c ∷ dir) x y =
    let same : (c == c) ≡ true = ground arith in rw (same, bytes_eq_prefix dir x y) refl

module _ (dir timestamp : List ℕ) where
  pub image-Apart_processes : Apart (image_path dir timestamp) (process_text dir timestamp)
  unfolding bytes_eq
  image-Apart_processes = bytes_eq_prefix dir _ _ ∙ refl

  pub image-Apart_adapters : Apart (image_path dir timestamp) (adapter_text dir timestamp)
  unfolding bytes_eq
  image-Apart_adapters = bytes_eq_prefix dir _ _ ∙ refl

  pub image-Apart_connections : Apart (image_path dir timestamp) (netstat_text dir timestamp)
  unfolding bytes_eq
  image-Apart_connections = bytes_eq_prefix dir _ _ ∙ refl

  pub image-Apart_json : Apart (image_path dir timestamp) (netstat_json dir timestamp)
  unfolding bytes_eq
  image-Apart_json = bytes_eq_prefix dir _ _ ∙ refl

  -- The five files of the registry, from a path that is none of them.
  abbrev pub NoHive : List ℕ → List Hive → Type 0
  NoHive p hs = All (λ h. Apart p (dump_path dir timestamp h)) hs

  pub image-NoHive :
      (root : List ℕ → Key) (opens : List ℕ → Bool)
      → NoHive (image_path dir timestamp) (hives root opens)
  unfolding bytes_eq
  image-NoHive root opens = (
    bytes_eq_prefix dir _ _,
    (
      bytes_eq_prefix dir _ _,
      (bytes_eq_prefix dir _ _, (bytes_eq_prefix dir _ _, (bytes_eq_prefix dir _ _, tt))),
    ),
  )

  pub json-NoHive :
      (root : List ℕ → Key) (opens : List ℕ → Bool)
      → NoHive (netstat_json dir timestamp) (hives root opens)
  unfolding bytes_eq
  json-NoHive root opens = (
    bytes_eq_prefix dir _ _,
    (
      bytes_eq_prefix dir _ _,
      (bytes_eq_prefix dir _ _, (bytes_eq_prefix dir _ _, (bytes_eq_prefix dir _ _, tt))),
    ),
  )

  -- No two of the hives share a file.
  pub HivesApart : List Hive → Type 0
  HivesApart [] = Unit
  HivesApart (h ∷ hs) = NoHive (dump_path dir timestamp h) hs × HivesApart hs

  pub hives-HivesApart :
      (root : List ℕ → Key) (opens : List ℕ → Bool) → HivesApart (hives root opens)
  unfolding bytes_eq HivesApart
  hives-HivesApart root opens =
      let p = bytes_eq_prefix dir in
      (
        (p _ _, (p _ _, (p _ _, (p _ _, tt)))),
        ((p _ _, (p _ _, (p _ _, tt))), ((p _ _, (p _ _, tt)), ((p _ _, tt), (tt, tt)))),
      )

  pub put_files_other :
      {hs : List Hive} {files : List (List ℕ × List ℕ)}
      → Written dir timestamp hs files
      → (p : List ℕ) (m : Machine) → NoHive p hs
      → (put_files files m).disk p ≡ m.disk p
  unfolding put_files
  put_files_other none_written p m apart = refl
  put_files_other (written {files = files} hive t h reads w) p m (apart, rest) =
      put_files_other w p (put (dump_path dir timestamp hive) t m) rest ∙ rw apart refl

  -- Every file has its text behind all of them.
  pub put_files-All :
      {hs : List Hive} {files : List (List ℕ × List ℕ)}
      → Written dir timestamp hs files
      → (m : Machine) → HivesApart hs
      → All (λ f. (put_files files m).disk f.0 ≡ some f.1) files
  unfolding put_files HivesApart
  put_files-All none_written m apart = tt
  put_files-All (written {files = files} hive t h reads w) m (apart, rest) =
      let path : List ℕ = dump_path dir timestamp hive in
      (
        put_files_other w path (put path t m) apart ∙ rw (bytes_eq_refl path) refl,
        put_files-All w (put path t m) rest,
      )
