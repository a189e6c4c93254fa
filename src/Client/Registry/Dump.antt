-- ===== src/Client/Registry/Dump.antt =====
-- `dump_registries` of InfoDumping/InfoDumping.cpp.
use project.Prelude.{
  ℕ, Bool, false, none, some, List, [], ◌∷◌, ◌++◌, codes, if◌then◌else◌, Status, ok, err, fault,
}
use project.Client.Registry.{Printer, say, ◌>>◌, Key}
use project.Client.Registry.Enumerate.{enumerate_key}

-- One of the five parts: the name of the file, the name of the root, the key, and whether the file
-- opens.
pub record Hive : Type 0 where
  pub file_part : List ℕ
  pub label : List ℕ
  pub root : Key
  pub opens : Bool

-- The roots in the order of the source.
abbrev pub hives : (List ℕ → Key) → (List ℕ → Bool) → List Hive
hives root opens =
    record {
      file_part = codes "\\HCR_registry_dump";
      label = codes "HKEY_CLASSES_ROOT";
      root = root (codes "HKEY_CLASSES_ROOT");
      opens = opens (codes "\\HCR_registry_dump");
    }
    ∷ record {
      file_part = codes "\\HCU_registry_dump";
      label = codes "HKEY_CURRENT_USER";
      root = root (codes "HKEY_CURRENT_USER");
      opens = opens (codes "\\HCU_registry_dump");
    }
    ∷ record {
      file_part = codes "\\HLM_registry_dump";
      label = codes "HKEY_LOCAL_MACHINE";
      root = root (codes "HKEY_LOCAL_MACHINE");
      opens = opens (codes "\\HLM_registry_dump");
    }
    ∷ record {
      file_part = codes "\\HU_registry_dump";
      label = codes "HKEY_USERS";
      root = root (codes "HKEY_USERS");
      opens = opens (codes "\\HU_registry_dump");
    }
    ∷ record {
      file_part = codes "\\HCC_registry_dump";
      label = codes "HKEY_CURRENT_CONFIG";
      root = root (codes "HKEY_CURRENT_CONFIG");
      opens = opens (codes "\\HCC_registry_dump");
    }
    ∷ []

unfoldable pub say_hive : Hive → Printer
unfolding ◌>>◌ enumerate_key
say_hive hive = do
  say (codes "{\n" ++ (codes " \"" ++ (hive.label ++ codes "\": [\n")))
  enumerate_key [] hive.root
  say (codes " ]\n" ++ codes "}\n")

abbrev pub dump_path : List ℕ → List ℕ → Hive → List ℕ
dump_path dir timestamp hive = dir ++ (hive.file_part ++ (timestamp ++ codes ".json"))

-- A new stream for each file, in base 10; the files that were written, in order.
unfoldable pub dump_hives :
    List ℕ → List ℕ → List Hive → List (List ℕ × List ℕ) → Status × List (List ℕ × List ℕ)
unfolding say_hive
dump_hives dir timestamp [] files = (ok, files)
dump_hives dir timestamp (hive ∷ rest) files =
    if hive.opens
    then (elim (say_hive hive false) [
      | none ↦ (fault, files)
      | some (t, hex) ↦
          dump_hives dir timestamp rest (files ++ (dump_path dir timestamp hive, t) ∷ [])
    ])
    else (err, files)

unfoldable pub dump_registries :
    List ℕ → List ℕ → (List ℕ → Key) → (List ℕ → Bool) → Status × List (List ℕ × List ℕ)
unfolding dump_hives
dump_registries dir timestamp root opens = dump_hives dir timestamp (hives root opens) []
