-- ===== src/Image/Metadata/Described.antt =====
-- The metadata that `store_metadata_` of kernel/executable/winpmem.cpp writes, read back.
use project.Prelude.{
  ℕ, ◌≡◌, sym, ◌∙◌, ap, Bool, false, Option, none, some, List, ◌++◌, append_assoc, Status, ok,
}
use project.Image.Metadata.{
  MemoryInfo, Architecture, alternate_hex, opening_text, cr3_label, nt_build_number_label,
  nt_build_number_addr_label, kern_base_label, arch_label, arch_name, closing_text, metadata_text,
  time_text, store_metadata,
}
use project.Image.Metadata.Reads.{
  strip, strip-label, field, field-label, read_arch, read_arch-label, read_metadata,
}
use project.Image.Text.{Printed, whole, refused, asprintf, asprintf-Printed}

module _ (time : List ℕ) (arch : Architecture) (info : MemoryInfo) where
  abbrev last : ℕ → ℕ → ℕ → ℕ → List ℕ → Option (MemoryInfo × Option Architecture)
  last a b c d rest = some (
    record { cr3 = a; nt_build_number = b; nt_build_number_addr = c; kern_base = d },
    read_arch rest,
  )

  abbrev at_base : ℕ → ℕ → ℕ → List ℕ → Option (MemoryInfo × Option Architecture)
  at_base a b c = field kern_base_label (last a b c)

  abbrev at_addr : ℕ → ℕ → List ℕ → Option (MemoryInfo × Option Architecture)
  at_addr a b = field nt_build_number_addr_label (at_base a b)

  abbrev at_build : ℕ → List ℕ → Option (MemoryInfo × Option Architecture)
  at_build a = field nt_build_number_label (at_addr a)

  -- Behind each of the numbers.
  abbrev after_addr : List ℕ
  after_addr =
      kern_base_label
      ++ (alternate_hex info.kern_base ++ (arch_label ++ (arch_name arch ++ closing_text)))

  abbrev after_build : List ℕ
  after_build =
      nt_build_number_addr_label ++ (alternate_hex info.nt_build_number_addr ++ after_addr)

  abbrev after_cr3 : List ℕ
  after_cr3 = nt_build_number_label ++ (alternate_hex info.nt_build_number ++ after_build)

  abbrev after_time : List ℕ
  after_time = cr3_label ++ (alternate_hex info.cr3 ++ after_cr3)

  read_metadata-metadata_text :
      read_metadata time (metadata_text time arch info) ≡ some (info, some arch)
  unfolding read_metadata metadata_text
  read_metadata-metadata_text =
      let found : strip (opening_text ++ time) (opening_text ++ (time ++ after_time))
          ≡ some after_time =
        ap (strip (opening_text ++ time)) (sym (append_assoc opening_text time after_time))
        ∙ strip-label (opening_text ++ time) after_time in
      rw (found, read_metadata)
        (field-label cr3_label at_build info.cr3 _
          ∙ field-label nt_build_number_label (at_addr info.cr3) info.nt_build_number _
          ∙ field-label nt_build_number_addr_label (at_base info.cr3 info.nt_build_number)
              info.nt_build_number_addr _
          ∙ field-label kern_base_label
              (last info.cr3 info.nt_build_number info.nt_build_number_addr) info.kern_base _
          ∙ ap (λ a. some (info, a)) (read_arch-label arch))

-- The null pointer, where an allocation failed, or a text that reads back as what it describes.
pub data Described (grows : ℕ → Bool) (time : List ℕ) (arch : Architecture) (info : MemoryInfo)
    : Status × Option (List ℕ) → Type 0 where
  described :
      (t : List ℕ)
      → read_metadata time t ≡ some (info, some arch)
      → Described grows time arch info (ok, some t)
  unwritten : (size : ℕ) → grows size ≡ false → Described grows time arch info (ok, none)

Printed-Described :
    (grows : ℕ → Bool) (time : List ℕ) (arch : Architecture) (info : MemoryInfo)
    (r : Status × Option (List ℕ))
    → Printed grows (metadata_text time arch info) r
    → Described grows time arch info r
Printed-Described grows time arch info r whole =
    described (metadata_text time arch info) (read_metadata-metadata_text time arch info)
Printed-Described grows time arch info r (refused size full) = unwritten size full

-- Whatever the time's text, if there is one, the numbers, the architecture and the allocations that fail:
-- `store_metadata_` ends, and gives the null pointer where the allocation of some size failed, and
-- otherwise a text whose lines `CR3`, `NtBuildNumber`, `NtBuildNumberAddr` and `KernBase` read back as
-- the four numbers of those names, and whose line `Arch` is `AMD64`, `I386` or `Unknown` for the three
-- kinds of architecture.
pub store_metadata-Described :
    (grows : ℕ → Bool) (time : Option (List ℕ)) (arch : Architecture) (info : MemoryInfo)
    → Described grows (time_text time) arch info (store_metadata grows time arch info)
unfolding store_metadata
store_metadata-Described grows time arch info =
    Printed-Described grows (time_text time) arch info
      (asprintf grows (metadata_text (time_text time) arch info))
      (asprintf-Printed grows (metadata_text (time_text time) arch info)).0
