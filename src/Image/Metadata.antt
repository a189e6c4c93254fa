-- ===== src/Image/Metadata.antt =====
-- `store_metadata_`, `print_mode_`, `set_write_enabled`, `Log`, `LogError` and `LogLastError` of
-- kernel/executable/winpmem.cpp. The numbers are the `LARGE_INTEGER`s that are not negative.
pub mod Reads
pub mod Described
use project.Prelude.{
  ℕ, Bool, true, false, Option, none, some, List, [], ◌∷◌, ◌++◌, length, ltb, ◌==◌, if◌then◌else◌,
  codes, Status, ok, err, fault,
}
use project.Client.Registry.{numeral}
use project.Image.Acquire.{mode_iospace, mode_physical, mode_pte}
use project.Image.Text.{asprintf}

-- The fields of `WINPMEM_MEMORY_INFO` that the text names.
pub record MemoryInfo : Type 0 where
  pub cr3 : ℕ
  pub nt_build_number : ℕ
  pub nt_build_number_addr : ℕ
  pub kern_base : ℕ

-- `wProcessorArchitecture`
pub data Architecture : Type 0 where
  amd64 intel other_arch : Architecture

unfoldable pub arch_name : Architecture → List ℕ
arch_name amd64 = codes "AMD64"
arch_name intel = codes "I386"
arch_name other_arch = codes "Unknown"

-- `%#llx`: no prefix in front of 0
unfoldable pub alternate_hex : ℕ → List ℕ
unfolding numeral
alternate_hex n = if n == 0 then codes "0" else codes "0x" ++ numeral true n

-- The text's lines, up to the time, behind it and between the numbers.
abbrev pub opening_text : List ℕ
opening_text =
    codes "# PMEM\n---\nacquisition_tool: 'WinPMEM, driver version: 2.0.1'\nacquisition_timestamp: "

abbrev pub cr3_label : List ℕ
cr3_label = codes "\nCR3: "

abbrev pub nt_build_number_label : List ℕ
nt_build_number_label = codes "\nNtBuildNumber: "

abbrev pub nt_build_number_addr_label : List ℕ
nt_build_number_addr_label = codes "\nNtBuildNumberAddr: "

abbrev pub kern_base_label : List ℕ
kern_base_label = codes "\nKernBase: "

abbrev pub arch_label : List ℕ
arch_label = codes "\nArch: "

abbrev pub closing_text : List ℕ
closing_text = codes "\n...\n"

-- The text that the format makes.
unfoldable pub metadata_text : List ℕ → Architecture → MemoryInfo → List ℕ
unfolding alternate_hex arch_name
metadata_text time arch info =
    opening_text
    ++ (time
        ++ (cr3_label
            ++ (alternate_hex info.cr3
                ++ (nt_build_number_label
                    ++ (alternate_hex info.nt_build_number
                        ++ (nt_build_number_addr_label
                            ++ (alternate_hex info.nt_build_number_addr
                                ++ (kern_base_label
                                    ++ (alternate_hex info.kern_base
                                        ++ (arch_label ++ (arch_name arch ++ closing_text)))))))))))

-- `asctime_s` fails with `none`: the time is then empty.
abbrev pub time_text : Option (List ℕ) → List ℕ
time_text none = []
time_text (some t) = t

unfoldable pub store_metadata :
    (ℕ → Bool) → Option (List ℕ) → Architecture → MemoryInfo → Status × Option (List ℕ)
unfolding asprintf metadata_text
store_metadata grows time arch info = asprintf grows (metadata_text (time_text time) arch info)

-- What the class has said, and the members that decide it.
pub record Console : Type 0 where
  pub printed : List ℕ
  pub last_error : List ℕ
  pub suppress_output : Bool

unfoldable pub log : List ℕ → Console → Console
log text c = if c.suppress_output then c else record c { printed = c.printed ++ text }

-- A text that does not fit `last_error` with its end ends the program.
unfoldable pub log_error : List ℕ → Console → Status × Console
unfolding log
log_error text c =
    if ltb (length text) 1024 then (ok, log text (record c { last_error = text })) else (fault, c)

-- `FormatMessage` gives the system's text for the last error; where it fails, what follows the message
-- is whatever the uninitialised pointer leads to.
unfoldable pub log_last_error : Option (List ℕ) → List ℕ → Console → Status × Console
unfolding log
log_last_error none message c = (fault, log message c)
log_last_error (some text) message c = (ok, log (codes ": " ++ text ++ codes "\n") (log message c))

unfoldable pub print_mode : ℕ → Console → Console
unfolding log
print_mode mode c =
    if mode == mode_iospace
    then log (codes "MMMapIoSpace") c
    else if mode == mode_physical
    then log (codes "\\\\.\\PhysicalMemory") c
    else if mode == mode_pte
    then log (codes "PTE Remapping") c
    else log (codes "Unknown") c

-- What `DeviceIoControl` answers decides.
unfoldable pub set_write_enabled : Bool → Console → Status × Console
unfolding log log_error
set_write_enabled enabled c =
    if enabled
    then (ok, log (codes "Write mode enabled! Hope you know what you are doing.\n") c)
    else (let said =
          log_error
            (codes "Failed to set write mode. Maybe these drivers do not support this mode?\n") c in
        elim said.0 [ ok ↦ (err, said.1) | other ↦ (other, said.1) ])
