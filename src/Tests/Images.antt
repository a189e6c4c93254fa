-- ===== src/Tests/Images.antt =====
-- The theorems on the memory image at concrete inputs: two runs with a gap of two bytes.
use project.Image.Metadata.{MemoryInfo, amd64, store_metadata}
use project.Image.Metadata.Described.{Described, store_metadata-Described}
use project.Prelude.{
  leb, ℕ, ◌%◌, ◌≡◌, refl, false, true, Option, none, some, List, [], ◌∷◌, ok, arith, codes,
  bytes_eq,
}
use project.Image.Device.{Run, Device, WinPmem, new_win_pmem}
use project.Image.Copy.{write_raw_image}
use project.Image.Copy.Range.{range, flat}
use project.Image.Copy.Flat.{write_raw_image-flat}
use project.Image.Copy.Ends.{Returns, write_raw_image-Returns}
use project.Image.Copy.Unread.{gaps, write_raw_image_unread}
use project.Image.Driver.{System, created, started, not_started, install_driver}
use project.Image.Driver.Cleanup.{Left, install_driver-Left}
use project.Image.Acquire.{new_loader, dump_ram}
use project.Image.Acquire.Dump.{dump_ram-flat, dump_ram_unloaded}

abbrev pub memory : ℕ → ℕ
memory a = a % 256

abbrev pub runs : List Run
runs =
    record { base_address = 1; number_of_bytes = 2 }
    ∷ record { base_address = 5; number_of_bytes = 3 }
    ∷ []

abbrev pub device : Device
device = record {
  get_info = some runs;
  set_mode = λ m. true;
  seek = λ a. true;
  read = λ a n. some (range memory a n);
}

abbrev dead : Device
dead = record device { seek = λ a. false }

abbrev pub taken : ℕ → ℕ → Option ℕ
taken k n = some n

abbrev open_image : Device → WinPmem
open_image d = record (new_win_pmem d taken) { out_fd = some [] }

abbrev pub system : System
system = record {
  is_64 = true;
  temp_path = true;
  temp_made = true;
  temp_name = codes "tmp";
  full_path = λ p. p;
  resource = true;
  creates_driver = true;
  writes_driver = true;
  manager_to_remove = true;
  manager = true;
  service = true;
  create_service = created;
  start_service = started;
  opens_device = true;
  deletes = true;
}

abbrev stopped : System
stopped = record system { start_service = not_started }

abbrev image_name : List ℕ
image_name = codes "ram"

write_raw_image-flat_example :
    ((write_raw_image (open_image device)).0 ≡ ok)
    × ((write_raw_image (open_image device)).1.out_fd ≡ none)
    × ((write_raw_image (open_image device)).1.closed ≡ range (flat memory runs) 0 8 ∷ [])
write_raw_image-flat_example =
    write_raw_image-flat memory runs (open_image device) refl refl (omega arith, (omega arith, tt))
      refl (record { seeks = λ a. refl; reads = λ a n. refl; takes = λ k n. refl })

write_raw_image_unread_example :
    ((write_raw_image (open_image dead)).0 ≡ ok)
    × ((write_raw_image (open_image dead)).1.closed ≡ gaps 0 runs ∷ [])
write_raw_image_unread_example =
    write_raw_image_unread runs (open_image dead) refl refl (λ a. refl) (λ k n. refl)

write_raw_image-Returns_example :
    Returns (write_raw_image (open_image dead)).0
    × ((write_raw_image (open_image dead)).1.out_fd ≡ none)
write_raw_image-Returns_example = write_raw_image-Returns (open_image dead)

-- The driver does not start, and its file is in use.
abbrev stuck : System
stuck = record stopped { deletes = false }

install_driver-Left_example :
    Left stuck (codes "old" ∷ []) (install_driver stuck (new_loader (codes "old" ∷ []))).1.drivers
unfolding bytes_eq
install_driver-Left_example =
    install_driver-Left stuck (new_loader (codes "old" ∷ [])) refl refl refl (refl, tt)

dump_ram-flat_example :
    ((dump_ram system device taken image_name true []).0 ≡ ok)
    × ((dump_ram system device taken image_name true []).2.out_fd ≡ none)
    × ((dump_ram system device taken image_name true []).2.closed
        ≡ range (flat memory runs) 0 8 ∷ [])
unfolding bytes_eq install_driver
dump_ram-flat_example =
    dump_ram-flat system device taken image_name [] memory runs refl refl refl refl
      (omega arith, (omega arith, tt))
      (record { seeks = λ a. refl; reads = λ a n. refl; takes = λ k n. refl })

dump_ram_unloaded_example :
    ((dump_ram stopped device taken image_name true []).0 ≡ ok)
    × ((dump_ram stopped device taken image_name true []).2.closed ≡ [])
unfolding bytes_eq install_driver
dump_ram_unloaded_example = dump_ram_unloaded stopped device taken image_name [] refl refl

abbrev info : MemoryInfo
info = record {
  cr3 = 1757184;
  nt_build_number = 0;
  nt_build_number_addr = 18446735287480946688;
  kern_base = 18446735287478251520;
}

abbrev time : Option (List ℕ)
time = some (codes "Mon Jan  1 00:00:00 2018\n")

-- The text fits the first 1000 characters, and no larger size can be had.
store_metadata-Described_example :
    Described
      (λ size. leb size 1000)
      (codes "Mon Jan  1 00:00:00 2018\n")
      amd64
      info
      (store_metadata (λ size. leb size 1000) time amd64 info)
store_metadata-Described_example = store_metadata-Described (λ size. leb size 1000) time amd64 info
