-- ===== src/Image/Acquire/Dump.antt =====
-- What `dump_ram` of InfoDumping/InfoDumping.cpp returns and writes.
use project.Prelude.{
  ℕ, true, false, Option, none, some, List, [], ◌∷◌, ◌≡◌, refl, ap, ◌∙◌, ok, err, codes, bytes_eq,
}
use project.Image.Device.{Run, Device, WinPmem, new_win_pmem}
use project.Image.Driver.{System, Loader, set_driver_filename, install_driver}
use project.Image.Copy.{write_raw_image}
use project.Image.Copy.Range.{range, flat, IsOrdered, top_of}
use project.Image.Copy.Written.{IsReady}
use project.Image.Copy.Flat.{write_raw_image-flat}
use project.Image.Acquire.{
  mode_physical, create_output_file, set_acquisition_mode, new_loader, acquire, dump_ram,
}

abbrev opened : WinPmem → WinPmem
opened w = record w { out_fd = some [] }

create_output_file_opens :
    (name : List ℕ) (w : WinPmem)
    → bytes_eq name (codes "-") ≡ false
    → create_output_file name true w ≡ (ok, opened w)
unfolding create_output_file
create_output_file_opens name w plain = rw (plain, create_output_file)

set_acquisition_mode_accepted :
    (w : WinPmem)
    → w.device.set_mode mode_physical ≡ true
    → set_acquisition_mode mode_physical w ≡ (ok, record w { mode = mode_physical })
unfolding set_acquisition_mode
set_acquisition_mode_accepted w accepted = rw (accepted, set_acquisition_mode)

module _ (sys : System) (name : List ℕ) (l : Loader) (w : WinPmem) where
  acquire_image :
      bytes_eq name (codes "-") ≡ false
      → (install_driver sys l).0 ≡ ok
      → w.device.set_mode mode_physical ≡ true
      → acquire sys name true l w ≡ (
        (write_raw_image (record (opened w) { mode = mode_physical })).0,
        (install_driver sys l).1,
        (write_raw_image (record (opened w) { mode = mode_physical })).1,
      )
  unfolding acquire
  acquire_image plain loaded accepted =
      let e = create_output_file_opens name w plain in
      let m = set_acquisition_mode_accepted (opened w) accepted in
      rw (loaded, acquire)
        (rw (e, m)
          (ap (λ v. ((write_raw_image v).0, (install_driver sys l).1, (write_raw_image v).1))
            (ap (λ r. (set_acquisition_mode mode_physical r.1).1) e ∙ ap (λ r. r.1) m)))

  acquire_unloaded :
      bytes_eq name (codes "-") ≡ false
      → (install_driver sys l).0 ≡ err
      → acquire sys name true l w ≡ (ok, (install_driver sys l).1, opened w)
  unfolding acquire
  acquire_unloaded plain failed =
      let e = create_output_file_opens name w plain in rw (failed, acquire) (rw e)

module _ (sys : System) (device : Device) (written : ℕ → ℕ → Option ℕ) (name : List ℕ)
    (drivers : List (List ℕ)) where
  -- The output file opens and its name is not "-", the driver loads and accepts the mode, it lists
  -- runs in order and without overlap, every read gives the memory's bytes and every write goes
  -- through: `dump_ram` returns 1, it leaves no image open, and the one file that it closes is the
  -- flat image of physical memory up to the end of the last run.
  pub dump_ram-flat :
      (memory : ℕ → ℕ) (runs : List Run)
      → bytes_eq name (codes "-") ≡ false
      → (install_driver sys (new_loader drivers)).0 ≡ ok
      → device.set_mode mode_physical ≡ true
      → device.get_info ≡ some runs
      → IsOrdered 0 runs
      → IsReady memory (new_win_pmem device written)
      → ((dump_ram sys device written name true drivers).0 ≡ ok)
        × ((dump_ram sys device written name true drivers).2.out_fd ≡ none)
        × ((dump_ram sys device written name true drivers).2.closed
            ≡ range (flat memory runs) 0 (top_of 0 runs) ∷ [])
  unfolding dump_ram set_driver_filename
  dump_ram-flat memory runs plain loaded accepted info ordered ready =
      let w : WinPmem = record (new_win_pmem device written) {
        out_fd = some [];
        mode = mode_physical;
      } in
      let image =
        write_raw_image-flat memory runs w info refl ordered refl
          (record { seeks = ready.seeks; reads = ready.reads; takes = ready.takes }) in
      rw
        (
          acquire_image sys name (new_loader drivers) (new_win_pmem device written) plain loaded
              accepted,
          dump_ram,
        )
        image

  -- The output file opens, its name is not "-", and the driver does not load: `dump_ram` returns 1
  -- all the same, and has closed no image.
  pub dump_ram_unloaded :
      bytes_eq name (codes "-") ≡ false
      → (install_driver sys (new_loader drivers)).0 ≡ err
      → ((dump_ram sys device written name true drivers).0 ≡ ok)
        × ((dump_ram sys device written name true drivers).2.closed ≡ [])
  unfolding dump_ram set_driver_filename
  dump_ram_unloaded plain failed =
      rw
        (
          acquire_unloaded sys name (new_loader drivers) (new_win_pmem device written) plain failed,
          dump_ram,
        )
        (refl, refl)
