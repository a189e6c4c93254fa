-- ===== src/Client/Round/Complete.antt =====
-- What one round of the four dumps leaves, when everything it asks of the machine succeeds.
use project.Prelude.{
  ℕ, ◌≡◌, ◌≢◌, refl, ◌∙◌, ap, Bool, true, false, none, some, List, [], ◌∷◌, ◌++◌, append_assoc, All,
  codes, bytes_eq, length, Status, ok, arith, subst, sym, bytes_eq_refl,
}
use project.Json.{array, Reads}
use project.Image.Device.{Run, WinPmem, new_win_pmem}
use project.Image.Driver.{Loader, install_driver}
use project.Image.Copy.Range.{range, flat, IsOrdered, top_of}
use project.Image.Copy.Written.{IsReady}
use project.Image.Acquire.{mode_physical, new_loader, dump_ram}
use project.Image.Acquire.Dump.{dump_ram-flat}
use project.Client.Netstat.Table.{Connection, Table, all_read, print_lines}
use project.Client.Netstat.Denotes.{IsPlainRow, row_values}
use project.Client.Registry.Dump.{hives, dump_registries}
use project.Client.Registry.Hives.{ShowsHive, Written, dump_registries-Written}
use project.Client.Dumps.{
  Disk, Machine, Shell, put, system, process_text, process_command, adapter_text, adapter_command,
  netstat_text, netstat_command, netstat_json, dump_process_info, dum_net,
}
use project.Client.Dumps.Network.{NetDumped, dum_net-NetDumped}
use project.Client.Round.{
  Windows, Station, image_path, stored_image, dump_image, put_files, dump_keys, dump_all,
}
use project.Client.Round.Apart.{
  Apart, image-Apart_processes, image-Apart_adapters, image-Apart_connections, image-Apart_json,
  image-NoHive, json-NoHive, hives-HivesApart, put_files_other, put_files-All,
}

-- The driver loads, and the device gives the memory's bytes and the runs, in order and without overlap;
-- the image's file opens and takes every byte.
pub record GivesImage (w : Windows) (path : List ℕ) (drivers : List (List ℕ)) (memory : ℕ → ℕ)
    (runs : List Run) : Type 0 where
  pub opens : w.shell.writable path ≡ true
  pub loads : (install_driver w.system (new_loader drivers)).0 ≡ ok
  pub accepts : w.device.set_mode mode_physical ≡ true
  pub informs : w.device.get_info ≡ some runs
  pub ordered : IsOrdered 0 runs
  pub ready : IsReady memory (new_win_pmem w.device w.written)

-- Each of the three commands changes its own file only, and the last one prints the table of the
-- connections behind four lines of a header; the file for the JSON opens.
pub record Prints (sh : Shell) (dir timestamp : List ℕ) (cs : List Connection) : Type 0 where
  pub processes :
      (d : Disk) (p : List ℕ)
      → Apart p (process_text dir timestamp)
      → sh.run (process_command dir timestamp) d p ≡ d p
  pub adapters :
      (d : Disk) (p : List ℕ)
      → Apart p (adapter_text dir timestamp)
      → sh.run (adapter_command dir timestamp) d p ≡ d p
  pub connections :
      (d : Disk) (p : List ℕ)
      → Apart p (netstat_text dir timestamp)
      → sh.run (netstat_command dir timestamp) d p ≡ d p
  pub heads : List (List ℕ)
  pub four : length heads ≡ 4
  pub inside : All (All (λ c. c ≢ 10)) heads
  pub lines : List (List ℕ)
  pub rows : Table cs lines
  pub plain : All IsPlainRow (all_read cs)
  pub opens : sh.writable (netstat_json dir timestamp) ≡ true
  pub prints :
      (d : Disk)
      → sh.run (netstat_command dir timestamp) d (netstat_text dir timestamp)
        ≡ some (print_lines (heads ++ lines))

-- Whether the file of a hive opens.
abbrev pub hive_opens : Windows → List ℕ → List ℕ → List ℕ → Bool
hive_opens w dir timestamp part = w.shell.writable (dir ++ (part ++ (timestamp ++ codes ".json")))

-- The commands that ran, the image, the table of the connections as JSON, and the five files of the
-- registry as JSON, all of them there at the end.
pub record Complete (w : Windows) (dir timestamp : List ℕ) (memory : ℕ → ℕ) (runs : List Run)
    (cs : List Connection) (st : Station) (result : Status × Station) : Type 0 where
  pub status : result.0 ≡ ok
  pub commands :
      result.1.machine.ran
      ≡ st.machine.ran
        ++ (process_command dir timestamp
            ∷ adapter_command dir timestamp
            ∷ netstat_command dir timestamp
            ∷ [])
  pub image :
      result.1.machine.disk (image_path dir timestamp)
      ≡ some (range (flat memory runs) 0 (top_of 0 runs))
  pub table : List ℕ
  pub table_stored : result.1.machine.disk (netstat_json dir timestamp) ≡ some table
  pub table_json : Reads (array (row_values (all_read cs))) table []
  pub files : List (List ℕ × List ℕ)
  pub files_stored : All (λ f. result.1.machine.disk f.0 ≡ some f.1) files
  pub files_json : Written dir timestamp (hives w.root (hive_opens w dir timestamp)) files

-- The name of the image is not "-".
image_path_named :
    (dir timestamp : List ℕ) → bytes_eq (image_path dir timestamp) (codes "-") ≡ false
unfolding bytes_eq
image_path_named [] timestamp = refl
image_path_named (c ∷ []) timestamp = ground arith
image_path_named (c ∷ d ∷ dir) timestamp = ground arith

stored_image_closed :
    (p : WinPmem) (t : List ℕ) → p.out_fd ≡ none → p.closed ≡ t ∷ [] → stored_image p ≡ some t
unfolding stored_image
stored_image_closed p t shut closed = rw (shut, stored_image) (rw closed refl)

put_files-ran : (files : List (List ℕ × List ℕ)) (m : Machine) → (put_files files m).ran ≡ m.ran
unfolding put_files
put_files-ran [] m = refl
put_files-ran ((p, t) ∷ files) m = put_files-ran files (put p t m)

module _ (w : Windows) (dir timestamp : List ℕ) (memory : ℕ → ℕ) (runs : List Run)
    (cs : List Connection) where
  dump_image-GivesImage :
      (st : Station)
      → GivesImage w (image_path dir timestamp) st.drivers memory runs
      → (drivers : List (List ℕ)) × (dump_image w dir timestamp st ≡ record st {
        drivers = drivers;
        machine =
            put (image_path dir timestamp) (range (flat memory runs) 0 (top_of 0 runs)) st.machine;
      })
  unfolding dump_image
  dump_image-GivesImage st g =
      let path : List ℕ = image_path dir timestamp in
      let pixels : List ℕ = range (flat memory runs) 0 (top_of 0 runs) in
      let open_or_not : Bool → Status × Loader × WinPmem =
        λ b. dump_ram w.system w.device w.written path b st.drivers in
      let (ends, shut, closed) =
        dump_ram-flat w.system w.device w.written path st.drivers memory runs
          (image_path_named dir timestamp) g.loads g.accepts g.informs g.ordered g.ready in
      let kept : stored_image (open_or_not (w.shell.writable path)).2
          ≡ some (range (flat memory runs) 0 (top_of 0 runs)) =
        subst (λ b. stored_image (open_or_not b).2 ≡ some pixels) (sym g.opens)
          (stored_image_closed (open_or_not true).2 pixels shut closed) in
      ((open_or_not (w.shell.writable path)).1.drivers, rw (kept, dump_image) refl)

  dump_keys_files :
      (st : Station) (files : List (List ℕ × List ℕ))
      → dump_registries dir timestamp w.root (hive_opens w dir timestamp) ≡ (ok, files)
      → dump_keys w dir timestamp st ≡ (ok, record st { machine = put_files files st.machine })
  unfolding dump_keys
  dump_keys_files st files e = rw e refl

  -- What the commands leave of the image.
  commands_keep :
      (m : Machine) (p : List ℕ)
      → Prints w.shell dir timestamp cs
      → Apart p (process_text dir timestamp)
      → Apart p (adapter_text dir timestamp)
      → Apart p (netstat_text dir timestamp)
      → w.shell.run
          (netstat_command dir timestamp)
          (w.shell.run
            (adapter_command dir timestamp)
            (dump_process_info w.shell dir timestamp m).disk)
          p
        ≡ m.disk p
  unfolding dump_process_info system
  commands_keep m p prints a b c =
      prints.connections _ p c ∙ prints.adapters _ p b ∙ prints.processes m.disk p a

  -- The image is there, the driver loads and gives it; the commands change their own files only, and
  -- the table that `netstat` prints has a line for each connection, with a state or without one; all files open, and the dump of
  -- each root is JSON. Then the four dumps survive, the three commands ran in order, and behind all
  -- of them the directory has, untouched by what came later: the flat image of physical memory, the
  -- JSON of the connections, in which one without a state has its process under "State", and the five
  -- files of the registry.
  pub dump_all-Complete :
      (st : Station)
      → GivesImage w (image_path dir timestamp) st.drivers memory runs
      → Prints w.shell dir timestamp cs
      → All ShowsHive (hives w.root (hive_opens w dir timestamp))
      → Complete w dir timestamp memory runs cs st (dump_all w dir timestamp st)
  unfolding dump_all dump_process_info system
  dump_all-Complete st g p shows =
      let path : List ℕ = image_path dir timestamp in
      let pixels : List ℕ = range (flat memory runs) 0 (top_of 0 runs) in
      let (drivers, same) = dump_image-GivesImage st g in
      let m0 : Machine = (dump_image w dir timestamp st).machine in
      let start : m0 ≡ put path pixels st.machine = ap (λ (x : Station). x.machine) same in
      let m1 : Machine = dump_process_info w.shell dir timestamp m0 in
      let m2 : Machine = dum_net w.shell dir timestamp m1 in
      let net : NetDumped w.shell dir timestamp (all_read cs) m1 m2 =
        dum_net-NetDumped w.shell dir timestamp m1 p.heads p.lines cs p.four p.inside p.rows p.plain
          p.opens (p.prints (w.shell.run (adapter_command dir timestamp) m1.disk)) in
      let keys = dump_registries-Written dir timestamp w.root (hive_opens w dir timestamp) shows in
      let begun : Station = record (dump_image w dir timestamp st) { machine = m2 } in
      let there : m0.disk path ≡ some pixels =
        ap (λ (m : Machine). m.disk path) start ∙ rw (bytes_eq_refl path) refl in
      subst (Complete w dir timestamp memory runs cs st)
        (sym (dump_keys_files begun keys.files keys.outcome))
        (record {
          status = refl;
          commands =
              put_files-ran keys.files m2
              ∙ net.commands
              ∙ ap
                  (λ (m : Machine).
                    (m.ran ++ process_command dir timestamp ∷ [])
                    ++ (adapter_command dir timestamp ∷ netstat_command dir timestamp ∷ []))
                  start
              ∙ append_assoc st.machine.ran (process_command dir timestamp ∷ [])
                  (adapter_command dir timestamp ∷ netstat_command dir timestamp ∷ []);
          image =
              put_files_other dir timestamp keys.complete path m2
                (image-NoHive dir timestamp w.root (hive_opens w dir timestamp))
              ∙ net.others path (image-Apart_json dir timestamp)
              ∙ commands_keep m0 path p (image-Apart_processes dir timestamp)
                  (image-Apart_adapters dir timestamp) (image-Apart_connections dir timestamp)
              ∙ there;
          table = net.text;
          table_stored =
              put_files_other dir timestamp keys.complete (netstat_json dir timestamp) m2
                (json-NoHive dir timestamp w.root (hive_opens w dir timestamp))
              ∙ net.stored;
          table_json = net.json;
          files = keys.files;
          files_stored =
              put_files-All dir timestamp keys.complete m2
                (hives-HivesApart dir timestamp w.root (hive_opens w dir timestamp));
          files_json = keys.complete;
        })
