-- ===== src/Image/Driver/Cleanup.antt =====
-- What `install_driver` leaves behind.
use project.Prelude.{
  ℕ, suc, if-both, ◌≡◌, refl, sym, subst, true, false, none, some, List, [], ◌∷◌, bytes_eq,
  bytes_eq_refl, if◌then◌else◌, Status, ok, err, exit, fault, no_fuel, Bool-cases, inl, inr, All,
}
use project.Image.Driver.{
  System, Loader, has_service, is_running, delete_file, set_driver_filename, choose_name,
  extract_file, extract_driver, uninstall_driver, load_driver, remove_temporary, install_extracted,
  install_driver,
}

-- No file of the list has the name.
abbrev pub IsAbsent : List ℕ → List (List ℕ) → Type 0
IsAbsent p files = All (λ q. bytes_eq p q ≡ false) files

delete_file-absent :
    (p : List ℕ) (files : List (List ℕ)) → IsAbsent p files → delete_file p files ≡ files
unfolding delete_file
delete_file-absent p [] h = refl
delete_file-absent p (q ∷ files) (other, h) = rw (other, delete_file-absent p files h)

delete_file_new :
    (p : List ℕ) (files : List (List ℕ)) → IsAbsent p files → delete_file p (p ∷ files) ≡ files
unfolding delete_file
delete_file_new p files h = rw (bytes_eq_refl p, delete_file-absent p files h)

-- The temporary file is there, or not.
data Has (p : List ℕ) (old : List (List ℕ)) : List (List ℕ) → Type 0 where
  there : Has p old (p ∷ old)
  missing : Has p old old

-- The temporary file's name is known, and it is the only new file.
record Holds (p : List ℕ) (old : List (List ℕ)) (l : Loader) : Type 0 where
  name : l.driver_filename ≡ some p
  temporary : l.driver_is_tempfile ≡ true
  files : Has p old l.drivers

-- A file of that name is made, over one that may be there.
created_again :
    {p : List ℕ} {old files : List (List ℕ)}
    → IsAbsent p old
    → Has p old files
    → Has p old (p ∷ delete_file p files)
created_again {p} {old} absent there =
    subst (λ fs. Has p old (p ∷ fs)) (sym (delete_file_new p old absent)) there
created_again {p} {old} absent missing =
    subst (λ fs. Has p old (p ∷ fs)) (sym (delete_file-absent p old absent)) there

-- What is left: the files from before, or, where `DeleteFile` failed, the temporary file as well.
pub data Left (sys : System) (old : List (List ℕ)) : List (List ℕ) → Type 0 where
  clean : Left sys old old
  not_deleted : sys.deletes ≡ false → Left sys old (sys.temp_name ∷ old)

extract_file-Holds :
    (sys : System) (p : List ℕ) (old : List (List ℕ)) (l : Loader)
    → IsAbsent p old
    → Holds p old l
    → Holds p old (extract_file sys p l).1
unfolding extract_file
extract_file-Holds sys p old l absent h =
    let P : Status × Loader → Type 0 = λ r. Holds p old r.1 in
    let new : Holds p old (record l { drivers = p ∷ delete_file p l.drivers }) = record {
      name = h.name;
      temporary = h.temporary;
      files = created_again absent h.files;
    } in
    if-both P sys.resource (if-both P sys.creates_driver (if-both P sys.writes_driver new new) h) h

uninstall_driver-Holds :
    (sys : System) (p : List ℕ) (old : List (List ℕ)) (l : Loader)
    → Holds p old l
    → Holds p old (uninstall_driver sys l).1
unfolding uninstall_driver
uninstall_driver-Holds sys p old l h =
    let P : Status × Loader → Type 0 = λ r. Holds p old r.1 in
    if-both P sys.manager_to_remove
      (record { name = h.name; temporary = h.temporary; files = h.files }) h

-- The service's steps touch no file.
load_driver-Holds :
    (sys : System) (p : List ℕ) (old : List (List ℕ)) (l : Loader)
    → Holds p old l
    → Holds p old (load_driver sys l).1
unfolding load_driver
load_driver-Holds sys p old l h =
    let P : Status × Loader → Type 0 = λ r. Holds p old r.1 in
    let same : Holds p old (record l { handles = suc l.handles }) = record {
      name = h.name;
      temporary = h.temporary;
      files = h.files;
    } in
    let on : Holds p old (record l { fd = sys.opens_device }) = record {
      name = h.name;
      temporary = h.temporary;
      files = h.files;
    } in
    if-both P sys.manager (if-both P (has_service sys) (if-both P (is_running sys) on h) same) h

all_deleted :
    {p : List ℕ} {old files : List (List ℕ)}
    → IsAbsent p old
    → Has p old files
    → delete_file p files ≡ old
all_deleted {p} {old} absent there = delete_file_new p old absent
all_deleted {p} {old} absent missing = delete_file-absent p old absent

all_kept :
    (sys : System) {old files : List (List ℕ)}
    → sys.deletes ≡ false
    → Has sys.temp_name old files
    → Left sys old files
all_kept sys kept there = not_deleted kept
all_kept sys kept missing = clean

deleted :
    (sys : System) (old files : List (List ℕ))
    → IsAbsent sys.temp_name old
    → Has sys.temp_name old files
    → Left sys old (if sys.deletes then delete_file sys.temp_name files else files)
deleted sys old files absent has = elim (Bool-cases sys.deletes) [
  | inl gone ↦
      subst (λ b. Left sys old (if b then delete_file sys.temp_name files else files)) (sym gone)
        (subst (Left sys old) (sym (all_deleted absent has)) clean)
  | inr kept ↦
      subst (λ b. Left sys old (if b then delete_file sys.temp_name files else files)) (sym kept)
        (all_kept sys kept has)
]

remove_temporary-Left :
    (sys : System) (old : List (List ℕ)) (l : Loader)
    → IsAbsent sys.temp_name old
    → Holds sys.temp_name old l
    → Left sys old (remove_temporary sys l).drivers
unfolding remove_temporary
remove_temporary-Left sys old l absent h =
    rw (h.temporary, h.name, remove_temporary) (deleted sys old l.drivers absent h.files)

install_extracted-Left :
    (sys : System) (old : List (List ℕ)) (r : Status × Loader)
    → IsAbsent sys.temp_name old
    → Holds sys.temp_name old r.1
    → Left sys old (install_extracted sys r).1.drivers
unfolding install_extracted
install_extracted-Left sys old (ok, l) absent h =
    let p = sys.temp_name in
    remove_temporary-Left sys old (load_driver sys (uninstall_driver sys l).1).1 absent (
      load_driver-Holds sys p old (uninstall_driver sys l).1 (uninstall_driver-Holds sys p old l h))
install_extracted-Left sys old (err, l) absent h = remove_temporary-Left sys old l absent h
install_extracted-Left sys old (exit, l) absent h = remove_temporary-Left sys old l absent h
install_extracted-Left sys old (fault, l) absent h = remove_temporary-Left sys old l absent h
install_extracted-Left sys old (no_fuel, l) absent h = remove_temporary-Left sys old l absent h

abbrev named : System → Loader → Loader
named sys l = record l {
  driver_filename = some sys.temp_name;
  driver_is_tempfile = true;
  drivers =
      if sys.temp_made then sys.temp_name ∷ delete_file sys.temp_name l.drivers else l.drivers;
}

named-Has :
    (sys : System) (l : Loader)
    → IsAbsent sys.temp_name l.drivers
    → Has sys.temp_name l.drivers (named sys l).drivers
named-Has sys l absent = elim (Bool-cases sys.temp_made) [
  | inl fresh ↦ rw fresh (created_again absent missing)
  | inr refused ↦ rw refused missing
]

choose_name_temp :
    (sys : System) (l : Loader)
    → l.driver_filename ≡ none
    → sys.temp_path ≡ true
    → sys.full_path sys.temp_name ≡ sys.temp_name
    → choose_name sys l ≡ some (named sys l)
unfolding choose_name set_driver_filename
choose_name_temp sys l unset found full = rw (unset, found, full, choose_name)

extract_driver_temp :
    (sys : System) (l : Loader)
    → l.driver_filename ≡ none
    → sys.temp_path ≡ true
    → sys.full_path sys.temp_name ≡ sys.temp_name
    → IsAbsent sys.temp_name l.drivers
    → Holds sys.temp_name l.drivers (extract_driver sys l).1
unfolding extract_driver
extract_driver_temp sys l unset found full absent =
    let l' : Loader = record l { default_mode = if sys.is_64 then 2 else 1 } in
    rw (choose_name_temp sys l' unset found full, extract_driver)
      (extract_file-Holds sys sys.temp_name l.drivers (named sys l') absent
        (record { name = refl; temporary = refl; files = named-Has sys l' absent }))

-- No driver file's name is set, and the temporary name is a full path that no driver file on the
-- disk has: whatever the system answers, the driver files on the disk after `install_driver` are
-- those that were there before, or the temporary file is there as well and `DeleteFile` failed.
pub install_driver-Left :
    (sys : System) (l : Loader)
    → l.driver_filename ≡ none
    → l.driver_is_tempfile ≡ false
    → sys.full_path sys.temp_name ≡ sys.temp_name
    → IsAbsent sys.temp_name l.drivers
    → Left sys l.drivers (install_driver sys l).1.drivers
unfolding install_driver
install_driver-Left sys l unset kept full absent = elim (Bool-cases sys.temp_path) [
  | inr lost ↦ rw (unset, lost, kept, install_driver) clean
  | inl found ↦
      install_extracted-Left sys l.drivers (extract_driver sys l) absent
        (extract_driver_temp sys l unset found full absent)
]
