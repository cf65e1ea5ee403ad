-- ===== src/Resources/Sensors.antt =====
-- modules/resources.h, the search for temperature sensors in `getCpuTemp`. A directory is the list of
-- its entries; a file that can be opened has a descriptor. The buffers of the paths are left out.
use photonbar.Common.{
  ℕ, ◌<◌, ◌≤◌, ◌≡◌, arith, Bool, true, false, ◌&&◌, ◌||◌, Option, none, some, List, [], ◌∷◌, ◌++◌,
  ◌==◌, leb, if◌then◌else◌, Bytes, ascii, length, length-append, Bool-cases, inl, inr, All,
  All-append,
}
use photonbar.Resources.{starts_with}

abbrev pub max_temp_fds : ℕ
max_temp_fds = 32

-- `strstr(s, p) != NULL`.
unfoldable pub has_text : Bytes → Bytes → Bool
has_text p [] = starts_with p []
has_text p (c ∷ cs) = let rest = has_text p cs in starts_with p (c ∷ cs) || rest

abbrev pub is_sensor : Bytes → Bool
is_sensor name = starts_with (ascii "temp") name && has_text (ascii "_input") name

abbrev pub is_hidden : Bytes → Bool
is_hidden [] = false
is_hidden (c ∷ cs) = c == b'.'

-- An open sensor: its descriptor, with the name of its file.
unfoldable pub add_sensor : Bytes → Option ℕ → List (Bytes × ℕ) → List (Bytes × ℕ)
add_sensor name none fds = fds
add_sensor name (some fd) fds = if is_sensor name then fds ++ ((name, fd) ∷ []) else fds

-- The loop over the files of one directory.
unfoldable pub scan_files : List (Bytes × Option ℕ) → List (Bytes × ℕ) → List (Bytes × ℕ)
scan_files [] fds = fds
scan_files ((name, opened) ∷ files) fds =
    let rest = scan_files files (add_sensor name opened fds) in
    if leb max_temp_fds (length fds) then fds else rest

-- The loop over /sys/class/hwmon; `none` is a directory that cannot be opened.
unfoldable pub scan_dirs :
    List (Bytes × Option (List (Bytes × Option ℕ))) → List (Bytes × ℕ) → List (Bytes × ℕ)
scan_dirs [] fds = fds
scan_dirs ((name, none) ∷ dirs) fds =
    let rest = scan_dirs dirs fds in if leb max_temp_fds (length fds) then fds else rest
scan_dirs ((name, some files) ∷ dirs) fds =
    let rest = scan_dirs dirs (if is_hidden name then fds else scan_files files fds) in
    if leb max_temp_fds (length fds) then fds else rest

-- The array has room for the sensors, each of which is a temp*_input file.
abbrev pub IsTable : List (Bytes × ℕ) → Type 0
IsTable fds = (length fds ≤ 32) × All (λ s. is_sensor s.0 ≡ true) fds

add_sensor-IsTable :
    (name : Bytes) (opened : Option ℕ) (fds : List (Bytes × ℕ))
    → IsTable fds
    → length fds < 32
    → IsTable (add_sensor name opened fds)
unfolding add_sensor
add_sensor-IsTable name none fds h room = h
add_sensor-IsTable name (some fd) fds h room = elim (Bool-cases (is_sensor name)) [
  | inl sensor ↦
      rw (add_sensor, sensor)
        (
          omega (arith, length-append fds ((name, fd) ∷ [])),
          All-append (λ (s : Bytes × ℕ). is_sensor s.0 ≡ true) fds ((name, fd) ∷ []) h.1
              (sensor, tt),
        )
  | inr plain ↦ rw (add_sensor, plain) h
]

scan_files-IsTable :
    (files : List (Bytes × Option ℕ)) (fds : List (Bytes × ℕ))
    → IsTable fds
    → IsTable (scan_files files fds)
unfolding scan_files
scan_files-IsTable [] fds h = h
scan_files-IsTable ((name, opened) ∷ files) fds h = elim (Bool-cases (leb 32 (length fds))) [
  | inl full ↦ rw (scan_files, full) h
  | inr room ↦
      rw (scan_files, room)
        (scan_files-IsTable files (add_sensor name opened fds)
          (add_sensor-IsTable name opened fds h (ground (arith, room))))
]

-- However many directories and files there are, the sensors fit into the array, and each is a file
-- whose name starts with "temp" and holds "_input".
scan_dirs-IsTable :
    (dirs : List (Bytes × Option (List (Bytes × Option ℕ)))) (fds : List (Bytes × ℕ))
    → IsTable fds
    → IsTable (scan_dirs dirs fds)
unfolding scan_dirs
scan_dirs-IsTable [] fds h = h
scan_dirs-IsTable ((name, none) ∷ dirs) fds h = elim (Bool-cases (leb 32 (length fds))) [
  | inl full ↦ rw (scan_dirs, full) h
  | inr room ↦ rw (scan_dirs, room) (scan_dirs-IsTable dirs fds h)
]
scan_dirs-IsTable ((name, some files) ∷ dirs) fds h = elim (Bool-cases (leb 32 (length fds))) [
  | inl full ↦ rw (scan_dirs, full) h
  | inr room ↦ elim (Bool-cases (is_hidden name)) [
    | inl hidden ↦ rw (scan_dirs, room, hidden) (scan_dirs-IsTable dirs fds h)
    | inr shown ↦
        rw (scan_dirs, room, shown)
          (scan_dirs-IsTable dirs (scan_files files fds) (scan_files-IsTable files fds h))
  ]
]
