-- ===== src/Node/Device/Found.antt =====
-- Finding a device by its serial in what `grep . /sys/block/vd*/serial` prints.
use Prim.Native.String.{◌++◌ as ◌<>◌}
use Prim.Native.Char.{Char, code}
use text.Mathlib.TextLemmas.{nil-append, cons-append}
use baiducloud_cce_csi_drive.Base.{
  ℕ, String, Bool, true, false, not, ◌&&◌, List, [], ◌∷◌, ◌==◌, ◌≡◌, ◌≢◌, refl, ap, ◌∙◌, arith,
  eq_iff, eqb, Result, ok, err, Exec, if◌then◌else◌, Bool-cases, inl, inr,
}
use baiducloud_cce_csi_drive.Util.Text.{split}
use baiducloud_cce_csi_drive.Node.Device.{
  DeviceError, serial_not_found, device_name, key_value, find_serial, get_dev_path,
}

-- The text does not have the character.
unfoldable pub lacks : ℕ → String → Bool
lacks sep String.[] = true
lacks sep (String.◌∷◌ c s) = not (eqb (code c) sep) && lacks sep s

split-lacks : (sep : ℕ) (s : String) → lacks sep s ≡ true → split sep s ≡ s ∷ []
unfolding split lacks
split-lacks sep String.[] h = refl
split-lacks sep (String.◌∷◌ c s) h = ground (arith, h, split-lacks sep s)

-- A part without the separator, the separator, and the rest.
split-append :
    (sep : ℕ) (a b : String) (c : Char)
    → code c ≡ sep
    → lacks sep a ≡ true
    → split sep (a <> String.◌∷◌ c b) ≡ a ∷ split sep b
unfolding split lacks
split-append sep String.[] b c e h = rw nil-append (ground (arith, e))
split-append sep (String.◌∷◌ d a) b c e h =
    rw cons-append (ground (arith, h, split-append sep a b c e))

lacks-append : (sep : ℕ) (a b : String) → lacks sep (a <> b) ≡ (lacks sep a && lacks sep b)
unfolding lacks
lacks-append sep String.[] b = rw nil-append refl
lacks-append sep (String.◌∷◌ c a) b = rw cons-append (ground (arith, lacks-append sep a b))

single-append : (c : Char) (s : String) → String.◌∷◌ c String.[] <> s ≡ String.◌∷◌ c s
single-append c s = rw (cons-append, nil-append) refl

split_path : (y : String) → split b'/' ("/sys/block/" <> y) ≡ "" ∷ "sys" ∷ "block" ∷ split b'/' y
unfolding split
split_path y =
    rw
      (
        cons-append, cons-append, cons-append, cons-append, cons-append, cons-append, cons-append,
        cons-append, cons-append, cons-append, cons-append, nil-append,
      )
      refl

-- A virtio block device of the node, with the serial that its file in /sys/block has.
pub record BlockDevice : Type 0 where
  pub name : String
  pub serial : String

abbrev serial_file : BlockDevice → String
serial_file d = "/sys/block/" <> (d.name <> "/serial")

abbrev line_of : BlockDevice → String
line_of d = serial_file d <> (":" <> d.serial)

abbrev add_line : BlockDevice → String → String
add_line d rest = if d.serial == "" then rest else line_of d <> ("\n" <> rest)

abbrev lines_of : List BlockDevice → String
lines_of [] = ""
lines_of (d ∷ ds) = add_line d (lines_of ds)

-- What the command prints for the files of the devices: a line for each serial that is not empty, with
-- the name of its file where there are several files; `grep` does not name the file where it is given
-- one.
abbrev pub printed : List BlockDevice → String
printed [] = ""
printed (d ∷ []) = if d.serial == "" then "" else d.serial <> "\n"
printed (d ∷ e ∷ ds) = lines_of (d ∷ e ∷ ds)

-- Names without `/`, `:` and ends of lines, and serials without the last two.
pub record IsPlain (d : BlockDevice) : Type 0 where
  pub name_slash : lacks b'/' d.name ≡ true
  pub name_colon : lacks b':' d.name ≡ true
  pub name_line : lacks b'\n' d.name ≡ true
  pub serial_colon : lacks b':' d.serial ≡ true
  pub serial_line : lacks b'\n' d.serial ≡ true

abbrev pub AllPlain : List BlockDevice → Type 0
AllPlain [] = Unit
AllPlain (d ∷ ds) = IsPlain d × AllPlain ds

-- The first device with the serial.
unfoldable pub device_of : String → List BlockDevice → Result DeviceError String
device_of serial [] = err serial_not_found
device_of serial (d ∷ ds) =
    let later = device_of serial ds in if d.serial == serial then ok ("/dev/" <> d.name) else later

lacks_path :
    (sep : ℕ) (y : String)
    → lacks sep "/sys/block/" ≡ true
    → lacks sep y ≡ true
    → lacks sep ("/sys/block/" <> y) ≡ true
lacks_path sep y a b = lacks-append sep "/sys/block/" y ∙ rw (a, b) refl

split-serial_file :
    (d : BlockDevice)
    → IsPlain d
    → split b'/' (serial_file d) ≡ "" ∷ "sys" ∷ "block" ∷ d.name ∷ "serial" ∷ []
unfolding split
split-serial_file d p =
    split_path (d.name <> "/serial")
    ∙ ap (λ l. "" ∷ "sys" ∷ "block" ∷ l) (split-append b'/' d.name "serial" "/" refl p.name_slash)

serial_file-lacks :
    (d : BlockDevice) (sep : ℕ)
    → lacks sep "/sys/block/" ≡ true
    → lacks sep "/serial" ≡ true
    → lacks sep d.name ≡ true
    → lacks sep (serial_file d) ≡ true
serial_file-lacks d sep a b h =
    lacks_path sep (d.name <> "/serial") a (lacks-append sep d.name "/serial" ∙ rw (h, b) refl)

split_line : (d : BlockDevice) → IsPlain d → split b':' (line_of d) ≡ serial_file d ∷ d.serial ∷ []
split_line d p =
    ap (λ t. split b':' (serial_file d <> t)) (single-append ":" d.serial)
    ∙ split-append b':' (serial_file d) d.serial ":" refl
        (serial_file-lacks d b':' (unfold lacks in refl) (unfold lacks in refl) p.name_colon)
    ∙ ap (λ l. serial_file d ∷ l) (split-lacks b':' d.serial p.serial_colon)

line-lacks : (d : BlockDevice) → IsPlain d → lacks b'\n' (line_of d) ≡ true
line-lacks d p =
    let file =
      serial_file-lacks d b'\n' (unfold lacks in refl) (unfold lacks in refl) p.name_line in
    let rest : lacks b'\n' (":" <> d.serial) ≡ true =
      lacks-append b'\n' ":" d.serial ∙ rw p.serial_line (unfold lacks in refl) in
    lacks-append b'\n' (serial_file d) (":" <> d.serial) ∙ rw (file, rest) refl

split_add_line :
    (d : BlockDevice) (rest : String)
    → IsPlain d
    → split b'\n' (line_of d <> ("\n" <> rest)) ≡ line_of d ∷ split b'\n' rest
split_add_line d rest p =
    ap (λ t. split b'\n' (line_of d <> t)) (single-append "\n" rest)
    ∙ split-append b'\n' (line_of d) rest "\n" refl (line-lacks d p)

line-not_empty : (d : BlockDevice) → (line_of d == "") ≡ false
line-not_empty d = elim (Bool-cases (line_of d == "")) [
  | inr e ↦ e
  | inl e ↦
      let some_line : line_of d ≢ "" = rw (cons-append, cons-append) (λ x. cc) in
      absurd (some_line ((eq_iff (line_of d) "").0 e))
]

find_serial_line :
    (serial : String) (d : BlockDevice) (rest : String)
    → IsPlain d
    → find_serial serial (split b'\n' (line_of d <> ("\n" <> rest))) ≡ (
        let later = find_serial serial (split b'\n' rest) in
        if d.serial == serial then ok ("/dev/" <> d.name) else later)
unfolding find_serial key_value device_name
find_serial_line serial d rest p =
    ap (find_serial serial) (split_add_line d rest p)
    ∙ ground (arith, line-not_empty d, split_line d p, split-serial_file d p)

find_serial_lem :
    (serial : String) (ds : List BlockDevice)
    → serial ≢ ""
    → AllPlain ds
    → find_serial serial (split b'\n' (lines_of ds)) ≡ device_of serial ds
unfolding device_of
find_serial_lem serial [] n h = unfold split find_serial in refl
find_serial_lem serial (d ∷ ds) n (p, h) =
    let rest = find_serial_lem serial ds n h in
    elim (Bool-cases (d.serial == "")) [
      | inl e ↦
          let other : (d.serial == serial) ≡ false =
            ground (arith, e, n, eq_iff d.serial "", eq_iff d.serial serial) in
          ground (arith, e, rest, other)
      | inr e ↦
          ap
            (λ b.
              find_serial serial
                (split b'\n' (if b then lines_of ds else line_of d <> ("\n" <> lines_of ds))))
            e
          ∙ find_serial_line serial d (lines_of ds) p
          ∙ ap (λ r. if d.serial == serial then ok ("/dev/" <> d.name) else r) rest
    ]

-- A line without the name of a file is passed over.
find_serial_alone :
    (serial : String) (d : BlockDevice)
    → IsPlain d
    → find_serial serial (split b'\n' (d.serial <> "\n")) ≡ err serial_not_found
unfolding find_serial key_value
find_serial_alone serial d p =
    let none_left : find_serial serial (split b'\n' "") ≡ err serial_not_found =
      unfold split in refl in
    ap (find_serial serial) (split-append b'\n' d.serial "" "\n" refl p.serial_line)
    ∙ ground (arith, split-lacks b':' d.serial p.serial_colon, none_left)

-- The device that the driver finds: none where the node has one device only.
abbrev pub located : String → List BlockDevice → Result DeviceError String
located serial [] = err serial_not_found
located serial (d ∷ []) = err serial_not_found
located serial (d ∷ e ∷ ds) = device_of serial (d ∷ e ∷ ds)

find_printed :
    (serial : String) (ds : List BlockDevice)
    → serial ≢ ""
    → AllPlain ds
    → find_serial serial (split b'\n' (printed ds)) ≡ located serial ds
find_printed serial [] n h = unfold split find_serial in refl
find_printed serial (d ∷ []) n (p, h) = elim (Bool-cases (d.serial == "")) [
  | inl e ↦
      ap (λ b. find_serial serial (split b'\n' (if b then "" else d.serial <> "\n"))) e
      ∙ unfold split find_serial in refl
  | inr e ↦
      ap (λ b. find_serial serial (split b'\n' (if b then "" else d.serial <> "\n"))) e
      ∙ find_serial_alone serial d p
]
find_printed serial (d ∷ e ∷ ds) n h = find_serial_lem serial (d ∷ e ∷ ds) n h

-- A device that the driver finds is the first that has the serial.
pub located_ok :
    (serial : String) (ds : List BlockDevice) {d : String}
    → located serial ds ≡ ok d
    → device_of serial ds ≡ ok d
located_ok serial [] h = absurd cc
located_ok serial (d ∷ []) h = absurd cc
located_ok serial (d ∷ e ∷ ds) h = h

-- Where the command prints the serials of the node's block devices as `grep` does, and their names and
-- serials have no separators in them: on a node with several devices, looking one up by a serial gives
-- the path of the first device that has it, and an error if none has. On a node with one device no
-- serial is found, not even its own.
pub get_dev_path_lem :
    {F : Type 0} (grep_serials : Exec F DeviceError String) (serial : String)
    (ds : List BlockDevice) (s : F)
    → serial ≢ ""
    → AllPlain ds
    → grep_serials s ≡ (ok (printed ds), s)
    → get_dev_path grep_serials serial s ≡ (located serial ds, s)
unfolding get_dev_path
get_dev_path_lem grep_serials serial ds s n p h =
    let found = find_printed serial ds n p in ground (arith, eq_iff serial "", n, h, found)
