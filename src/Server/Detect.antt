-- ===== src/Server/Detect.antt =====
-- `detectKind` of server/server.go and the readers below it: is an upload a PE image or a Windows
-- Installer package? A file is read through `ReadAt`, as in the source.
pub mod Bounds
pub mod Signature
pub mod Pe
pub mod Msi
pub mod Kinds
pub mod Verdict
use codesign.Common.{
  ℕ, ◌+◌, ◌-◌, ◌*◌, ◌^◌, Bool, true, false, not, ◌&&◌, ◌||◌, List, [], ◌∷◌, Option, none, some,
  Bytes, codes, length, get_or, take, drop, ltb, leb, ◌==◌, equal, if◌then◌else◌,
}
use codesign.Common.Errors.{
  Error, Result, ok, err, sentinel, wrap, not_signable, ◌>>=◌ as bind_result,
}
use codesign.Common.Options.{◌>>=◌, ◌>>◌, guard}

-- `io.ReaderAt`, asked for a full buffer: the bytes of that length at that offset, or `none` for an
-- error, a short read included.
abbrev pub ReaderAt : Type 0
ReaderAt = ℕ → ℕ → Option Bytes

abbrev pub slice : ℕ → ℕ → Bytes → Bytes
slice off n f = take n (drop off f)

-- A regular file with these bytes.
unfoldable pub file_reader : Bytes → ReaderAt
file_reader f off n = if leb (off + n) (length f) then some (slice off n f) else none

-- `binary.LittleEndian.Uint16` and `Uint32` of the bytes at an index.
abbrev pub u16_le : Bytes → ℕ → ℕ
u16_le b i = get_or b i 0 + 256 * get_or b (i + 1) 0

abbrev pub u32_le : Bytes → ℕ → ℕ
u32_le b i =
    get_or b i 0
    + 256 * get_or b (i + 1) 0
    + 65536 * get_or b (i + 2) 0
    + 16777216 * get_or b (i + 3) 0

-- A failed read answers `false`.
abbrev pub reads : Option Bytes → (Bytes → Bool) → Bool
reads none f = false
reads (some b) f = f b

abbrev pub dos_header_len : ℕ
dos_header_len = 0x40

abbrev pub lfanew_at : ℕ
lfanew_at = 0x3C

abbrev pub pe_signature : Bytes
pe_signature = b'P' ∷ b'E' ∷ 0 ∷ 0 ∷ []

unfoldable pub is_pe : ReaderAt → ℕ → Bool
is_pe file size =
    if ltb size dos_header_len
    then false
    else reads (file 0 dos_header_len) λ dos.
      if not (get_or dos 0 0 == b'M') || not (get_or dos 1 0 == b'Z')
      then false
      else reads (file (u32_le dos lfanew_at) 4) λ sig. equal sig pe_signature

abbrev pub cfbf_magic : Bytes
cfbf_magic = 0xD0 ∷ 0xCF ∷ 0x11 ∷ 0xE0 ∷ 0xA1 ∷ 0xB1 ∷ 0x1A ∷ 0xE1 ∷ []

abbrev pub header_len : ℕ
header_len = 512

abbrev pub dir_entry_len : ℕ
dir_entry_len = 128

-- 128-byte to 4096-byte sectors.
abbrev pub is_sector_shift : ℕ → Bool
is_sector_shift shift = not (ltb shift 7 || ltb 12 shift)

-- `(int64(firstDirSector) + 1) * (int64(1) << sectorShift)`
abbrev pub dir_offset : Bytes → ℕ
dir_offset header = (u32_le header 48 + 1) * 2 ^ u16_le header 30

abbrev pub root_clsid_of : Bytes → Bytes
root_clsid_of entry = slice 0x50 16 entry

unfoldable pub compound_root_clsid : ReaderAt → ℕ → Option Bytes
compound_root_clsid file size = do
  guard (not (ltb size header_len))
  header ← file 0 header_len
  guard (is_sector_shift (u16_le header 30))
  guard (not (u32_le header 48 == 0xFFFFFFFF))
  guard (not (ltb size (dir_offset header + dir_entry_len)))
  entry ← file (dir_offset header) dir_entry_len
  some (root_clsid_of entry)

abbrev pub installer_tail : Bytes
installer_tail = 0 ∷ 0 ∷ 0 ∷ 0 ∷ 0xC0 ∷ 0 ∷ 0 ∷ 0 ∷ 0 ∷ 0 ∷ 0 ∷ 0x46 ∷ []

-- The class ids of a database, a patch, a transform and a merge module.
abbrev pub is_installer_id : ℕ → Bool
is_installer_id n = n == 0x000C1084 || n == 0x000C1086 || n == 0x000C1082 || n == 0x000C1090

unfoldable pub is_installer_clsid : Bytes → Bool
is_installer_clsid clsid =
    if not (length clsid == 16)
    then false
    else if is_installer_id (u32_le clsid 0)
    then equal (slice 4 12 clsid) installer_tail
    else false

-- What `isMSI` answers for the class id, where it could be read.
abbrev pub fails_open : Option Bytes → Bool
fails_open none = true
fails_open (some clsid) = is_installer_clsid clsid

unfoldable pub is_msi : ReaderAt → ℕ → Bool
is_msi file size =
    reads (file 0 8) λ sig.
      if not (equal sig cfbf_magic) then false else fails_open (compound_root_clsid file size)

-- The two values of `kind`.
pub data Kind : Type 0 where
  exe msi : Kind

abbrev pub kind_ext : Kind → Bytes
kind_ext exe = codes ".exe"
kind_ext msi = codes ".msi"

-- The first argument is the outcome of `file.Stat`: the size of the file.
unfoldable pub detect_kind : Result ℕ → ReaderAt → Result Kind
detect_kind (err e) file = err (wrap (codes "statting upload") e)
detect_kind (ok size) file =
    if is_pe file size
    then ok exe
    else if is_msi file size
    then ok msi
    else err (sentinel not_signable)
