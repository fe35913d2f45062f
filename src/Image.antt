-- ===== src/Image.antt =====
-- tools/createimage.c: the disk image that is made of ELF files. A file is its bytes and their number. The
-- offsets of the fields are those of `Elf64_Ehdr` and `Elf64_Phdr`, the lowest byte first. An error ends
-- the program, and gives nothing; the messages are left out.
pub mod Sectors
use ucas_operating_system_la.Base.{
  ℕ, zero, suc, ◌+◌, ◌-◌, ◌*◌, ◌/◌, ◌%◌, ◌^◌, Bool, true, false, ◌&&◌, ◌||◌, ◌==◌, ltb, leb,
  if◌then◌else◌, Option, none, some, List, [], ◌∷◌, length,
}

abbrev pub sector_bytes : ℕ
sector_bytes = 0x200

abbrev pub os_size_loc : ℕ
os_size_loc = 0x1fe

abbrev pub dpt_loc : ℕ
dpt_loc = 0x1be

pub record ByteFile : Type 0 where
  pub bytes : ℕ → ℕ
  pub size : ℕ

-- `n` bytes of a file as a number.
abbrev read_field : (n p : ℕ) → (ℕ → ℕ) → ℕ
read_field zero p b = 0
read_field (suc n) p b = b p % 256 + 256 * read_field n (suc p) b

pub record Ehdr : Type 0 where
  pub e_phoff : ℕ
  pub e_phentsize : ℕ
  pub e_phnum : ℕ

pub record Phdr : Type 0 where
  pub p_offset : ℕ
  pub p_filesz : ℕ
  pub p_memsz : ℕ

pub read_ehdr : ByteFile → Option Ehdr
read_ehdr fp =
    if ltb fp.size 64
    then none
    else some (record {
      e_phoff = read_field 8 32 fp.bytes;
      e_phentsize = read_field 2 54 fp.bytes;
      e_phnum = read_field 2 56 fp.bytes;
    })

pub read_phdr : ByteFile → (ph : ℕ) → Ehdr → Option Phdr
read_phdr fp ph ehdr =
    let p : ℕ = ehdr.e_phoff + ph * ehdr.e_phentsize in
    if leb ehdr.e_phnum ph || ltb fp.size (p + 56)
    then none
    else some (record {
      p_offset = read_field 8 (p + 8) fp.bytes;
      p_filesz = read_field 8 (p + 32) fp.bytes;
      p_memsz = read_field 8 (p + 40) fp.bytes;
    })

-- `fwrite` of `n` bytes at `p`.
abbrev pub write_at : (p n : ℕ) → (ℕ → ℕ) → ByteFile → ByteFile
write_at p n b img = record {
  bytes = λ i. if leb p i && ltb i (p + n) then b (i - p) else img.bytes i;
  size = if ltb img.size (p + n) then p + n else img.size;
}

-- The segment with zeroes behind it. A segment that is longer in the file than in memory is read behind
-- the end of the buffer, which is an error here.
pub write_segment : Phdr → (fp : ByteFile) → ByteFile × ℕ → Option (ByteFile × ℕ)
write_segment phdr fp (img, nbytes) =
    if ltb fp.size (phdr.p_offset + phdr.p_filesz) || ltb phdr.p_memsz phdr.p_filesz
    then none
    else some (
      write_at nbytes phdr.p_memsz
          (λ i. if ltb i phdr.p_filesz then fp.bytes (phdr.p_offset + i) % 256 else 0) img,
      nbytes + phdr.p_memsz,
    )

-- The loop over the segments from `ph` on.
pub write_segments : (n ph : ℕ) → Ehdr → ByteFile → ByteFile × ℕ → Option (ByteFile × ℕ)
unfolding read_phdr write_segment
write_segments zero ph ehdr fp x = some x
write_segments (suc n) ph ehdr fp x = elim (read_phdr fp ph ehdr) [
  | none ↦ none
  | some phdr ↦ elim (write_segment phdr fp x) [
    | none ↦ none
    | some y ↦ write_segments n (suc ph) ehdr fp y
  ]
]

-- The zeroes up to the next sector, a whole sector of them when the file ends with one.
pub pad_sector : ByteFile × ℕ → ByteFile × ℕ
pad_sector (img, nbytes) =
    let padding : ℕ = sector_bytes - nbytes % sector_bytes in
    (write_at nbytes padding (λ i. 0) img, nbytes + padding)

pub write_file : ByteFile → ByteFile × ℕ → Option (ByteFile × ℕ)
unfolding read_ehdr write_segments pad_sector
write_file fp x = elim (read_ehdr fp) [
  | none ↦ none
  | some ehdr ↦ elim (write_segments ehdr.e_phnum 0 ehdr fp x) [
    | none ↦ none
    | some y ↦ some (pad_sector y)
  ]
]

pub write_files : List ByteFile → ByteFile × ℕ → Option (ByteFile × ℕ)
unfolding write_file
write_files [] x = some x
write_files (fp ∷ files) x = elim (write_file fp x) [ none ↦ none | some y ↦ write_files files y ]

-- A byte of a number.
abbrev pub byte_of : ℕ → ℕ → ℕ
byte_of v i = v / 256 ^ i % 256

pub write_os_size : (nbytes : ℕ) → ByteFile → ByteFile
write_os_size nbytes img =
    let os_size : ℕ = nbytes / 0x200 % 2 ^ 16 in write_at os_size_loc 2 (λ i. byte_of os_size i) img

-- The four entries: status and start, type and end, the first sector and the number of sectors; three of
-- the entries are zero.
abbrev pub dpt_byte : ℕ → ℕ
dpt_byte i =
    if ltb i 4
    then byte_of 0xfffffe80 i
    else if ltb i 8
    then byte_of 0xfffffe1a (i - 4)
    else if ltb i 12
    then byte_of 0x1000 (i - 8)
    else if ltb i 16
    then byte_of 0x10000 (i - 12)
    else 0

pub write_dpt : ByteFile → ByteFile
write_dpt img = write_at dpt_loc 64 dpt_byte img

-- Without a file the difference is -512, whose number of sectors is -1, cut to 16 bits.
pub create_image : List ByteFile → Option ByteFile
unfolding write_files write_os_size write_dpt
create_image files = elim (write_files files (record { bytes = λ i. 0; size = 0 }, 0)) [
  | none ↦ none
  | some (img, nbytes) ↦ some (
      write_dpt (
        write_os_size
          (if ltb nbytes sector_bytes then (2 ^ 16 - 1) * 0x200 else nbytes - sector_bytes) img))
]
