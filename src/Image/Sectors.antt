-- ===== src/Image/Sectors.antt =====
-- The image of tools/createimage.c consists of whole sectors, and says how many follow the first.
use ucas_operating_system_la.Base.{
  ℕ, zero, suc, ◌+◌, ◌-◌, ◌*◌, ◌/◌, ◌%◌, ◌^◌, ◌≤◌, ◌≡◌, refl, arith, some, List, [], ◌∷◌,
  Option-cases, inl, inr,
}
use ucas_operating_system_la.Image.{
  ByteFile, Ehdr, Phdr, read_ehdr, read_phdr, write_segment, write_segments, pad_sector, write_file,
  write_files, write_os_size, write_dpt, create_image, sector_bytes, os_size_loc,
}

-- The bytes that were counted are those of the image.
abbrev Counted : ByteFile × ℕ → Type 0
Counted (img, nbytes) = img.size ≡ nbytes

-- They are whole sectors, and at least one.
abbrev Whole : ByteFile × ℕ → Type 0
Whole (img, nbytes) = (img.size ≡ nbytes) × (nbytes % sector_bytes ≡ 0) × (sector_bytes ≤ nbytes)

write_segment-Counted :
    (phdr : Phdr) (fp : ByteFile) (x y : ByteFile × ℕ)
    → write_segment phdr fp x ≡ some y
    → Counted x
    → Counted y
unfolding write_segment
write_segment-Counted phdr fp x y e c = ground arith

write_segments-Counted :
    (n ph : ℕ) (ehdr : Ehdr) (fp : ByteFile) (x y : ByteFile × ℕ)
    → write_segments n ph ehdr fp x ≡ some y
    → Counted x
    → Counted y
unfolding write_segments
write_segments-Counted zero ph ehdr fp x y e c = ground arith
write_segments-Counted (suc n) ph ehdr fp x y e c = elim (Option-cases (read_phdr fp ph ehdr)) [
  | inl f ↦ absurd (ground arith)
  | inr (phdr, f) ↦ elim (Option-cases (write_segment phdr fp x)) [
    | inl g ↦ absurd (ground arith)
    | inr (z, g) ↦
        write_segments-Counted n (suc ph) ehdr fp z y (ground arith)
          (write_segment-Counted phdr fp x z g c)
  ]
]

pad_sector-Whole : (x : ByteFile × ℕ) → Counted x → Whole (pad_sector x)
unfolding pad_sector
pad_sector-Whole x c = ground arith

write_file-Whole :
    (fp : ByteFile) (x y : ByteFile × ℕ) → write_file fp x ≡ some y → Counted x → Whole y
unfolding write_file
write_file-Whole fp x y e c = elim (Option-cases (read_ehdr fp)) [
  | inl f ↦ absurd (ground arith)
  | inr (ehdr, f) ↦ elim (Option-cases (write_segments ehdr.e_phnum 0 ehdr fp x)) [
    | inl g ↦ absurd (ground arith)
    | inr (z, g) ↦
        let w = pad_sector-Whole z (write_segments-Counted ehdr.e_phnum 0 ehdr fp x z g c) in
        ground (arith, w)
  ]
]

write_files-Whole :
    (files : List ByteFile) (x y : ByteFile × ℕ) → write_files files x ≡ some y → Whole x → Whole y
unfolding write_files
write_files-Whole [] x y e w = ground (arith, w)
write_files-Whole (fp ∷ files) x y e w = elim (Option-cases (write_file fp x)) [
  | inl f ↦ absurd (ground arith)
  | inr (z, f) ↦ write_files-Whole files z y (ground arith) (write_file-Whole fp x z f w.0)
]

finished :
    (z : ByteFile × ℕ)
    → Whole z
    → let img : ByteFile = write_dpt (write_os_size (z.1 - sector_bytes) z.0) in
      (img.size ≡ z.1)
      × (img.bytes os_size_loc + 256 * img.bytes (os_size_loc + 1)
          ≡ (z.1 / sector_bytes - 1) % 2 ^ 16)
unfolding write_os_size write_dpt
finished z (c, w, l) =
    let sectors : (z.1 - sector_bytes) / sector_bytes ≡ z.1 / sector_bytes - 1 = omega (arith, l) in
    (ground (arith, c, l), rw sectors (omega arith))

-- The image of at least one file is made of whole sectors, and the two bytes behind the partition table
-- are the number of the sectors behind the first, modulo 2 ^ 16.
create_image-sectors :
    (fp : ByteFile) (files : List ByteFile) (img : ByteFile)
    → create_image (fp ∷ files) ≡ some img
    → (img.size % sector_bytes ≡ 0)
      × (img.bytes os_size_loc + 256 * img.bytes (os_size_loc + 1)
          ≡ (img.size / sector_bytes - 1) % 2 ^ 16)
unfolding create_image write_files write_os_size write_dpt
create_image-sectors fp files img e =
    let empty : ByteFile × ℕ = (record { bytes = λ i. 0; size = 0 }, 0) in
    elim (Option-cases (write_file fp empty)) [
      | inl f ↦ absurd (ground arith)
      | inr (y, f) ↦ elim (Option-cases (write_files files y)) [
        | inl g ↦ absurd (ground arith)
        | inr (z, g) ↦
            let w = write_files-Whole files y z g (write_file-Whole fp empty y f refl) in
            ground (arith, finished z w)
      ]
    ]
