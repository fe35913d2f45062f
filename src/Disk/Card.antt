-- ===== src/Disk/Card.antt =====
-- What fs/fs.c relies on of the SD card, and where its blocks lie.
use ucas_operating_system_la.Base.{
  ℕ, ◌+◌, ◌*◌, ◌^◌, ◌≤◌, ◌<◌, ◌≡◌, ◌⊎◌, inl, inr, arith, ◌==◌, if◌then◌else◌, Bool-cases, ==_iff,
  ltb,
}
use ucas_operating_system_la.Bitmap.{Words}
use ucas_operating_system_la.Disk.{SdCard, Disk, block_offset, block_size, sector_size}

-- A block that was written is read back, and writing it leaves the blocks elsewhere.
pub record IsSdCard (card : SdCard) : Type 0 where
  pub same :
      (w : Words) (o : ℕ) (c : card.Content) → card.sd_card_read o (card.sd_card_write w o c) ≡ w
  pub apart :
      (w : Words) (o p : ℕ) (c : card.Content)
      → (o + block_size ≤ p) ⊎ (p + block_size ≤ o)
      → card.sd_card_read p (card.sd_card_write w o c) ≡ card.sd_card_read p c

-- The partition has `n` blocks, at offsets of 32 bits.
abbrev pub Fits : {card : SdCard} → ℕ → Disk card → Type 0
Fits n s = s.start_lba * sector_size + n * block_size ≤ 2 ^ 32

-- The content of the block `b` after a write to the block `d`.
pub read-write :
    (card : SdCard) (law : IsSdCard card) (s : Disk card) (n b d : ℕ) (w : Words)
    → Fits n s
    → b < n
    → d < n
    → card.sd_card_read
        (block_offset card s b)
        (card.sd_card_write w (block_offset card s d) s.content)
      ≡ (if b == d then w else card.sd_card_read (block_offset card s b) s.content)
read-write card law s n b d w fits hb hd = elim (Bool-cases (b == d)) [
  | inl e ↦ rw (e, (==_iff b d).0 e) (law.same w (block_offset card s d) s.content)
  | inr ne ↦ rw ne (
      law.apart w (block_offset card s d) (block_offset card s b) s.content
        (elim (Bool-cases (ltb b d)) [ inl l ↦ inr (ground arith) | inr g ↦ inl (ground arith) ]))
]
