-- ===== src/Disk/Buffer.antt =====
-- When the buffer of disk blocks of fs/fs.c is consistent, and which content of a block the file system
-- sees.
use ucas_operating_system_la.Base.{ℕ, ◌<◌, ◌≡◌, ◌≢◌, Bool, true, false}
use ucas_operating_system_la.Queue.{null}
use ucas_operating_system_la.Memory.{Addr}
use ucas_operating_system_la.Memory.Alloc.{IsValid}
use ucas_operating_system_la.Bitmap.{Words}
use ucas_operating_system_la.Disk.{SdCard, Disk, disk_buff_size, block_offset}
use ucas_operating_system_la.Disk.Card.{Fits}

-- The buffers have different pages, which the allocator has given out, and hold different blocks of the
-- partition's `n`; a buffer that is neither in use nor dirty holds what is on the card.
pub record Coherent (card : SdCard) (n : ℕ) (used : Addr → Bool) (s : Disk card) : Type 0 where
  pub fits : Fits n s
  pub pages_valid : IsValid s.page_ctrl_kernel used
  pub real : 0 < s.page_ctrl_kernel.start_addr
  pub next : s.id_next_new_buff < disk_buff_size
  pub held : (i : ℕ) → i < disk_buff_size → s.disk_buff i ≢ null → used (s.disk_buff i) ≡ true
  pub apart :
      (i j : ℕ)
      → i < disk_buff_size
      → j < disk_buff_size
      → s.disk_buff i ≢ null
      → s.disk_buff i ≡ s.disk_buff j
      → i ≡ j
  pub once :
      (i j : ℕ)
      → i < disk_buff_size
      → j < disk_buff_size
      → s.disk_buff i ≢ null
      → s.disk_buff j ≢ null
      → s.disk_buff_block_id i ≡ s.disk_buff_block_id j
      → i ≡ j
  pub small : (i : ℕ) → i < disk_buff_size → s.disk_buff i ≢ null → s.disk_buff_block_id i < n
  pub tidy : (i : ℕ) → i < disk_buff_size → s.disk_buff i ≡ null → s.disk_buff_dirty i ≡ false
  pub clean :
      (i : ℕ)
      → i < disk_buff_size
      → s.disk_buff i ≢ null
      → s.disk_buff_using i ≡ false
      → s.disk_buff_dirty i ≡ false
      → s.pages (s.disk_buff i)
        ≡ card.sd_card_read (block_offset card s (s.disk_buff_block_id i)) s.content

-- The file system sees the content `w` in the block `b`: in the buffer that has it, else on the card.
pub record Sees (card : SdCard) (s : Disk card) (b : ℕ) (w : Words) : Type 0 where
  pub buffered :
      (i : ℕ)
      → i < disk_buff_size
      → s.disk_buff i ≢ null
      → s.disk_buff_block_id i ≡ b
      → s.pages (s.disk_buff i) ≡ w
  pub stored :
      ((i : ℕ) → i < disk_buff_size → s.disk_buff i ≢ null → s.disk_buff_block_id i ≢ b)
      → card.sd_card_read (block_offset card s b) s.content ≡ w

-- Every block of the partition is seen as before.
abbrev pub SeesAll : (card : SdCard) → ℕ → Disk card → Disk card → Type 0
SeesAll card n s s' = (b : ℕ) (w : Words) → b < n → Sees card s b w → Sees card s' b w
