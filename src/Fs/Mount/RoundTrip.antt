-- ===== src/Fs/Mount/RoundTrip.antt =====
-- A file system of fs/fs.c that is unmounted can be mounted again.
use ucas_operating_system_la.Base.{
  ℕ, ◌+◌, ◌*◌, ◌%◌, ◌^◌, ◌<◌, ◌≡◌, ◌≢◌, refl, ◌∙◌, sym, ap, Bool, true, false, ==_iff, ==_refl,
  ==_ne,
}
use ucas_operating_system_la.Memory.{Addr, alloc_page}
use ucas_operating_system_la.Bitmap.{Words}
use ucas_operating_system_la.Disk.{
  SdCard, Disk, SuperBlock, disk_buff_size, sector_size, block_size, block_offset, block_read,
  block_write, block_sink,
}
use ucas_operating_system_la.Disk.Card.{IsSdCard, read-write}
use ucas_operating_system_la.Disk.Buffer.{Coherent, Sees}
use ucas_operating_system_la.Disk.Sink.{block_sink-stores, block_sink-keeps}
use ucas_operating_system_la.Fs.{Fs}
use ucas_operating_system_la.Fs.Mount.{
  kfs_magic, get_super_block, choose_partition, alloc_super, read_super, free_super,
  mount_file_system, unmount_file_system,
}

-- A mounted file system: its super block is in its page, and its partition is that of the table.
pub record IsMounted (card : SdCard) (s : Fs card) : Type 0 where
  pub mounted : s.fs_mounted ≡ true
  pub super : s.disk.super_block ≡ get_super_block (s.disk.pages s.fs_super_block)
  pub magic : s.disk.super_block.magic_num ≡ kfs_magic
  pub lba : s.disk.start_lba ≡ (s.disk_partition_table s.current_partition).start_lba

-- Mounting a partition whose super block `w` is in order.
module _ (card : SdCard) (part_id : ℕ) (w : Words) (t : Fs card) (mounted : t.fs_mounted ≡ false)
    (read : card.sd_card_read (block_offset card (choose_partition part_id t).disk 1) t.disk.content
      ≡ w)
    (magic : (get_super_block w).magic_num ≡ kfs_magic) where
  abbrev loaded : Fs card
  loaded = read_super (alloc_super (choose_partition part_id t))

  loaded-super : loaded.disk.super_block ≡ get_super_block w
  unfolding block_read
  loaded-super =
      let p : Addr = (alloc_page t.disk.page_ctrl_kernel).0 in
      rw (==_refl p) (ap get_super_block read)

  mount_lem : mount_file_system part_id t ≡ (0, record loaded { fs_mounted = true })
  unfolding mount_file_system
  mount_lem =
      rw
        (
          mounted,
          (==_iff loaded.disk.super_block.magic_num kfs_magic).1
              (ap (λ (u : SuperBlock). u.magic_num) loaded-super ∙ magic),
        )
        refl

  loaded-content :
      (loaded.disk.content ≡ t.disk.content)
      × (loaded.disk.start_lba ≡ (t.disk_partition_table part_id).start_lba)
  unfolding block_read
  loaded-content = (refl, refl)

module _ (card : SdCard) (law : IsSdCard card) (n : ℕ) (used : Addr → Bool) (s : Fs card)
    (m : IsMounted card s) (v : Coherent card n used s.disk)
    (idle : (i : ℕ) → i < disk_buff_size → s.disk.disk_buff_using i ≡ false) (room : 1 < n) where
  -- What the card has after the file system is unmounted.
  abbrev unmounted : Fs card
  unmounted = (unmount_file_system s).1

  abbrev again : Fs card
  again = (mount_file_system s.current_partition unmounted).1

  abbrev sunk : Disk card
  sunk = block_sink card s.disk

  -- The state that unmounting leaves.
  abbrev closed : Fs card
  closed =
      let s1 : Fs card = record s { disk = block_write card s.fs_super_block 1 sunk } in
      record (free_super s1) { fs_mounted = false }

  unmount_lem : unmount_file_system s ≡ (0, closed)
  unfolding unmount_file_system
  unmount_lem = rw m.mounted refl

  -- The offset of a block is the same before and after.
  offset_same :
      (b : ℕ)
      → block_offset card (choose_partition s.current_partition closed).disk b
        ≡ block_offset card sunk b
  offset_same b =
      let (kp, ks, kl) = block_sink-keeps card law n used s.disk v in
      ap (λ (l : ℕ). (l * sector_size + b * block_size) % 2 ^ 32) (sym m.lba ∙ sym kl)

  abbrev super_page : Words
  super_page = sunk.pages s.fs_super_block

  super_page-same : get_super_block super_page ≡ s.disk.super_block
  super_page-same =
      let (kp, ks, kl) = block_sink-keeps card law n used s.disk v in
      ap (λ (u : Addr → Words). get_super_block (u s.fs_super_block)) kp ∙ sym m.super

  read_back :
      card.sd_card_read
        (block_offset card (choose_partition s.current_partition closed).disk 1)
        closed.disk.content
      ≡ super_page
  unfolding block_write
  read_back =
      ap (λ (o : ℕ). card.sd_card_read o closed.disk.content) (offset_same 1)
      ∙ law.same super_page (block_offset card sunk 1) sunk.content

  magic_kept : (get_super_block super_page).magic_num ≡ kfs_magic
  magic_kept = ap (λ (u : SuperBlock). u.magic_num) super_page-same ∙ m.magic

  abbrev opened : Fs card
  opened = loaded card s.current_partition super_page closed refl read_back magic_kept

  mount_again :
      mount_file_system s.current_partition unmounted ≡ (0, record opened { fs_mounted = true })
  mount_again =
      ap (λ (x : ℕ × Fs card). mount_file_system s.current_partition x.1) unmount_lem
      ∙ mount_lem card s.current_partition super_page closed refl read_back magic_kept

  -- What the file system saw in a block is on the card.
  on_card :
      (b : ℕ) (w : Words)
      → b < n
      → b ≢ 1
      → Sees card s.disk b w
      → card.sd_card_read (block_offset card opened.disk b) opened.disk.content ≡ w
  unfolding block_write block_read
  on_card b w hb ne see =
      let (sunk_ok, stores) = block_sink-stores card law n used s.disk v idle in
      ap (λ (o : ℕ). card.sd_card_read o closed.disk.content) (offset_same b)
      ∙ read-write card law sunk n b 1 super_page sunk_ok.fits hb room
      ∙ rw (==_ne b 1 ne) ((stores b w hb see).1)

  -- Over a card that reads back what was written, when a file system is mounted, its buffers are
  -- consistent, none is in use, and the partition has a block for the super block, it can be
  -- unmounted and mounted again: both succeed, the super block is the same, and the card has in
  -- every block but that one what the file system saw in it.
  pub mount-unmount :
      ((unmount_file_system s).0 ≡ 0)
      × ((mount_file_system s.current_partition unmounted).0 ≡ 0)
      × (again.fs_mounted ≡ true)
      × (again.disk.super_block ≡ s.disk.super_block)
      × ((b : ℕ) (w : Words)
          → b < n
          → b ≢ 1
          → Sees card s.disk b w
          → card.sd_card_read (block_offset card again.disk b) again.disk.content ≡ w)
  mount-unmount = (
    ap (λ (x : ℕ × Fs card). x.0) unmount_lem,
    ap (λ (x : ℕ × Fs card). x.0) mount_again,
    ap (λ (x : ℕ × Fs card). x.1.fs_mounted) mount_again,
    ap (λ (x : ℕ × Fs card). x.1.disk.super_block) mount_again
        ∙ loaded-super card s.current_partition super_page closed refl read_back magic_kept
        ∙ super_page-same,
    λ b w hb ne see.
        ap (λ (x : ℕ × Fs card). card.sd_card_read (block_offset card x.1.disk b) x.1.disk.content)
          mount_again
        ∙ on_card b w hb ne see,
  )
