-- ===== src/Blocks.antt =====
-- fs/fs.c: the bitmaps that say which inodes and data blocks are taken, through the buffer of disk
-- blocks. A search that finds nothing leaves its result uninitialised in the C code, and is a fault.
pub mod Inodes
use ucas_operating_system_la.Base.{
  ℕ, zero, suc, ◌+◌, ◌-◌, ◌/◌, ◌%◌, true, false, bnot, Option, none, some, ◌==◌, if◌then◌else◌, put,
  find_from,
}
use ucas_operating_system_la.Base.Run.{Cmd, pure, fault, ◌>>=◌, ◌>>◌}
use ucas_operating_system_la.Memory.{Addr}
use ucas_operating_system_la.Bitmap.{Words, bitmap_check, bitmap_set, bitmap_clear}
use ucas_operating_system_la.Disk.{
  SdCard, SuperBlock, Disk, bits_per_block, block_get, block_commit,
}

module _ (card : SdCard) where
  -- The words of a page, and a change of them.
  abbrev pub get_page : Addr → Cmd (Disk card) Words
  get_page a s = some (s.pages a, s)

  abbrev pub set_page : Addr → Words → Cmd (Disk card) (Unit {0})
  set_page a w s = some (tt, record s { pages = put s.pages a w })

  abbrev pub get_super : Cmd (Disk card) SuperBlock
  get_super s = some (s.super_block, s)

  abbrev take_inode : Option ℕ → Addr → Words → Cmd (Disk card) ℕ
  take_inode none a w = fault
  take_inode (some id) a w = set_page a (bitmap_set w id) >> block_commit card a true >> pure id

  unfoldable pub alloc_inode : Cmd (Disk card) ℕ
  alloc_inode = do
    sb ← get_super
    inode_bitmap ← block_get card sb.inode_bitmap_start true
    w ← get_page inode_bitmap
    take_inode (find_from (λ i. bnot (bitmap_check w i)) 0 bits_per_block) inode_bitmap w

  unfoldable pub free_inode : ℕ → Cmd (Disk card) (Unit {0})
  free_inode inode_id = do
    sb ← get_super
    inode_bitmap ← block_get card sb.inode_bitmap_start true
    w ← get_page inode_bitmap
    set_page inode_bitmap (bitmap_clear w inode_id)
    block_commit card inode_bitmap true

  -- The bitmap block for the data block `i`: the next one when the current one does not cover it.
  pub bitmap_block_for : (i bitmap_block_id : ℕ) (block_bitmap : Addr) → Cmd (Disk card) (ℕ × Addr)
  bitmap_block_for i bitmap_block_id block_bitmap = do
    sb ← get_super
    if i / bits_per_block + sb.block_bitmap_start == bitmap_block_id
        then pure (bitmap_block_id, block_bitmap)
        else (do
          block_commit card block_bitmap false
          b ← block_get card (bitmap_block_id + 1) true
          pure (bitmap_block_id + 1, b))

  pub alloc_data_from : (n i bitmap_block_id : ℕ) (block_bitmap : Addr) → Cmd (Disk card) ℕ
  unfolding bitmap_block_for
  alloc_data_from zero i bitmap_block_id block_bitmap = fault
  alloc_data_from (suc n) i bitmap_block_id block_bitmap = do
    (id, b) ← bitmap_block_for i bitmap_block_id block_bitmap
    w ← get_page b
    if bitmap_check w (i % bits_per_block)
        then alloc_data_from n (suc i) id b
        else (do set_page b (bitmap_set w (i % bits_per_block)); block_commit card b true; pure i)

  unfoldable pub alloc_data_block : Cmd (Disk card) ℕ
  unfolding alloc_data_from
  alloc_data_block = do
    sb ← get_super
    block_bitmap ← block_get card sb.block_bitmap_start true
    alloc_data_from (sb.size - sb.data_start) sb.data_start sb.block_bitmap_start block_bitmap

  unfoldable pub free_data_block : ℕ → Cmd (Disk card) (Unit {0})
  free_data_block data_block_id = do
    sb ← get_super
    block_bitmap ← block_get card (data_block_id / bits_per_block + sb.block_bitmap_start) true
    w ← get_page block_bitmap
    set_page block_bitmap (bitmap_clear w (data_block_id % bits_per_block))
    block_commit card block_bitmap true
