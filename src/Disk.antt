-- ===== src/Disk.antt =====
-- fs/fs.c, the lower half: the buffer of disk blocks. A block is an array of 32-bit words. The SD card, whose driver is firmware, is a
-- parameter. A search that has no end in the C code, or an uninitialised result, is a fault.
pub mod Card
pub mod Buffer
pub mod Drop
pub mod Get
pub mod Lend
pub mod Borrow
pub mod Edit
pub mod Release
pub mod Rewrite
pub mod Sink
use ucas_operating_system_la.Base.{
  ℕ, zero, suc, ◌+◌, ◌-◌, ◌*◌, ◌/◌, ◌%◌, ◌^◌, Bool, true, false, bnot, ◌&&◌, Option, none, some,
  ◌==◌, ltb, if◌then◌else◌, put, for_loop, find_from,
}
use ucas_operating_system_la.Base.Run.{Cmd, pure, fault, ◌>>=◌, ◌>>◌}
use ucas_operating_system_la.Queue.{null}
use ucas_operating_system_la.Memory.{Addr, PageCtrl, alloc_page, free_page}
use ucas_operating_system_la.Bitmap.{Words, bitmap_check, bitmap_set, bitmap_clear}

abbrev pub disk_buff_size : ℕ
disk_buff_size = 32

abbrev pub sector_size : ℕ
sector_size = 512

abbrev pub block_size : ℕ
block_size = 4096

abbrev pub bits_per_block : ℕ
bits_per_block = block_size * 8

-- `sd_card_read` and `sd_card_write` of one block at a byte offset.
pub record SdCard : Type 1 where
  pub Content : Type 0
  pub sd_card_read : ℕ → Content → Words
  pub sd_card_write : Words → ℕ → Content → Content

-- `super_block_t`
pub record SuperBlock : Type 0 where
  pub magic_num : ℕ
  pub size : ℕ
  pub n_inodes : ℕ
  pub inode_bitmap_start : ℕ
  pub size_inode_bitmap : ℕ
  pub block_bitmap_start : ℕ
  pub size_block_bitmap : ℕ
  pub inode_start : ℕ
  pub size_inode_array : ℕ
  pub data_start : ℕ
  pub n_data_blocks : ℕ

module _ (card : SdCard) where
  -- The globals of fs/fs.c, the kernel's page allocator, the pages behind their addresses, and the card.
  -- `start_lba` is that of the current partition.
  pub record Disk : Type 0 where
    pub content : card.Content
    pub start_lba : ℕ
    pub super_block : SuperBlock
    pub pages : Addr → Words
    pub page_ctrl_kernel : PageCtrl
    pub id_next_new_buff : ℕ
    pub disk_buff : ℕ → Addr
    pub disk_buff_using : ℕ → Bool
    pub disk_buff_dirty : ℕ → Bool
    pub disk_buff_block_id : ℕ → ℕ
    pub cnt_dirty_buff : ℕ

  -- A change of the state that returns nothing.
  abbrev change : (Disk → Disk) → Cmd Disk (Unit {0})
  change f s = some (tt, f s)

  pub disk_buff_init : Disk → Disk
  disk_buff_init s = record s {
    id_next_new_buff = 0;
    disk_buff = λ i. if ltb i disk_buff_size then null else s.disk_buff i;
    disk_buff_dirty = λ i. if ltb i disk_buff_size then false else s.disk_buff_dirty i;
    disk_buff_block_id = λ i. if ltb i disk_buff_size then 0 else s.disk_buff_block_id i;
    disk_buff_using = λ i. if ltb i disk_buff_size then false else s.disk_buff_using i;
    cnt_dirty_buff = 0;
  }

  -- The byte offset of a block, in 32 bits.
  abbrev pub block_offset : Disk → ℕ → ℕ
  block_offset s block_id = (s.start_lba * sector_size + block_id * block_size) % 2 ^ 32

  unfoldable pub block_read : (dest : Addr) (block_id : ℕ) → Disk → Disk
  block_read dest block_id s = record s {
    pages = put s.pages dest (card.sd_card_read (block_offset s block_id) s.content);
  }

  unfoldable pub block_write : (src : Addr) (block_id : ℕ) → Disk → Disk
  block_write src block_id s = record s {
    content = card.sd_card_write (s.pages src) (block_offset s block_id) s.content;
  }

  -- What happens to the block that was in a buffer.
  pub drop_buff : ℕ → Disk → Disk
  unfolding block_write
  drop_buff i s =
      if s.disk_buff i == null
      then s
      else (let s1 : Disk =
            if s.disk_buff_dirty i
            then (let written : Disk = block_write (s.disk_buff i) (s.disk_buff_block_id i) s in
                record written { cnt_dirty_buff = (s.cnt_dirty_buff + 2 ^ 32 - 1) % 2 ^ 32 })
            else s in
          record s1 {
            page_ctrl_kernel = free_page s1.page_ctrl_kernel (s.disk_buff i);
            disk_buff = put s.disk_buff i null;
            disk_buff_dirty = put s.disk_buff_dirty i false;
            disk_buff_block_id = put s.disk_buff_block_id i 0;
          })

  -- A new page for the block, in the buffer `i`, which is empty.
  pub load_buff : (i block_id : ℕ) (do_read : Bool) → Disk → Addr × Disk
  unfolding block_read
  load_buff i block_id do_read s =
      let (page, ctrl) = alloc_page s.page_ctrl_kernel in
      let s1 : Disk = record s {
        page_ctrl_kernel = ctrl;
        disk_buff = put s.disk_buff i page;
        disk_buff_block_id = put s.disk_buff_block_id i block_id;
      } in
      let s2 : Disk =
        if do_read
        then (let filled : Disk = block_read page block_id s1 in
            record filled { disk_buff_dirty = put s1.disk_buff_dirty i false })
        else record s1 {
          disk_buff_dirty = put s1.disk_buff_dirty i true;
          cnt_dirty_buff = (s.cnt_dirty_buff + 1) % 2 ^ 32;
        } in
      (page, record s2 { id_next_new_buff = (s.id_next_new_buff + 1) % disk_buff_size })

  abbrev pub has_block : Disk → ℕ → ℕ → Bool
  has_block s block_id i = s.disk_buff_block_id i == block_id && bnot (s.disk_buff i == null)

  -- The buffer of the block, if it has one.
  abbrev pub find_buff : Disk → ℕ → Option ℕ
  find_buff s block_id = find_from (has_block s block_id) 0 disk_buff_size

  -- The buffer to use next: the first from `id_next_new_buff` on that is not in use.
  abbrev pub victim : Disk → Option ℕ
  victim s =
      find_from (λ k. bnot (s.disk_buff_using (k % disk_buff_size))) s.id_next_new_buff
        disk_buff_size

  abbrev replace : Option ℕ → (block_id : ℕ) (do_read : Bool) → Cmd Disk Addr
  replace none block_id do_read s = none
  replace (some k) block_id do_read s =
      let i : ℕ = k % disk_buff_size in some (load_buff i block_id do_read (drop_buff i s))

  abbrev found : Option ℕ → (block_id : ℕ) (do_read : Bool) → Cmd Disk Addr
  found none block_id do_read s = replace (victim s) block_id do_read s
  found (some i) block_id do_read s =
      some (s.disk_buff i, record s { disk_buff_using = put s.disk_buff_using i true })

  pub block_get : (block_id : ℕ) (do_read : Bool) → Cmd Disk Addr
  unfolding drop_buff load_buff
  block_get block_id do_read s = found (find_buff s block_id) block_id do_read s

  abbrev commit_found : Option ℕ → (do_write : Bool) → Disk → Disk
  commit_found none do_write s = s
  commit_found (some i) do_write s = record s {
    disk_buff_dirty = if do_write then put s.disk_buff_dirty i true else s.disk_buff_dirty;
    disk_buff_using = put s.disk_buff_using i false;
  }

  pub block_commit : (block : Addr) (do_write : Bool) → Cmd Disk (Unit {0})
  block_commit block do_write =
      change λ s. commit_found (find_from (λ i. s.disk_buff i == block) 0 disk_buff_size) do_write s

  -- One pass of the loop of `block_sink`, less what it prints.
  pub sink_step : ℕ → Disk → Disk
  unfolding block_write
  sink_step i s =
      if s.disk_buff_dirty i
      then (let written : Disk = block_write (s.disk_buff i) (s.disk_buff_block_id i) s in
          record written {
            disk_buff_dirty = put s.disk_buff_dirty i false;
            cnt_dirty_buff = (s.cnt_dirty_buff + 2 ^ 32 - 1) % 2 ^ 32;
          })
      else s

  pub block_sink : Disk → Disk
  unfolding sink_step
  block_sink s = for_loop disk_buff_size 0 sink_step s
