-- ===== src/Fs/Mount.antt =====
-- fs/fs.c: the partition table, and making, mounting and unmounting the file system of a partition. The
-- messages are left out.
pub mod RoundTrip
use ucas_operating_system_la.Base.{
  ℕ, zero, suc, ◌+◌, ◌-◌, ◌*◌, ◌/◌, ◌%◌, ◌^◌, Bool, true, false, Option, none, some, List, [], ◌∷◌,
  ◌==◌, ltb, if◌then◌else◌, put, fill, for_loop,
}
use ucas_operating_system_la.Base.Run.{Cmd, pure, ◌>>=◌, ◌>>◌}
use ucas_operating_system_la.Memory.{Addr, alloc_page, free_page}
use ucas_operating_system_la.Bitmap.{Words, bitmap_set}
use ucas_operating_system_la.Disk.{
  SdCard, Disk, SuperBlock, bits_per_block, block_read, block_write, block_get, block_commit,
  block_sink,
}
use ucas_operating_system_la.Blocks.{get_page, set_page}
use ucas_operating_system_la.Fs.{
  Fs, DptEntry, File, on_disk, get_fs, change_fs, minus_one, type_dir, inodes_per_block, name_at,
  put_string, put_id,
}

-- `KFS_MAGIC`
abbrev pub kfs_magic : ℕ
kfs_magic = 0x66666666

abbrev pub partition_type : ℕ
partition_type = 0x1a

abbrev pub sector_per_block : ℕ
sector_per_block = 8

-- The fields of the super block in its page.
unfoldable pub get_super_block : Words → SuperBlock
get_super_block w = record {
  magic_num = w 0;
  size = w 1;
  n_inodes = w 2;
  inode_bitmap_start = w 3;
  size_inode_bitmap = w 4;
  block_bitmap_start = w 5;
  size_block_bitmap = w 6;
  inode_start = w 7;
  size_inode_array = w 8;
  data_start = w 9;
  n_data_blocks = w 10;
}

abbrev pub put_super_block : Words → SuperBlock → Words
put_super_block w sb =
    put
      (put
        (put
          (put
            (put
              (put
                (put
                  (put (put (put (put w 0 sb.magic_num) 1 sb.size) 2 sb.n_inodes) 3
                    sb.inode_bitmap_start)
                  4 sb.size_inode_bitmap)
                5 sb.block_bitmap_start)
              6 sb.size_block_bitmap)
            7 sb.inode_start)
          8 sb.size_inode_array)
        9 sb.data_start)
      10 sb.n_data_blocks

-- The super block of a new file system on a partition of `sector_num` sectors.
pub new_super_block : (sector_num : ℕ) → SuperBlock
new_super_block sector_num =
    let size : ℕ = sector_num / sector_per_block in
    let size_block_bitmap : ℕ =
      if size % bits_per_block == 0 then size / bits_per_block else size / bits_per_block + 1 in
    let inode_start : ℕ = 3 + size_block_bitmap in
    let data_start : ℕ = inode_start + bits_per_block / inodes_per_block in
    record {
      magic_num = kfs_magic;
      size = size;
      n_inodes = bits_per_block;
      inode_bitmap_start = 2;
      size_inode_bitmap = 1;
      block_bitmap_start = 3;
      size_block_bitmap = size_block_bitmap;
      inode_start = inode_start;
      size_inode_array = bits_per_block / inodes_per_block;
      data_start = data_start;
      n_data_blocks = (size + 2 ^ 32 - data_start) % 2 ^ 32;
    }

-- Both `bitmap_init_byte(bitmap, BLOCK_SIZE)` and `memset(block, 0, BLOCK_SIZE)`.
abbrev pub clear_block : Words → Words
clear_block w = fill 1024 0 w

-- The inode 0, a directory of one block.
abbrev root_inode : (data_start : ℕ) → Words → Words
root_inode data_start w = put (put (put (put w 0 type_dir) 1 1) 2 1) 3 data_start

-- `.` and `..`
abbrev pub first_entries : (own parent : ℕ) → Words → Words
first_entries own parent w =
    put_id
      (put_string (put_id (put_string w (name_at 0) (46 ∷ [])) 0 own) (name_at 1) (46 ∷ 46 ∷ [])) 1
      parent

module _ {card : SdCard} where
  pub set_partition_table : (id start_sector size : ℕ) → Fs card → Fs card
  set_partition_table id start_sector size s = record s {
    mbr_modified = true;
    disk_partition_table = put s.disk_partition_table id (record {
      status = if id == 0 then 0x80 else 0;
      start_chs = 0xfffffe;
      type_of = partition_type;
      end_chs = 0xfffffe;
      start_lba = start_sector;
      sector_num = size;
    });
  }

  pub clear_partition_table : (id : ℕ) → Fs card → Fs card
  clear_partition_table id s = record s {
    mbr_modified = true;
    disk_partition_table = put s.disk_partition_table id (record {
      status = 0;
      start_chs = 0;
      type_of = 0;
      end_chs = 0;
      start_lba = 0;
      sector_num = 0;
    });
  }

  -- `current_partition = part_id;`
  abbrev pub choose_partition : (part_id : ℕ) → Fs card → Fs card
  choose_partition part_id s = record s {
    current_partition = part_id;
    disk = record s.disk { start_lba = (s.disk_partition_table part_id).start_lba };
  }

  -- `fs_super_block = (void *) alloc_page(&page_ctrl_kernel);`
  abbrev pub alloc_super : Fs card → Fs card
  alloc_super s =
      let (page, ctrl) = alloc_page s.disk.page_ctrl_kernel in
      record s {
        fs_super_block = page;
        disk = record s.disk {
          page_ctrl_kernel = ctrl;
          super_block = get_super_block (s.disk.pages page);
        };
      }

  -- `block_read(fs_super_block, part_id, 1);`
  abbrev pub read_super : Fs card → Fs card
  read_super s =
      let d : Disk card = block_read card s.fs_super_block 1 s.disk in
      record s { disk = record d { super_block = get_super_block (d.pages s.fs_super_block) } }

  abbrev pub free_super : Fs card → Fs card
  free_super s = record s {
    disk = record s.disk { page_ctrl_kernel = free_page s.disk.page_ctrl_kernel s.fs_super_block };
  }

  unfoldable pub mount_file_system : (part_id : ℕ) → Fs card → ℕ × Fs card
  mount_file_system part_id s =
      if s.fs_mounted
      then (minus_one, s)
      else (let s1 : Fs card = read_super (alloc_super (choose_partition part_id s)) in
          if s1.disk.super_block.magic_num == kfs_magic
          then (0, record s1 { fs_mounted = true })
          else (minus_one, free_super s1))

  unfoldable pub unmount_file_system : Fs card → ℕ × Fs card
  unmount_file_system s =
      if s.fs_mounted
      then (let sunk : Disk card = block_sink card s.disk in
          let s1 : Fs card = record s { disk = block_write card s.fs_super_block 1 sunk } in
          (0, record (free_super s1) { fs_mounted = false }))
      else (minus_one, s)

  -- A block that is not read, made anew, and committed.
  pub fresh_block : (block_id : ℕ) → (Words → Words) → Cmd (Disk card) (Unit {0})
  fresh_block block_id make = do
    a ← block_get card block_id false
    w ← get_page card a
    set_page card a (make (clear_block w))
    block_commit card a true

  pub clear_bitmaps : (n block_id : ℕ) → Cmd (Disk card) (Unit {0})
  unfolding fresh_block
  clear_bitmaps zero block_id = pure tt
  clear_bitmaps (suc n) block_id = fresh_block block_id (λ w. w) >> clear_bitmaps n (suc block_id)

  -- The blocks that `init_file_system` fills.
  pub init_blocks : SuperBlock → Cmd (Disk card) (Unit {0})
  unfolding fresh_block clear_bitmaps
  init_blocks sb = do
    fresh_block sb.inode_bitmap_start (λ w. bitmap_set w 0)
    fresh_block sb.block_bitmap_start
        (λ w. for_loop (sb.data_start + 1) 0 (λ i t. bitmap_set t i) w)
    clear_bitmaps (sb.size_block_bitmap - 1) (sb.block_bitmap_start + 1)
    fresh_block sb.inode_start (root_inode sb.data_start)
    fresh_block sb.data_start (first_entries 0 0)

  -- The fields of the super block filled in, and its block written.
  abbrev make_super : Fs card → Fs card
  make_super s =
      let sb : SuperBlock =
        new_super_block (s.disk_partition_table s.current_partition).sector_num in
      let d : Disk card = record s.disk {
        super_block = sb;
        pages =
            put s.disk.pages s.fs_super_block (put_super_block (s.disk.pages s.fs_super_block) sb);
      } in
      record s { disk = block_write card s.fs_super_block 1 d }

  -- The result of the first branch; the function has no `return` at its end.
  pub init_file_system : (part_id : ℕ) → Cmd (Fs card) (Unit {0})
  unfolding new_super_block init_blocks
  init_file_system part_id s =
      if s.fs_mounted
      then some (tt, s)
      else (do
        change_fs (λ t. make_super (alloc_super (choose_partition part_id t)))
        u ← get_fs
        on_disk (init_blocks u.disk.super_block)
        change_fs (λ t. record t { fs_mounted = true }))
          s
