-- ===== src/Tests/Files.antt =====
-- A small file system on a card: the root has the file `a`, whose bytes are in the block 6.
use ucas_operating_system_la.Base.{
  ◌≡◌, ◌≢◌, ◌<◌, ◌≤◌, ◌+◌, ◌%◌, ◌/◌, ◌^◌, ℕ, Bool, true, false, refl, ap, arith, put, List, [], ◌∷◌,
  length, if◌then◌else◌, ltb, ◌-◌,
}
use ucas_operating_system_la.Base.Run.{Runs, ◌>>=◌}
use ucas_operating_system_la.Memory.{Addr}
use ucas_operating_system_la.Bitmap.{Words, bitmap_check}
use ucas_operating_system_la.Disk.{Disk, SuperBlock, block_offset, bits_per_block}
use ucas_operating_system_la.Disk.Buffer.{Coherent, Sees}
use ucas_operating_system_la.Disk.Release.{Shows}
use ucas_operating_system_la.Blocks.{alloc_inode, free_inode}
use ucas_operating_system_la.Blocks.Inodes.{Marked, alloc_inode-takes_free, free_inode-Marked}
use ucas_operating_system_la.Fs.{Fs, File, Inode}
use ucas_operating_system_la.Fs.Mount.{get_super_block, mount_file_system, unmount_file_system}
use ucas_operating_system_la.Fs.Mount.RoundTrip.{IsMounted, mount-unmount}
use ucas_operating_system_la.Fs.Lookup.{do_find}
use ucas_operating_system_la.Fs.Lookup.Tree.{IsTree, follow}
use ucas_operating_system_la.Fs.Lookup.Find.{path_of, or_minus_one, do_find-follow}
use ucas_operating_system_la.Fs.Files.{write, seek, read}
use ucas_operating_system_la.Fs.Files.Transfer.{IsThere}
use ucas_operating_system_la.Fs.Files.Store.{IsDistinct}
use ucas_operating_system_la.Fs.Files.RoundTrip.{read-write}
use ucas_operating_system_la.Tests.Demo.{demo_ctrl}
use ucas_operating_system_la.Tests.Disk.{demo_card, demo-IsSdCard, demo-IsValid}

-- The super block in its page.
abbrev super_words : Words
super_words = put (put (put (put (λ i. 0) 0 0x66666666) 2 2) 3 2) 7 4

-- The inode 0 is a directory in the block 5, the inode 1 is a file.
abbrev inodes : Words
inodes = put (put (put (put (λ i. 0) 0 2) 3 5) 16 1) 19 6

-- The entry 0 of the root is `a`, with the inode 1.
abbrev root : Words
root = put (put (λ i. 0) 0 97) 15 1

abbrev blocks : ℕ → Words
blocks = put (put (put (λ b i. 0) 1 super_words) 4 inodes) 5 root

abbrev super : SuperBlock
super = record {
  magic_num = 0x66666666;
  size = 0;
  n_inodes = 2;
  inode_bitmap_start = 2;
  size_inode_bitmap = 0;
  block_bitmap_start = 0;
  size_block_bitmap = 0;
  inode_start = 4;
  size_inode_array = 0;
  data_start = 0;
  n_data_blocks = 0;
}

-- All buffers are empty.
abbrev disk : Disk demo_card
disk = record {
  content = λ o. blocks (o / 4096);
  start_lba = 0;
  super_block = super;
  pages = λ a. super_words;
  page_ctrl_kernel = demo_ctrl;
  id_next_new_buff = 0;
  disk_buff = λ i. 0;
  disk_buff_using = λ i. false;
  disk_buff_dirty = λ i. false;
  disk_buff_block_id = λ i. 0;
  cnt_dirty_buff = 0;
}

abbrev out : Addr → Bool
out = put (λ a. false) 0x1000 true

disk-Coherent : Coherent demo_card 100 out disk
disk-Coherent = record {
  fits = omega arith;
  pages_valid = demo-IsValid;
  real = omega arith;
  next = omega arith;
  held = λ i h f. absurd (f refl);
  apart = λ i j h k f e. absurd (f refl);
  once = λ i j h k f g e. absurd (f refl);
  small = λ i h f. absurd (f refl);
  tidy = λ i h e. refl;
  clean = λ i h f u d. absurd (f refl);
}

on_card : (b : ℕ) → b < 100 → disk.content (block_offset demo_card disk b) ≡ blocks b
on_card b h = let e : block_offset demo_card disk b / 4096 ≡ b = omega (arith, h) in ap blocks e

disk-Shows : (k : ℕ) → k < 1000 → Shows demo_card 100 blocks super k [] disk
disk-Shows k h = record {
  used = out;
  coherent = disk-Coherent;
  in_use = λ j g e. absurd (ground arith);
  real = refl;
  sees = λ b g. record { buffered = λ i j f. absurd (f refl); stored = λ z. on_card b g };
  room = omega (arith, h);
  super = refl;
}

abbrev inode_a : Inode
inode_a = record { type_of = 1; n_links = 0; size = 0; addrs = put (λ i. 0) 0 6 }

abbrev file_a : File
file_a = record { using = true; inode_id = 1; access = 3; offset = 1; inode = inode_a }

abbrev fs : Fs demo_card
fs = record {
  disk = disk;
  disk_partition_table = λ i. record {
    status = 0;
    start_chs = 0;
    type_of = 0;
    end_chs = 0;
    start_lba = 0;
    sector_num = 0;
  };
  mbr_modified = false;
  current_partition = 0;
  fs_mounted = true;
  fs_super_block = 0x3000;
  cur_dir_inode = 0;
  cur_dir_name = [];
  files = λ i. file_a;
  open_files = put (λ fd. 0) 3 1;
}

blocks-IsTree : IsTree blocks super 100
blocks-IsTree = record {
  inodes = λ i h. omega (arith, h);
  blocks = λ i h d. ground arith;
  entries = λ i j h d k f. ground arith;
}

fs-IsMounted : IsMounted demo_card fs
unfolding get_super_block
fs-IsMounted = record { mounted = refl; super = refl; magic = refl; lba = refl }

-- The path /a is looked up.
do_find-follow_example :
    Runs
      (λ r t.
        (r ≡ or_minus_one (follow blocks super ((97 ∷ []) ∷ []) 0))
        × (t ≡ record fs { disk = t.disk })
        × ((l : List Addr) × (length l ≤ 2) × Shows demo_card 100 blocks super 5 l t.disk))
      (do_find demo_card (path_of true ((97 ∷ []) ∷ [])) fs)
do_find-follow_example =
    do_find-follow demo_card demo-IsSdCard 100 blocks super blocks-IsTree 5 true ((97 ∷ []) ∷ []) fs
      ((refl, refl), tt) (omega arith) (omega arith) (disk-Shows 7 (omega arith))

a-IsThere : IsThere 100 inode_a 1 3
a-IsThere = record {
  direct = omega arith;
  there = λ i h lo hi. ground arith;
  inside = λ i h lo hi. ground arith;
}

a-IsDistinct : IsDistinct inode_a
a-IsDistinct = λ i j h k ne e. ground arith

-- Two bytes of the file are written and read back.
read-write_example :
    Runs
      (λ r _. (j : ℕ) → r j ≡ (if ltb j 2 then (65 + j) % 256 else 0))
      ((write demo_card 3 (λ j. 65 + j) 2 >>= λ _.
          seek demo_card 3 1 >>= λ _. read demo_card 3 (λ j. 0) 2)
        fs)
read-write_example =
    read-write demo_card demo-IsSdCard 100 super 5 3 2 file_a blocks (λ j. 65 + j) (λ j. 0) fs
      a-IsThere a-IsDistinct (omega arith, omega arith, refl) (disk-Shows 9 (omega arith))

mount-unmount_example :
    ((unmount_file_system fs).0 ≡ 0)
    × ((mount_file_system 0 (unmount_file_system fs).1).0 ≡ 0)
    × ((mount_file_system 0 (unmount_file_system fs).1).1.fs_mounted ≡ true)
    × ((mount_file_system 0 (unmount_file_system fs).1).1.disk.super_block ≡ super)
    × ((b : ℕ) (w : Words)
        → b < 100
        → b ≢ 1
        → Sees demo_card disk b w
        → (mount_file_system 0 (unmount_file_system fs).1).1.disk.content
            (block_offset demo_card (mount_file_system 0 (unmount_file_system fs).1).1.disk b)
          ≡ w)
mount-unmount_example =
    mount-unmount demo_card demo-IsSdCard 100 out fs fs-IsMounted disk-Coherent (λ i h. refl)
      (omega arith)

-- The first free inode is taken.
alloc_inode-takes_free_example :
    Runs
      (λ id t.
        (id < bits_per_block)
        × (bitmap_check (blocks 2) id ≡ false)
        × ((i : ℕ) → i < id → bitmap_check (blocks 2) i ≡ true)
        × Marked demo_card demo-IsSdCard 100 blocks super 5 disk
            (disk-Shows 6 (omega arith))
            (omega arith)
            true
            id
            t)
      (alloc_inode demo_card disk)
unfolding bitmap_check
alloc_inode-takes_free_example =
    alloc_inode-takes_free demo_card demo-IsSdCard 100 blocks super 5 disk
      (disk-Shows 6 (omega arith)) (omega arith) 0 (omega arith) refl

-- No bit is free in a bitmap of ones.
abbrev ones : Words
ones = λ i. 2 ^ 32 - 1

abbrev full_disk : Disk demo_card
full_disk = record disk { content = λ o. put blocks 2 ones (o / 4096) }

full_disk-Coherent : Coherent demo_card 100 out full_disk
full_disk-Coherent = record {
  fits = omega arith;
  pages_valid = demo-IsValid;
  real = omega arith;
  next = omega arith;
  held = λ i h f. absurd (f refl);
  apart = λ i j h k f e. absurd (f refl);
  once = λ i j h k f g e. absurd (f refl);
  small = λ i h f. absurd (f refl);
  tidy = λ i h e. refl;
  clean = λ i h f u d. absurd (f refl);
}

full_disk-Shows : Shows demo_card 100 (put blocks 2 ones) super 6 [] full_disk
full_disk-Shows = record {
  used = out;
  coherent = full_disk-Coherent;
  in_use = λ j g e. absurd (ground arith);
  real = refl;
  sees = λ b g.
      let e : block_offset demo_card disk b / 4096 ≡ b = omega (arith, g) in
      record { buffered = λ i j f. absurd (f refl); stored = λ z. ap (put blocks 2 ones) e };
  room = omega arith;
  super = refl;
}

-- The inode 3 is given back.
free_inode-Marked_example :
    Runs
      (λ _.
        Marked demo_card demo-IsSdCard 100
          (put blocks 2 ones)
          super
          5
          full_disk
          full_disk-Shows
          (omega arith)
          false
          3)
      (free_inode demo_card 3 full_disk)
free_inode-Marked_example =
    free_inode-Marked demo_card demo-IsSdCard 100 (put blocks 2 ones) super 5 full_disk
      full_disk-Shows (omega arith) 3
