-- ===== src/Tests/Disk.antt =====
-- The buffer of disk blocks over a concrete card.
use ucas_operating_system_la.Base.{◌≡◌, ◌<◌, ℕ, Bool, true, false, refl, arith, put}
use ucas_operating_system_la.Base.Run.{Runs}
use ucas_operating_system_la.Memory.{Addr}
use ucas_operating_system_la.Memory.Alloc.{IsValid}
use ucas_operating_system_la.Bitmap.{Words}
use ucas_operating_system_la.Disk.{SdCard, Disk, block_get, block_sink, block_offset}
use ucas_operating_system_la.Disk.Card.{IsSdCard}
use ucas_operating_system_la.Disk.Buffer.{Coherent, Sees}
use ucas_operating_system_la.Disk.Get.{Got, block_get-Got}
use ucas_operating_system_la.Disk.Sink.{block_sink-stores}
use ucas_operating_system_la.Tests.Demo.{demo_ctrl}

-- A card that keeps a block at each offset.
abbrev pub demo_card : SdCard
demo_card = record {
  Content = ℕ → Words;
  sd_card_read = λ o c. c o;
  sd_card_write = λ w o c. put c o w;
}

pub demo-IsSdCard : IsSdCard demo_card
demo-IsSdCard = record { same = λ w o c. ground arith; apart = λ w o p c h. ground arith }

-- The buffer 0 holds the block 7, which was changed, in the page at 0x1000.
abbrev demo_disk : Disk demo_card
demo_disk = record {
  content = λ o i. o;
  start_lba = 8;
  super_block = record {
    magic_num = 0x66666666;
    size = 1000;
    n_inodes = 32768;
    inode_bitmap_start = 2;
    size_inode_bitmap = 1;
    block_bitmap_start = 3;
    size_block_bitmap = 1;
    inode_start = 4;
    size_inode_array = 512;
    data_start = 516;
    n_data_blocks = 484;
  };
  pages = λ a i. a;
  page_ctrl_kernel = demo_ctrl;
  id_next_new_buff = 0;
  disk_buff = put (λ i. 0) 0 0x1000;
  disk_buff_using = λ i. false;
  disk_buff_dirty = put (λ i. false) 0 true;
  disk_buff_block_id = put (λ i. 0) 0 7;
  cnt_dirty_buff = 1;
}

abbrev pub demo_out : Addr → Bool
demo_out = put (λ a. false) 0x1000 true

pub demo-IsValid : IsValid demo_ctrl demo_out
demo-IsValid = record {
  size = omega arith;
  start_whole = refl;
  next_whole = refl;
  start_le = omega arith;
  few = omega arith;
  used_low = λ a h. ground arith;
  used_high = λ a h. ground arith;
  used_whole = λ a h. ground arith;
  free_low = λ i h. omega arith;
  free_high = λ i h. omega arith;
  free_whole = λ i h. refl;
  free_unused = λ i h. refl;
  free_once = λ i j h h' e. omega arith;
}

demo-Coherent : Coherent demo_card 100 demo_out demo_disk
demo-Coherent = record {
  fits = omega arith;
  pages_valid = demo-IsValid;
  real = omega arith;
  next = omega arith;
  held = λ i h f. ground arith;
  apart = λ i j h k f e. ground arith;
  once = λ i j h k f g e. ground arith;
  small = λ i h f. ground arith;
  tidy = λ i h e. ground arith;
  clean = λ i h f u d. absurd (ground arith);
}

-- The block 9 is loaded in place of the block 7, which is written back.
block_get-Got_example : Runs (Got demo_card 100 demo_disk 9) (block_get demo_card 9 true demo_disk)
block_get-Got_example =
    block_get-Got demo_card demo-IsSdCard 100 demo_out demo_disk demo-Coherent 9 (omega arith)
      (omega arith) 3 (omega arith) refl

-- The block 7 is written to the card.
block_sink-stores_example :
    Coherent demo_card 100 demo_out (block_sink demo_card demo_disk)
    × ((b : ℕ) (w : Words)
        → b < 100
        → Sees demo_card demo_disk b w
        → Sees demo_card (block_sink demo_card demo_disk) b w
          × (demo_card.sd_card_read
                (block_offset demo_card (block_sink demo_card demo_disk) b)
                (block_sink demo_card demo_disk).content
              ≡ w))
block_sink-stores_example =
    block_sink-stores demo_card demo-IsSdCard 100 demo_out demo_disk demo-Coherent (λ i h. refl)
