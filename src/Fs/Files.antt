-- ===== src/Fs/Files.antt =====
-- fs/fs.c: open files. The offset of a file is a natural number. A buffer of the caller is a map from an
-- index to a byte. `write`, `read`, `seek` and `close` have no `return`, and give nothing.
pub mod Chunks
pub mod Transfer
pub mod Store
pub mod RoundTrip
use ucas_operating_system_la.Base.{
  ℕ, zero, suc, ◌+◌, ◌-◌, ◌*◌, ◌/◌, ◌%◌, ◌^◌, Bool, true, false, bnot, Option, none, some, List, [],
  ◌∷◌, ◌==◌, ltb, if◌then◌else◌, put, find_from,
}
use ucas_operating_system_la.Base.Run.{Cmd, pure, fault, ◌>>=◌, ◌>>◌}
use ucas_operating_system_la.Queue.{null}
use ucas_operating_system_la.Memory.{Addr, alloc_page, free_page}
use ucas_operating_system_la.Bitmap.{Words}
use ucas_operating_system_la.Disk.{SdCard, Disk, block_size, block_get, block_commit}
use ucas_operating_system_la.Blocks.{get_page, set_page}
use ucas_operating_system_la.Fs.{
  Fs, File, Inode, on_disk, get_fs, change_fs, get_inode, put_inode, get_byte, put_byte,
  inode_in_block, inodes_per_block, max_files, global_max_files, minus_one,
}
use ucas_operating_system_la.Fs.Lookup.{do_find}
use ucas_operating_system_la.Fs.DataBlock.{find_data_block}

-- `memcpy(data_block + at, buff + from, n)`
pub bytes_in : (n : ℕ) → (buff : ℕ → ℕ) (from at : ℕ) → Words → Words
unfolding put_byte
bytes_in zero buff from at w = w
bytes_in (suc n) buff from at w = bytes_in n buff (suc from) (suc at) (put_byte w at (buff from))

-- `memcpy(buff + to, data_block + at, n)`
pub bytes_out : (n : ℕ) → Words → (at to : ℕ) → (buff : ℕ → ℕ) → ℕ → ℕ
unfolding get_byte
bytes_out zero w at to buff = buff
bytes_out (suc n) w at to buff = bytes_out n w (suc at) (suc to) (put buff to (get_byte w at))

-- `file_end`: the end of the block that holds `file_off`, or the end of what is transferred if that comes
-- first.
pub chunk_end : (start size file_off : ℕ) → ℕ
chunk_end start size file_off =
    let file_end : ℕ = (file_off / block_size + 1) * block_size in
    if ltb (start + size) file_end then start + size else file_end

-- The file behind a pointer that is not NULL.
abbrev pub file_of : ℕ → ℕ
file_of p = p - 1

module _ (card : SdCard) where
  -- What the loop of `write` does with one chunk.
  pub write_chunk : (buff : ℕ → ℕ) (buff_off file_off copy_size : ℕ) → Inode → Cmd (Disk card) Inode
  unfolding bytes_in
  write_chunk buff buff_off file_off copy_size inode = do
    (data_block_id, inode') ← find_data_block card file_off inode
    data_block ← block_get card data_block_id (bnot (copy_size == block_size))
    w ← get_page card data_block
    set_page card data_block (bytes_in copy_size buff buff_off (file_off % block_size) w)
    block_commit card data_block true
    pure inode'

  -- What the loop of `read` does with one chunk.
  pub read_chunk :
      (buff_off file_off copy_size : ℕ) → (ℕ → ℕ) × Inode → Cmd (Disk card) ((ℕ → ℕ) × Inode)
  unfolding bytes_out
  read_chunk buff_off file_off copy_size (buff, inode) = do
    (data_block_id, inode') ← find_data_block card file_off inode
    data_block ← block_get card data_block_id true
    w ← get_page card data_block
    block_commit card data_block false
    pure (bytes_out copy_size w (file_off % block_size) buff_off buff, inode')

  -- The loop `while (buff_off < size)` of `write` and `read`, which starts at the offset `start` of the
  -- file and gives its last offset; `X` is what a pass changes beside the blocks.
  unfoldable pub chunks :
      {X : Type 0}
      → ℕ
      → (start size : ℕ) → ((buff_off file_off copy_size : ℕ) → X → Cmd (Disk card) X)
      → (buff_off file_off : ℕ) → X
      → Cmd (Disk card) (ℕ × X)
  unfolding chunk_end
  chunks zero start size body buff_off file_off x = fault
  chunks (suc n) start size body buff_off file_off x =
      let file_end : ℕ = chunk_end start size file_off in
      let copy_size : ℕ = file_end - file_off in
      if ltb buff_off size
      then (do
        y ← body buff_off file_off copy_size x
        chunks n start size body (buff_off + copy_size) file_end y)
      else pure (file_off, x)

  -- `current_running->files[fd]`, which must be a file.
  abbrev pub get_file : (fd : ℕ) → Cmd (Fs card) (ℕ × File)
  get_file fd s =
      let p : ℕ = s.open_files fd in
      if ltb fd max_files
      then (if p == null then none else some ((file_of p, s.files (file_of p)), s))
      else none

  abbrev pub put_file : ℕ → File → Cmd (Fs card) (Unit {0})
  put_file i f = change_fs λ s. record s { files = put s.files i f }

  pub write : (fd : ℕ) (buff : ℕ → ℕ) (size : ℕ) → Cmd (Fs card) (Unit {0})
  unfolding write_chunk
  write fd buff size = do
    (i, f) ← get_file fd
    (file_off, inode) ←
        on_disk
          (chunks (suc size) f.offset size (λ b o c x. write_chunk buff b o c x) 0 f.offset f.inode)
    put_file i (record f { offset = file_off; inode = inode })

  pub read : (fd : ℕ) (buff : ℕ → ℕ) (size : ℕ) → Cmd (Fs card) (ℕ → ℕ)
  unfolding read_chunk
  read fd buff size = do
    (i, f) ← get_file fd
    (file_off, out) ←
        on_disk (
          chunks (suc size) f.offset size (λ b o c x. read_chunk b o c x) 0 f.offset
            (buff, f.inode))
    put_file i (record f { offset = file_off; inode = out.1 })
    pure out.0

  pub seek : (fd offset : ℕ) → Cmd (Fs card) (Unit {0})
  seek fd offset = do (i, f) ← get_file fd; put_file i (record f { offset = offset })

  pub close : (fd : ℕ) → Cmd (Fs card) (Unit {0})
  close fd = do
    (i, f) ← get_file fd
    fs ← get_fs
    inode_block ← on_disk (block_get card (inode_in_block f.inode_id fs.disk.super_block) true)
    w ← on_disk (get_page card inode_block)
    on_disk (set_page card inode_block (put_inode w (f.inode_id % inodes_per_block) f.inode))
    on_disk (block_commit card inode_block true)
    change_fs (λ s. record s { open_files = put s.open_files fd null })
    put_file i (record f { using = false })

  -- The rest of `open`, once there is a file, a place in the process's table and an inode.
  pub open_file : (file_id fd access inode_id : ℕ) → Cmd (Fs card) ℕ
  open_file file_id fd access inode_id = do
    fs ← get_fs
    inode_block ← on_disk (block_get card (inode_in_block inode_id fs.disk.super_block) true)
    w ← on_disk (get_page card inode_block)
    put_file file_id (record {
      using = true;
      inode_id = inode_id;
      access = access;
      offset = 0;
      inode = get_inode w (inode_id % inodes_per_block);
    })
    on_disk (block_commit card inode_block false)
    change_fs (λ s. record s { open_files = put s.open_files fd (file_id + 1) })
    pure fd

  abbrev pub free_file : Fs card → Option ℕ
  free_file s = find_from (λ i. bnot (s.files i).using) 0 global_max_files

  abbrev pub free_fd : Fs card → Option ℕ
  free_fd s = find_from (λ fd. s.open_files fd == null) 0 max_files

  abbrev open_with : Option ℕ → Option ℕ → (name : List ℕ) (access : ℕ) → Cmd (Fs card) ℕ
  open_with (some file_id) (some fd) name access = do
    inode_id ← do_find card name
    if ltb inode_id (2 ^ 31) then open_file file_id fd access inode_id else pure minus_one
  open_with _ _ name access = pure minus_one

  -- `open`; an inode's number is negative, as an `int`, from 2 ^ 31 on.
  unfoldable pub open_name : (name : List ℕ) (access : ℕ) → Cmd (Fs card) ℕ
  unfolding open_file
  open_name name access s = open_with (free_file s) (free_fd s) name access s

  -- The first bytes that `cat` prints. Its page gets what is read.
  pub cat : (name : List ℕ) → Cmd (Fs card) (ℕ → ℕ)
  unfolding open_name read close
  cat name = do
    fd ← open_name name 1
    fs ← get_fs
    let page = alloc_page fs.disk.page_ctrl_kernel
    change_fs (λ s. record s { disk = record s.disk { page_ctrl_kernel = page.1 } })
    w ← on_disk (get_page card page.0)
    buff ← read fd (get_byte w) 100
    on_disk (set_page card page.0 (bytes_in 100 buff 0 0 w))
    change_fs (λ s. record s {
      disk = record s.disk { page_ctrl_kernel = free_page s.disk.page_ctrl_kernel page.0 };
    })
    close fd
    pure buff

  -- The 64 structures in the page that `files` points to, cleared.
  abbrev no_file : File
  no_file = record {
    using = false;
    inode_id = 0;
    access = 0;
    offset = 0;
    inode = record { type_of = 0; n_links = 0; size = 0; addrs = λ k. 0 };
  }

  pub files_init : Fs card → Fs card
  files_init s = record s {
    disk = record s.disk { page_ctrl_kernel = (alloc_page s.disk.page_ctrl_kernel).1 };
    files = λ i. if ltb i global_max_files then no_file else s.files i;
  }
