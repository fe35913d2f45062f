-- ===== src/Fs/Directory.antt =====
-- fs/fs.c: listing, making and removing the entries of a directory. A search that leaves its result
-- uninitialised is a fault, and so is a new entry in a full directory, which the code writes behind the
-- block.
use ucas_operating_system_la.Base.{
  ℕ, zero, suc, ◌+◌, ◌-◌, ◌*◌, ◌/◌, ◌%◌, true, false, Option, none, some, List, [], ◌∷◌, ◌==◌,
  if◌then◌else◌, put, find_from,
}
use ucas_operating_system_la.Base.Run.{Cmd, pure, fault, ◌>>=◌, ◌>>◌}
use ucas_operating_system_la.Memory.{Addr}
use ucas_operating_system_la.Bitmap.{Words}
use ucas_operating_system_la.Disk.{SdCard, Disk, block_get, block_commit}
use ucas_operating_system_la.Blocks.{
  get_page, set_page, get_super, alloc_inode, free_inode, alloc_data_block, free_data_block,
}
use ucas_operating_system_la.Fs.{
  get_inode, get_id, put_id, has_name, is_free_entry, name_at, get_string, put_string, put_byte,
  get_byte, inode_in_block, inodes_per_block, dentry_per_block, type_dir, type_file,
}
use ucas_operating_system_la.Fs.Mount.{clear_block, first_entries}

-- The names that `do_ls` prints.
pub names_from : (n i : ℕ) → Words → List (List ℕ)
names_from zero i w = []
names_from (suc n) i w =
    let rest = names_from n (suc i) w in
    if is_free_entry w i then [] else get_string (4096 - 64 * i) w (name_at i) ∷ rest

-- How the search for a place for a new entry ends: an entry has the name already, or the index of the
-- first free entry, or there is none.
pub data Place : Type 0 where
  taken : Place
  place : (dir_i : ℕ) → Place
  full : Place

unfoldable pub place_for : (n i : ℕ) → Words → (name : List ℕ) → Place
place_for zero i w name = full
place_for (suc n) i w name =
    let rest = place_for n (suc i) w name in
    if has_name w i name then taken else if is_free_entry w i then place i else rest

-- `memset` of the 64 bytes of an entry.
abbrev pub clear_entry : Words → ℕ → Words
clear_entry w i k = if k / 16 == i then 0 else w k

-- `memcpy` of 64 bytes, byte by byte.
pub copy_bytes : (n : ℕ) → (dest src : ℕ) → Words → Words
unfolding put_byte
copy_bytes zero dest src w = w
copy_bytes (suc n) dest src w = copy_bytes n (suc dest) (suc src) (put_byte w dest (get_byte w src))

-- The last entry before the first free one whose inode is `inode_id`.
pub last_with_id : (n : ℕ) → Words → (inode_id : ℕ) → Option ℕ
last_with_id zero w inode_id = none
last_with_id (suc n) w inode_id =
    let rest = last_with_id n w inode_id in if get_id w n == inode_id then some n else rest

-- What `do_rmdir` does to the parent's entries; both sums `fa_dir_block + …` in its `memcpy` are of
-- bytes. No entry may be without a name.
pub remove_entry : Words → (inode_id : ℕ) → Option Words
remove_entry w inode_id = elim (find_from (is_free_entry w) 0 dentry_per_block) [
  | none ↦ none
  | some end ↦ elim (last_with_id end w inode_id) [
    | none ↦ none
    | some dir_id ↦
        let last_dir_id : ℕ = end - 1 in
        some (
          if dir_id == last_dir_id
          then clear_entry w dir_id
          else clear_entry (copy_bytes 64 dir_id last_dir_id w) last_dir_id)
  ]
]

module _ (card : SdCard) where
  -- The page of the block with an inode, that of the first block that the inode has, and the index of
  -- that block.
  pub open_inode : (inode_id : ℕ) → Cmd (Disk card) (Addr × Addr)
  open_inode inode_id = do
    sb ← get_super card
    inode_block ← block_get card (inode_in_block inode_id sb) true
    w ← get_page card inode_block
    dir_block ← block_get card ((get_inode w (inode_id % inodes_per_block)).addrs 0) true
    pure (inode_block, dir_block)

  pub do_ls : (inode_id : ℕ) → Cmd (Disk card) (List (List ℕ))
  unfolding names_from
  do_ls inode_id = do
    (inode_block, dir_block) ← open_inode inode_id
    w ← get_page card dir_block
    block_commit card inode_block false
    block_commit card dir_block false
    pure (names_from dentry_per_block 0 w)

  -- An entry for a new inode in the parent's block, whose page is committed.
  pub add_entry : (fa_dir_block : Addr) (dir_i : ℕ) (name : List ℕ) → Cmd (Disk card) ℕ
  add_entry fa_dir_block dir_i name = do
    inode_id ← alloc_inode card
    w ← get_page card fa_dir_block
    set_page card fa_dir_block (put_id (put_string w (name_at dir_i) name) dir_i inode_id)
    block_commit card fa_dir_block true
    pure inode_id

  -- The fields `type`, `n_links` and `size` of an inode.
  abbrev put_head : Words → ℕ → (type n_links size : ℕ) → Words
  put_head w i type n_links size =
      put (put (put w (16 * i) type) (16 * i + 1) n_links) (16 * i + 2) size

  pub make_dir :
      (fa_inode_id : ℕ) (name : List ℕ) (fa_inode_block fa_dir_block : Addr)
      → Place
      → Cmd (Disk card) (Unit {0})
  unfolding add_entry
  make_dir fa_inode_id name fa_inode_block fa_dir_block taken = pure tt
  make_dir fa_inode_id name fa_inode_block fa_dir_block full = fault
  make_dir fa_inode_id name fa_inode_block fa_dir_block (place dir_i) = do
    inode_id ← add_entry fa_dir_block dir_i name
    block_commit card fa_inode_block false
    sb ← get_super card
    inode_block ← block_get card (inode_in_block inode_id sb) true
    let offset : ℕ = inode_id % inodes_per_block
    w ← get_page card inode_block
    set_page card inode_block (put_head w offset type_dir 1 1)
    data_block_id ← alloc_data_block card
    w' ← get_page card inode_block
    set_page card inode_block (put w' (16 * offset + 3) data_block_id)
    block_commit card inode_block true
    w0 ← get_page card inode_block
    dir_block ← block_get card ((get_inode w0 offset).addrs 0) false
    d ← get_page card dir_block
    set_page card dir_block (first_entries inode_id fa_inode_id (clear_block d))
    block_commit card dir_block true

  pub do_mkdir : (fa_inode_id : ℕ) (name : List ℕ) → Cmd (Disk card) (Unit {0})
  unfolding open_inode make_dir
  do_mkdir fa_inode_id name = do
    (fa_inode_block, fa_dir_block) ← open_inode fa_inode_id
    w ← get_page card fa_dir_block
    make_dir fa_inode_id name fa_inode_block fa_dir_block (place_for dentry_per_block 0 w name)

  pub make_file :
      (name : List ℕ) (fa_inode_block fa_dir_block : Addr) → Place → Cmd (Disk card) (Unit {0})
  unfolding add_entry
  make_file name fa_inode_block fa_dir_block taken = pure tt
  make_file name fa_inode_block fa_dir_block full = fault
  make_file name fa_inode_block fa_dir_block (place dir_i) = do
    inode_id ← add_entry fa_dir_block dir_i name
    sb ← get_super card
    inode_block ← block_get card (inode_in_block inode_id sb) true
    w ← get_page card inode_block
    set_page card inode_block (put_head w (inode_id % inodes_per_block) type_file 1 0)
    block_commit card inode_block true
    block_commit card fa_inode_block false

  pub do_touch : (fa_inode_id : ℕ) (name : List ℕ) → Cmd (Disk card) (Unit {0})
  unfolding open_inode make_file
  do_touch fa_inode_id name = do
    (fa_inode_block, fa_dir_block) ← open_inode fa_inode_id
    w ← get_page card fa_dir_block
    make_file name fa_inode_block fa_dir_block (place_for dentry_per_block 0 w name)

  abbrev set_or_fault : Addr → Option Words → Cmd (Disk card) (Unit {0})
  set_or_fault a none = fault
  set_or_fault a (some w) = set_page card a w

  -- The data block that is freed is that of the first inode of the block.
  pub do_rmdir : (inode_id : ℕ) → Cmd (Disk card) (Unit {0})
  unfolding open_inode remove_entry
  do_rmdir inode_id = do
    (inode_block, dir_block) ← open_inode inode_id
    d ← get_page card dir_block
    (fa_inode_block, fa_dir_block) ← open_inode (get_id d 1)
    w ← get_page card fa_dir_block
    set_or_fault fa_dir_block (remove_entry w inode_id)
    block_commit card inode_block false
    block_commit card dir_block false
    block_commit card fa_inode_block false
    block_commit card fa_dir_block true
    free_inode card inode_id
    v ← get_page card inode_block
    free_data_block card ((get_inode v 0).addrs 0)
