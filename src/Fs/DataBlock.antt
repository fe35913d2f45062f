-- ===== src/Fs/DataBlock.antt =====
-- `find_data_block` of fs/fs.c: which block of the disk holds a byte of a file, through the addresses in
-- the inode, the indirect block and the doubly indirect blocks. Missing blocks are allocated.
use ucas_operating_system_la.Base.{
  ℕ, ◌+◌, ◌-◌, ◌*◌, ◌/◌, ◌%◌, Bool, true, false, ◌==◌, ltb, if◌then◌else◌, put,
}
use ucas_operating_system_la.Base.Run.{Cmd, pure, ◌>>=◌, ◌>>◌}
use ucas_operating_system_la.Memory.{Addr}
use ucas_operating_system_la.Disk.{SdCard, Disk, block_size, block_get, block_commit}
use ucas_operating_system_la.Blocks.{get_page, set_page, alloc_data_block}
use ucas_operating_system_la.Fs.{Inode, addr_per_block, minus_one}

module _ (card : SdCard) where
  -- The address `k` of the inode, allocated if it is 0.
  unfoldable pub own_addr : (k : ℕ) → Inode → Cmd (Disk card) (ℕ × Inode)
  own_addr k inode =
      if inode.addrs k == 0
      then (do id ← alloc_data_block card; pure (id, record inode { addrs = put inode.addrs k id }))
      else pure (inode.addrs k, inode)

  -- A new block of addresses: `memset(…, 0, sizeof(BLOCK_SIZE))` clears one word.
  pub new_table : (block_id : ℕ) → Cmd (Disk card) Addr
  new_table block_id = do
    a ← block_get card block_id false
    w ← get_page card a
    set_page card a (put w 0 0)
    pure a

  -- The page of the block of addresses at the address `k` of the inode, made if there is none.
  pub indirect_table : (k : ℕ) → Inode → Cmd (Disk card) (Addr × Inode)
  unfolding new_table
  indirect_table k inode =
      if inode.addrs k == 0
      then (do
        id ← alloc_data_block card
        a ← new_table id
        pure (a, record inode { addrs = put inode.addrs k id }))
      else (do a ← block_get card (inode.addrs k) true; pure (a, inode))

  -- The address `i` in the block of addresses at the page `a`, allocated if it is 0, and whether the page
  -- is changed.
  pub addr_in_table : Addr → (i : ℕ) → Cmd (Disk card) (ℕ × Bool)
  addr_in_table a i = do
    w ← get_page card a
    if w i == 0
        then (do
          id ← alloc_data_block card
          v ← get_page card a
          set_page card a (put v i id)
          pure (id, true))
        else pure (w i, false)

  -- The second block of addresses, by the address `i` in the first, and whether the first is changed.
  pub double_table : Addr → (i : ℕ) → Cmd (Disk card) (Addr × Bool)
  unfolding addr_in_table new_table
  double_table a i = do
    (id, dirty) ← addr_in_table a i
    b ← if dirty then new_table id else block_get card id true
    pure (b, dirty)

  abbrev pub grown : Inode → (i_block : ℕ) → Inode
  grown inode i_block = record inode {
    size = if ltb inode.size (i_block + 1) then i_block + 1 else inode.size;
  }

  unfoldable pub find_data_block : (offset : ℕ) → Inode → Cmd (Disk card) (ℕ × Inode)
  unfolding own_addr indirect_table addr_in_table double_table
  find_data_block offset file_inode =
      let i_block : ℕ = offset / block_size in
      let inode : Inode = grown file_inode i_block in
      if ltb i_block 10
      then own_addr i_block inode
      else if ltb i_block (10 + addr_per_block)
      then (do
        (indirect, inode') ← indirect_table 10 inode
        (id, dirty) ← addr_in_table indirect (i_block - 10)
        block_commit card indirect dirty
        pure (id, inode'))
      else if ltb i_block (10 + addr_per_block + addr_per_block * addr_per_block)
      then (do
        (indirect, inode') ← indirect_table 11 inode
        (double, indirect_dirty) ←
            double_table indirect ((i_block - 10 - addr_per_block) / addr_per_block)
        (id, double_dirty) ← addr_in_table double ((i_block - 10 - addr_per_block) % addr_per_block)
        block_commit card indirect indirect_dirty
        block_commit card double double_dirty
        pure (id, inode'))
      else pure (minus_one, inode)
