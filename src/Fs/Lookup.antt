-- ===== src/Fs/Lookup.antt =====
-- fs/fs.c: finding the inode of a path. The loops of `do_find`, `do_find_dir` and `do_cd` are the same,
-- but for the name that `do_cd` remembers. The copy of the path is an array of 100 bytes, so that a longer
-- path is a fault. The messages are left out.
pub mod Tree
pub mod Walk
pub mod Find
use ucas_operating_system_la.Base.{
  ℕ, zero, suc, ◌+◌, ◌*◌, ◌%◌, ◌^◌, Bool, true, false, Option, none, some, List, [], ◌∷◌, length,
  ◌==◌, ltb, if◌then◌else◌,
}
use ucas_operating_system_la.Base.Run.{Cmd, pure, fault, ◌>>=◌, ◌>>◌}
use ucas_operating_system_la.Memory.{Addr}
use ucas_operating_system_la.Bitmap.{Words}
use ucas_operating_system_la.Disk.{SdCard, Disk, block_get, block_commit}
use ucas_operating_system_la.Blocks.{get_page, get_super}
use ucas_operating_system_la.Fs.{
  Fs, on_disk, get_fs, change_fs, get_inode, get_id, has_name, is_free_entry, inode_in_block,
  inodes_per_block, dentry_per_block, type_dir, minus_one,
}

-- `char file_name[100]`
abbrev pub max_path : ℕ
max_path = 100

abbrev pub slash : ℕ
slash = 47

-- The loop over `qqq`: the name up to the next `/` or the end, and what stands behind the `/`, if there
-- is one.
unfoldable pub cut : List ℕ → List ℕ × Option (List ℕ)
cut [] = ([], none)
cut (c ∷ cs) = let (name, rest) = cut cs in if c == slash then ([], some cs) else (c ∷ name, rest)

-- How the loop over the entries of a directory ends: an entry has the name, a free entry comes first, or
-- neither.
pub data Searched : Type 0 where
  found : (inode_id : ℕ) → Searched
  missing exhausted : Searched

unfoldable pub search_entries : (n i : ℕ) → Words → (name : List ℕ) → Searched
search_entries zero i w name = exhausted
search_entries (suc n) i w name =
    let rest = search_entries n (suc i) w name in
    if is_free_entry w i then missing else if has_name w i name then found (get_id w i) else rest

-- What the loop over the path leaves: `inode_id`, `error`, and `dir_name`, which is uninitialised before
-- an entry is found.
pub record Walked : Type 0 where
  pub inode_id : ℕ
  pub error : Bool
  pub dir_name : Option (List ℕ)

abbrev stepped : Searched → (name : List ℕ) → Walked → Walked
stepped (found id) name x = record { inode_id = id; error = false; dir_name = some name }
stepped missing name x = record x { error = true }
stepped exhausted name x = x

abbrev pub is_empty : List ℕ → Bool
is_empty [] = true
is_empty (c ∷ cs) = false

-- Where the walk starts, and what is left of the path then.
abbrev pub start_of : (cur_dir_inode : ℕ) → List ℕ → ℕ × List ℕ
start_of cur [] = (cur, [])
start_of cur (c ∷ cs) = if c == slash then (0, cs) else (cur, c ∷ cs)

module _ (card : SdCard) where
  -- The directory `inode_id` is read and searched; `none` says that it is no directory. The pages of its
  -- two blocks come back too.
  abbrev searched :
      Bool
      → (inode_block : Addr) → (addr : ℕ) → List ℕ
      → Cmd (Disk card) (Option (Searched × Addr × Addr))
  searched false inode_block addr name = pure none
  searched true inode_block addr name = do
    dir_block ← block_get card addr true
    w ← get_page card dir_block
    pure (some (search_entries dentry_per_block 0 w name, inode_block, dir_block))

  pub search_dir :
      (inode_id : ℕ) (name : List ℕ) → Cmd (Disk card) (Option (Searched × Addr × Addr))
  search_dir inode_id name = do
    sb ← get_super card
    inode_block ← block_get card (inode_in_block inode_id sb) true
    w ← get_page card inode_block
    let inode = get_inode w (inode_id % inodes_per_block)
    searched (inode.type_of == type_dir) inode_block (inode.addrs 0) name

  -- The end of a pass of the loop, once the name has been looked for; `again` makes the other passes.
  abbrev advance :
      Option (Searched × Addr × Addr)
      → (name : List ℕ) (rest : Option (List ℕ))
      → (again : List ℕ → Walked → Cmd (Disk card) Walked) → Walked
      → Cmd (Disk card) Walked
  advance none name rest again x = pure (record x { error = true })
  advance (some (e, inode_block, dir_block)) name none again x = pure (stepped e name x)
  advance (some (e, inode_block, dir_block)) name (some rest) again x =
      if (stepped e name x).error then pure (stepped e name x) else (do
        block_commit card inode_block false
        block_commit card dir_block false
        again rest (stepped e name x))

  -- The loop `while (*ppp)`; each pass shortens the path.
  unfoldable pub walk : ℕ → (path : List ℕ) → Walked → Cmd (Disk card) Walked
  unfolding search_dir cut
  walk zero path x = fault
  walk (suc n) path x = if is_empty path then pure x else (do
    r ← search_dir x.inode_id (cut path).0
    advance r (cut path).0 (cut path).1 (walk n) x)

  pub walk_from : (cur_dir_inode : ℕ) (path : List ℕ) → Cmd (Disk card) Walked
  unfolding walk
  walk_from cur path =
      let p = start_of cur path in
      if ltb (length path) max_path
      then walk max_path p.1 (record { inode_id = p.0; error = false; dir_name = none })
      else fault

  -- Whether an inode is a directory, and the page of its block.
  pub is_dir : (inode_id : ℕ) → Cmd (Disk card) (Bool × Addr)
  is_dir inode_id = do
    sb ← get_super card
    inode_block ← block_get card (inode_in_block inode_id sb) true
    w ← get_page card inode_block
    pure ((get_inode w (inode_id % inodes_per_block)).type_of == type_dir, inode_block)

  pub do_find : (test_file_name : List ℕ) → Cmd (Fs card) ℕ
  do_find test_file_name = do
    fs ← get_fs
    x ← on_disk (walk_from fs.cur_dir_inode test_file_name)
    pure (if x.error then minus_one else x.inode_id)

  pub do_find_dir : (test_file_name : List ℕ) → Cmd (Fs card) ℕ
  do_find_dir test_file_name = do
    fs ← get_fs
    x ← on_disk (walk_from fs.cur_dir_inode test_file_name)
    (dir, inode_block) ← on_disk (is_dir x.inode_id)
    on_disk (block_commit card inode_block false)
    pure (if dir then (if x.error then minus_one else x.inode_id) else minus_one)

  -- The string that `cur_dir_name` becomes; reading `dir_name` uninitialised is a fault.
  abbrev new_name : Walked → Cmd (Fs card) (List ℕ)
  new_name x s =
      if x.inode_id == 0
      then some (slash ∷ [], s)
      else elim x.dir_name [ none ↦ none | some name ↦ some (name, s) ]

  pub do_cd : (test_file_name : List ℕ) → Cmd (Fs card) (Unit {0})
  do_cd test_file_name = do
    fs ← get_fs
    x ← on_disk (walk_from fs.cur_dir_inode test_file_name)
    (dir, inode_block) ← on_disk (is_dir x.inode_id)
    if x.error
        then pure tt
        else if dir
        then (do
          name ← new_name x
          change_fs (λ s. record s { cur_dir_name = name; cur_dir_inode = x.inode_id }))
        else pure tt
    on_disk (block_commit card inode_block false)
