-- ===== src/Fs.antt =====
-- fs/fs.h and the state of fs/fs.c above the buffer of blocks: how inodes and directory entries lie in a
-- block, the partition table, the open files. A block is read as bytes where a string stands in it, the
-- lowest byte of a word first. A string that a caller passes is the list of its bytes; it has no 0.
pub mod Bytes
pub mod Mount
pub mod Directory
pub mod Lookup
pub mod DataBlock
pub mod Files
use ucas_operating_system_la.Base.{
  ℕ, zero, suc, ◌+◌, ◌-◌, ◌*◌, ◌/◌, ◌%◌, ◌^◌, Bool, true, false, List, [], ◌∷◌, Option, none, some,
  ◌==◌, if◌then◌else◌, put,
}
use ucas_operating_system_la.Base.Run
use ucas_operating_system_la.Base.Run.{Cmd, Runs, runs}
use ucas_operating_system_la.Memory.{Addr}
use ucas_operating_system_la.Bitmap.{Words}
use ucas_operating_system_la.Disk.{SdCard, Disk, SuperBlock}

abbrev pub type_file : ℕ
type_file = 1

abbrev pub type_dir : ℕ
type_dir = 2

abbrev pub inodes_per_block : ℕ
inodes_per_block = 64

abbrev pub dentry_per_block : ℕ
dentry_per_block = 64

abbrev pub addr_per_block : ℕ
addr_per_block = 1024

abbrev pub max_files : ℕ
max_files = 32

abbrev pub global_max_files : ℕ
global_max_files = 64

-- The result -1, as 32 bits.
abbrev pub minus_one : ℕ
minus_one = 2 ^ 32 - 1

-- The byte `k` of a block.
pub get_byte : Words → ℕ → ℕ
get_byte w k = w (k / 4) / 256 ^ (k % 4) % 256

pub put_byte : Words → ℕ → ℕ → Words
put_byte w k v = put w (k / 4) (
    w (k / 4) / 256 ^ (k % 4 + 1) * 256 ^ (k % 4 + 1)
    + v % 256 * 256 ^ (k % 4)
    + w (k / 4) % 256 ^ (k % 4))

-- `strcpy` of a string to the byte `k`.
pub put_string : Words → ℕ → List ℕ → Words
unfolding put_byte
put_string w k [] = put_byte w k 0
put_string w k (c ∷ cs) = put_string (put_byte w k c) (suc k) cs

-- The string at the byte `k`, of at most `n` bytes.
pub get_string : ℕ → Words → ℕ → List ℕ
unfolding get_byte
get_string zero w k = []
get_string (suc n) w k =
    let rest = get_string n w (suc k) in if get_byte w k == 0 then [] else get_byte w k ∷ rest

abbrev pub eq_string : List ℕ → List ℕ → Bool
eq_string [] [] = true
eq_string (a ∷ as') (b ∷ bs) = if a == b then eq_string as' bs else false
eq_string _ _ = false

-- `inode_t`
pub record Inode : Type 0 where
  pub type_of : ℕ
  pub n_links : ℕ
  pub size : ℕ
  pub addrs : ℕ → ℕ

-- The inode `i` of a block: 16 words, of which the last 13 are `addrs`.
abbrev pub get_inode : Words → ℕ → Inode
get_inode w i = record {
  type_of = w (16 * i);
  n_links = w (16 * i + 1);
  size = w (16 * i + 2);
  addrs = λ k. w (16 * i + 3 + k);
}

-- `memcpy` of a whole inode.
abbrev pub put_inode : Words → ℕ → Inode → Words
put_inode w i inode k =
    if k / 16 == i
    then (if k % 16 == 0
        then inode.type_of
        else if k % 16 == 1
        then inode.n_links
        else if k % 16 == 2
        then inode.size
        else inode.addrs (k % 16 - 3))
    else w k

-- The fields `name` and `inode_id` of the directory entry `i`: 60 bytes and a word.
abbrev pub name_at : ℕ → ℕ
name_at i = 64 * i

abbrev pub get_id : Words → ℕ → ℕ
get_id w i = w (16 * i + 15)

abbrev pub put_id : Words → ℕ → ℕ → Words
put_id w i id = put w (16 * i + 15) id

-- `strcmp(dir_block[i].name, name) == 0`; a name that runs to the end of the block ends there.
pub has_name : Words → ℕ → List ℕ → Bool
unfolding get_string
has_name w i name = eq_string (get_string (4096 - 64 * i) w (name_at i)) name

-- `dir_block[i].name[0] == 0`
pub is_free_entry : Words → ℕ → Bool
unfolding get_byte
is_free_entry w i = get_byte w (name_at i) == 0

-- `INODE_IN_BLOCK(i, fs_super_block)`
abbrev pub inode_in_block : ℕ → SuperBlock → ℕ
inode_in_block i sb = i / inodes_per_block + sb.inode_start

-- `DPT_entry_t`
pub record DptEntry : Type 0 where
  pub status : ℕ
  pub start_chs : ℕ
  pub type_of : ℕ
  pub end_chs : ℕ
  pub start_lba : ℕ
  pub sector_num : ℕ

-- `file_t`
pub record File : Type 0 where
  pub using : Bool
  pub inode_id : ℕ
  pub access : ℕ
  pub offset : ℕ
  pub inode : Inode

-- The globals of fs/fs.c. `fs_super_block` is the page of the super block, which `disk.super_block`
-- shows; `disk.start_lba` is that of the current partition. `open_files` is `current_running->files`:
-- the file `files[i]` is the pointer i + 1. `cur_dir_name` is the string in that array.
pub record Fs (card : SdCard) : Type 0 where
  pub disk : Disk card
  pub disk_partition_table : ℕ → DptEntry
  pub mbr_modified : Bool
  pub current_partition : ℕ
  pub fs_mounted : Bool
  pub fs_super_block : Addr
  pub cur_dir_inode : ℕ
  pub cur_dir_name : List ℕ
  pub files : ℕ → File
  pub open_files : ℕ → ℕ

module _ {card : SdCard} where
  abbrev pub with_disk : {A : Type 0} → Option (A × Disk card) → Fs card → Option (A × Fs card)
  with_disk none s = none
  with_disk (some (a, d)) s = some (a, record s { disk = d })

  -- A command on the buffer of blocks.
  abbrev pub on_disk : {A : Type 0} → Cmd (Disk card) A → Cmd (Fs card) A
  on_disk c s = with_disk (c s.disk) s

  -- What a command on the buffer leaves goes on in the whole state.
  pub on_disk-bind :
      {A B : Type 0} {P : A → Disk card → Type 0} {Q : B → Fs card → Type 0}
      {r : Option (A × Disk card)} (s : Fs card) (k : A → Cmd (Fs card) B)
      → Runs P r
      → ((a : A) (d : Disk card) → P a d → Runs Q (k a (record s { disk = d })))
      → Runs Q (Run.and_then (with_disk r s) k)
  on_disk-bind s k (runs p) next = next _ _ p

  abbrev pub get_fs : Cmd (Fs card) (Fs card)
  get_fs s = some (s, s)

  abbrev pub change_fs : (Fs card → Fs card) → Cmd (Fs card) (Unit {0})
  change_fs f s = some (tt, f s)
