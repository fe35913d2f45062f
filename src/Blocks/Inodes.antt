-- ===== src/Blocks/Inodes.antt =====
-- Which inode `alloc_inode` of fs/fs.c takes, and that `free_inode` gives it back.
use ucas_operating_system_la.Base.{
  ℕ, suc, ◌<◌, ◌≡◌, ◌≢◌, refl, sym, ap, arith, Bool, true, false, bnot, [], put, inl, inr,
  Option-cases, find_from, find_from-some, find_from-first, find_from-none,
}
use mathlib.Core.Path.{subst}
use ucas_operating_system_la.Base.Run
use ucas_operating_system_la.Base.Run.{Runs, runs, ◌>>=◌}
use ucas_operating_system_la.Bitmap.{Words, bitmap_check, bitmap_set, bitmap_clear}
use ucas_operating_system_la.Bitmap.Check.{Updates, bitmap-Updates}
use ucas_operating_system_la.Disk.{SdCard, Disk, SuperBlock, bits_per_block, block_get}
use ucas_operating_system_la.Disk.Card.{IsSdCard}
use ucas_operating_system_la.Disk.Release.{Shows}
use ucas_operating_system_la.Disk.Rewrite.{Editable, block_get-Editable}
use ucas_operating_system_la.Blocks.{alloc_inode, free_inode}

module _ (card : SdCard) (law : IsSdCard card) (n : ℕ) (content : ℕ → Words) (sb : SuperBlock)
    (k : ℕ) (s : Disk card) (v : Shows card n content sb (suc k) [] s)
    (hb : sb.inode_bitmap_start < n) where
  -- The bitmap of the inodes, as the file system sees it.
  abbrev inode_map : Words
  inode_map = content sb.inode_bitmap_start

  -- The file system sees the bitmap with the bit `id` as `new`, and all else as before.
  abbrev pub Marked : Bool → ℕ → Disk card → Type 0
  Marked new id t =
      (w : Words) × Updates (λ b. new) inode_map id w
      × Shows card n (put content sb.inode_bitmap_start w) sb k [] t

  got :
      Runs
        (Editable card n content sb k s v sb.inode_bitmap_start true)
        (block_get card s.super_block.inode_bitmap_start true s)
  got =
      subst
        (λ b.
          Runs (Editable card n content sb k s v sb.inode_bitmap_start true)
            (block_get card b true s))
        (ap (λ (u : SuperBlock). u.inode_bitmap_start) (sym v.super))
        (block_get-Editable card n content sb k s v law sb.inode_bitmap_start true hb)

  abbrev is_free : ℕ → Bool
  is_free i = bnot (bitmap_check inode_map i)

  -- Over a card that reads back what was written, when no buffer is in use, the buffers are
  -- consistent, the allocator has a page, the bitmap lies on the partition and some inode is free,
  -- alloc_inode ends, returns the first free one and marks it; the file system sees no other change.
  pub alloc_inode-takes_free :
      (j : ℕ)
      → j < bits_per_block
      → bitmap_check inode_map j ≡ false
      → Runs
          (λ id t.
            (id < bits_per_block)
            × (bitmap_check inode_map id ≡ false)
            × ((i : ℕ) → i < id → bitmap_check inode_map i ≡ true)
            × Marked true id t)
          (alloc_inode card s)
  unfolding alloc_inode
  alloc_inode-takes_free j hj free = Run.bind got λ a t (shown, commit).
      rw (shown refl) (elim (Option-cases (find_from is_free 0 bits_per_block)) [
        | inl e ↦ absurd (ground (arith, find_from-none is_free 0 bits_per_block j e))
        | inr (id, e) ↦
            let (lo, hi, f) = find_from-some is_free 0 bits_per_block id e in
            rw e (
              Run.bind (commit (bitmap_set inode_map id)) λ r u w. runs (
                omega (arith, hi),
                ground arith,
                (λ i h. ground (arith, find_from-first is_free 0 bits_per_block id i e)),
                (bitmap_set inode_map id, (bitmap-Updates inode_map id 0).0, w),
              ))
      ])

  -- Over a card that reads back what was written, when no buffer is in use, the buffers are
  -- consistent, the allocator has a page and the bitmap lies on the partition, free_inode ends and
  -- clears the bit of the inode; the file system sees no other change.
  pub free_inode-Marked : (id : ℕ) → Runs (λ _. Marked false id) (free_inode card id s)
  unfolding free_inode
  free_inode-Marked id = Run.bind got λ a t (shown, commit). rw (shown refl) (
      Run.mono (commit (bitmap_clear inode_map id))
        λ r u w. (bitmap_clear inode_map id, (bitmap-Updates inode_map id 0).1, w))

-- The file system sees `content'`, which differs from `content` at most in how the bitmap of the inodes is
-- written, not in its bits.
abbrev pub SameBits :
    (card : SdCard) (n : ℕ) (content : ℕ → Words) (sb : SuperBlock) (k : ℕ) → Disk card → Type 0
SameBits card n content sb k t =
    (content' : ℕ → Words) × ((b : ℕ) → b ≢ sb.inode_bitmap_start → content' b ≡ content b)
    × ((i : ℕ)
        → bitmap_check (content' sb.inode_bitmap_start) i
          ≡ bitmap_check (content sb.inode_bitmap_start) i)
    × Shows card n content' sb k [] t

-- Over a card that reads back what was written, when no buffer is in use, the buffers are consistent, the
-- allocator has two pages and some inode is free, an inode that is allocated and freed again leaves every
-- bit of the bitmap and every other block as it was.
pub free_inode-alloc_inode :
    (card : SdCard) (law : IsSdCard card) (n : ℕ) (content : ℕ → Words) (sb : SuperBlock) (k : ℕ)
    (s : Disk card)
    → Shows card n content sb (suc (suc k)) [] s
    → sb.inode_bitmap_start < n
    → (j : ℕ) → j < bits_per_block
    → bitmap_check (content sb.inode_bitmap_start) j ≡ false
    → Runs (λ _. SameBits card n content sb k) ((alloc_inode card >>= λ id. free_inode card id) s)
free_inode-alloc_inode card law n content sb k s v hb j hj free =
    Run.bind (alloc_inode-takes_free card law n content sb (suc k) s v hb j hj free)
      λ id t (lt, was, first, (w, up, v')).
        Run.mono
          (free_inode-Marked card law n (put content sb.inode_bitmap_start w) sb k t v' hb id)
          λ r u (w', up', v''). (
            put (put content sb.inode_bitmap_start w) sb.inode_bitmap_start w',
            (λ b ne. ground arith),
            (λ i. ground (arith, up i, up' i)),
            v'',
          )
