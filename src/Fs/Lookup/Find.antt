-- ===== src/Fs/Lookup/Find.antt =====
-- `do_find` of fs/fs.c finds the inode to which the names of a path lead.
use ucas_operating_system_la.Base.{
  ℕ, ◌≤◌, ◌<◌, ◌≡◌, refl, arith, Bool, true, false, Option, none, some, List, [], ◌∷◌, length,
  if◌then◌else◌,
}
use ucas_operating_system_la.Base.Run.{Runs, runs}
use ucas_operating_system_la.Memory.{Addr}
use ucas_operating_system_la.Bitmap.{Words}
use ucas_operating_system_la.Disk.{SdCard, SuperBlock}
use ucas_operating_system_la.Disk.Card.{IsSdCard}
use ucas_operating_system_la.Disk.Release.{Shows}
use ucas_operating_system_la.Fs.{Fs, on_disk-bind, minus_one}
use ucas_operating_system_la.Fs.Lookup.{slash, max_path, Walked, start_of, do_find}
use ucas_operating_system_la.Fs.Lookup.Tree.{AreNames, join, length-join, IsTree, follow}
use ucas_operating_system_la.Fs.Lookup.Walk.{room_for, Ends, walk_from-follow}

-- The path with the names, from the root or from the current directory.
abbrev pub path_of : Bool → List (List ℕ) → List ℕ
path_of true names = slash ∷ join names
path_of false names = join names

abbrev pub start_at : Bool → (cur_dir_inode : ℕ) → ℕ
start_at true cur = 0
start_at false cur = cur

start_of-path :
    (absolute : Bool) (cur : ℕ) (names : List (List ℕ))
    → AreNames names
    → start_of cur (path_of absolute names) ≡ (start_at absolute cur, join names)
start_of-path true cur names a = refl
start_of-path false cur [] a = refl
start_of-path false cur ([] ∷ names) a = absurd (ground arith)
start_of-path false cur ((c ∷ cs) ∷ []) a = ground arith
start_of-path false cur ((c ∷ cs) ∷ next ∷ names) a = ground arith

length-path_of :
    (absolute : Bool) (names : List (List ℕ))
    → AreNames names
    → length names ≤ length (path_of absolute names)
length-path_of true names a = omega (arith, length-join names a)
length-path_of false names a = length-join names a

-- The result of a lookup: -1 if it fails.
abbrev pub or_minus_one : Option ℕ → ℕ
or_minus_one none = minus_one
or_minus_one (some i) = i

Ends-result :
    (o : Option ℕ) (x : Walked)
    → Ends o x
    → (if x.error then minus_one else x.inode_id) ≡ or_minus_one o
Ends-result none x e = ground arith
Ends-result (some j) x e = ground arith

module _ (card : SdCard) (law : IsSdCard card) (n : ℕ) (content : ℕ → Words) (sb : SuperBlock)
    (tree : IsTree content sb n) where
  -- Over a card that reads back what was written, when no buffer is in use, the buffers are
  -- consistent, the allocator has two pages for each name, the partition holds a tree of
  -- directories, the current directory is one of its inodes, and the path has fewer than 100
  -- characters and names that are not empty, do_find ends and returns the inode to which the names
  -- lead from the root or from the current directory, or -1 when a name is missing or leads on from
  -- a file, where a directory of 64 entries without the name leads back to itself; the files stay as
  -- they were, and at most two buffers are in use afterwards.
  pub do_find-follow :
      (k : ℕ) (absolute : Bool) (names : List (List ℕ)) (s : Fs card)
      → AreNames names
      → length (path_of absolute names) < max_path
      → start_at absolute s.cur_dir_inode < sb.n_inodes
      → Shows card n content sb (room_for k names) [] s.disk
      → Runs
          (λ r t.
            (r ≡ or_minus_one (follow content sb names (start_at absolute s.cur_dir_inode)))
            × (t ≡ record s { disk = t.disk })
            × ((l : List Addr) × (length l ≤ 2) × Shows card n content sb k l t.disk))
          (do_find card (path_of absolute names) s)
  unfolding do_find
  do_find-follow k absolute names s a len hi v =
      on_disk-bind s _
        (walk_from-follow card law n content sb tree k s.cur_dir_inode
          (start_at absolute s.cur_dir_inode) (path_of absolute names) names s.disk a len
          (start_of-path absolute s.cur_dir_inode names a) (length-path_of absolute names a) hi v)
        λ x d (ends, after). runs (
          Ends-result (follow content sb names (start_at absolute s.cur_dir_inode)) x ends,
          refl,
          after,
        )
