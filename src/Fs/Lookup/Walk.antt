-- ===== src/Fs/Lookup/Walk.antt =====
-- The loop over a path in fs/fs.c finds the inode to which the names lead.
use ucas_operating_system_la.Base.{
  ℕ, zero, suc, ◌≤◌, ◌<◌, ◌≡◌, refl, ap, ◌∙◌, sym, arith, true, false, Bool-cases, inl, inr, Option,
  none, some, List, [], ◌∷◌, length, lt→ltb,
}
use ucas_operating_system_la.Base.Run
use ucas_operating_system_la.Base.Run.{Cmd, Runs, runs, ◌>>◌}
use ucas_operating_system_la.Memory.{Addr}
use ucas_operating_system_la.Bitmap.{Words}
use ucas_operating_system_la.Disk.{SdCard, Disk, SuperBlock, block_commit}
use ucas_operating_system_la.Disk.Card.{IsSdCard}
use ucas_operating_system_la.Disk.Release.{
  Shows, get_first-Shows, get_second-Shows, commit-Shows, Shows-swap, Shows-less,
}
use ucas_operating_system_la.Fs.{inode_in_block, dentry_per_block}
use ucas_operating_system_la.Fs.Lookup.{
  found, max_path, Searched, search_entries, Walked, search_dir, walk, start_of, walk_from,
}
use ucas_operating_system_la.Fs.Lookup.Tree.{
  AreNames, join, cut-name, cut-append, is_empty-join, IsTree, is_dir_at, entries_of, follow,
  child-lt, child-search_entries, Searched-cases, follow-file, follow-found, follow-missing,
  follow-exhausted,
}

-- The pages that the loop may take for the names, and `k` more.
abbrev pub room_for : ℕ → List (List ℕ) → ℕ
room_for k [] = k
room_for k (name ∷ names) = suc (suc (room_for k names))

-- What the loop leaves when the names lead to `o`.
abbrev pub Ends : Option ℕ → Walked → Type 0
Ends none x = x.error ≡ true
Ends (some j) x = (x.error ≡ false) × (x.inode_id ≡ j)

module _ (card : SdCard) (law : IsSdCard card) (n : ℕ) (content : ℕ → Words) (sb : SuperBlock)
    (tree : IsTree content sb n) where
  -- With some pages in use, at most two.
  abbrev After : ℕ → Disk card → Type 0
  After k t = (l : List Addr) × (length l ≤ 2) × Shows card n content sb k l t

  -- What one search of a directory leaves.
  abbrev Sought : ℕ → List ℕ → ℕ → Option (Searched × Addr × Addr) → Disk card → Type 0
  Sought i name k r t =
      (p q : Addr) × (r
        ≡ some (search_entries dentry_per_block 0 (entries_of content sb i) name, p, q))
      × Shows card n content sb k (q ∷ p ∷ []) t

  search_dir-Sought :
      (i : ℕ) (name : List ℕ) (k : ℕ) (s : Disk card)
      → i < sb.n_inodes
      → is_dir_at content sb i ≡ true
      → Shows card n content sb (suc (suc k)) [] s
      → Runs (Sought i name k) (search_dir card i name s)
  unfolding search_dir
  search_dir-Sought i name k s hi d v =
      Run.bind
        (get_first-Shows card n content sb (suc k) law s (inode_in_block i s.super_block)
          (rw v.super (tree.inodes i hi)) v)
        λ p s1 (v1, shown).
          rw (shown ∙ ap (λ (u : SuperBlock). content (inode_in_block i u)) v.super, d)
            (Run.bind (get_second-Shows card n content sb k law s1 _ p (tree.blocks i hi d) v1)
              λ q s2 (v2, shown'). rw shown' (runs (p, q, refl, v2)))

  search_dir-none :
      (i : ℕ) (name : List ℕ) (k : ℕ) (s : Disk card)
      → i < sb.n_inodes
      → is_dir_at content sb i ≡ false
      → Shows card n content sb (suc (suc k)) [] s
      → Runs (λ r t. (r ≡ none) × After (suc k) t) (search_dir card i name s)
  unfolding search_dir
  search_dir-none i name k s hi d v =
      Run.bind
        (get_first-Shows card n content sb (suc k) law s (inode_in_block i s.super_block)
          (rw v.super (tree.inodes i hi)) v)
        λ p s1 (v1, shown).
          rw (shown ∙ ap (λ (u : SuperBlock). content (inode_in_block i u)) v.super, d)
            (runs (refl, (p ∷ [], omega arith, v1)))

  -- Both pages are committed, and something else is done.
  release :
      {Q : Walked → Disk card → Type 0} (k : ℕ) (p q : Addr) (t : Disk card)
      {c : Cmd (Disk card) Walked}
      → Shows card n content sb k (q ∷ p ∷ []) t
      → ((u : Disk card) → Shows card n content sb k [] u → Runs Q (c u))
      → Runs Q ((block_commit card p false >> (block_commit card q false >> c)) t)
  release k p q t v next =
      Run.bind
        (commit-Shows card n content sb k p (q ∷ []) t (Shows-swap card n content sb k q p t v))
        λ r u w. Run.bind (commit-Shows card n content sb k q [] u w) λ r' u' w'. next u' w'

  less :
      (k : ℕ) (names : List (List ℕ)) (l : List Addr) (t : Disk card)
      → Shows card n content sb (room_for k names) l t
      → Shows card n content sb k l t
  less k [] l t v = v
  less k (name ∷ names) l t v = less k names l t (
      Shows-less card n content sb (room_for k names) l t
        (Shows-less card n content sb (suc (room_for k names)) l t v))

  abbrev pub Found : ℕ → Option ℕ → Walked → Disk card → Type 0
  Found k o y t = Ends o y × After k t

  walk-follow :
      (k : ℕ) (names : List (List ℕ)) (m : ℕ) (x : Walked) (s : Disk card) (o : Option ℕ)
      → AreNames names
      → length names < m
      → x.error ≡ false
      → x.inode_id < sb.n_inodes
      → follow content sb names x.inode_id ≡ o
      → Shows card n content sb (room_for k names) [] s
      → Runs (Found k o) (walk card m (join names) x s)
  unfolding walk
  walk-follow k names zero x s o a h ok hi f v = absurd (omega (arith, h))
  walk-follow k [] (suc m) x s o a h ok hi f v = rw⁻¹ f (runs ((ok, refl), ([], omega arith, v)))
  walk-follow k (name ∷ []) (suc m) x s o a h ok hi f v =
      rw (is_empty-join name [] a.0.0, cut-name name a.0.1)
        (elim (Bool-cases (is_dir_at content sb x.inode_id)) [
          | inr d ↦ rw (sym f ∙ follow-file content sb name [] x.inode_id d) (
              Run.bind (search_dir-none x.inode_id name k s hi d v) λ r t (e, (l, two, after)).
                rw e (runs (refl, (l, two, Shows-less card n content sb k l t after))))
          | inl d ↦ Run.bind (search_dir-Sought x.inode_id name k s hi d v) λ r t (p, q, e, after).
              let two : After k t = (q ∷ p ∷ [], omega arith, after) in
              elim (Searched-cases
                (search_entries dentry_per_block 0 (entries_of content sb x.inode_id) name)) [
                  | inl (j, g) ↦
                      rw (sym f ∙ follow-found content sb name [] x.inode_id d j g, e, g)
                        (runs ((refl, refl), two))
                  | inr (inl g) ↦
                      rw (sym f ∙ follow-missing content sb name [] x.inode_id d g, e, g)
                        (runs (refl, two))
                  | inr (inr g) ↦
                      rw (sym f ∙ follow-exhausted content sb name [] x.inode_id d g, e, g)
                        (runs ((ok, refl), two))
                ]
        ])
  walk-follow k (name ∷ next ∷ names) (suc m) x s o a h ok hi f v =
      let rest : List (List ℕ) = next ∷ names in
      rw (is_empty-join name rest a.0.0, cut-append name (join rest) a.0.1)
        (elim (Bool-cases (is_dir_at content sb x.inode_id)) [
          | inr d ↦ rw (sym f ∙ follow-file content sb name rest x.inode_id d) (
              Run.bind (search_dir-none x.inode_id name (room_for k rest) s hi d v)
                λ r t (e, (l, two, after)). rw e (
                  runs
                    (refl, (l, two, less k rest l t (Shows-less card n content sb _ l t after)))))
          | inl d ↦
              Run.bind (search_dir-Sought x.inode_id name (room_for k rest) s hi d v)
                λ r t (p, q, e, after).
                  elim (Searched-cases
                    (search_entries dentry_per_block 0 (entries_of content sb x.inode_id) name)) [
                      | inl (j, g) ↦
                          rw (e, g)
                            (release (room_for k rest) p q t after λ u w.
                              walk-follow k rest m _ u o a.1 (omega (arith, h)) refl
                                (child-lt content sb n tree name x.inode_id j hi (
                                  child-search_entries content sb name rest x.inode_id d (found j)
                                    g))
                                (sym (follow-found content sb name rest x.inode_id d j g) ∙ f) w)
                      | inr (inl g) ↦
                          rw (sym f ∙ follow-missing content sb name rest x.inode_id d g, e, g)
                            (runs (refl, (q ∷ p ∷ [], omega arith, less k rest _ t after)))
                      | inr (inr g) ↦
                          rw (e, g, ok)
                            (release (room_for k rest) p q t after λ u w.
                              walk-follow k rest m (record x { error = false }) u o a.1
                                (omega (arith, h)) refl hi
                                (sym (follow-exhausted content sb name rest x.inode_id d g) ∙ f) w)
                    ]
        ])

  pub walk_from-follow :
      (k cur i : ℕ) (path : List ℕ) (names : List (List ℕ)) (s : Disk card)
      → AreNames names
      → length path < max_path
      → start_of cur path ≡ (i, join names)
      → length names ≤ length path
      → i < sb.n_inodes
      → Shows card n content sb (room_for k names) [] s
      → Runs (Found k (follow content sb names i)) (walk_from card cur path s)
  unfolding walk_from
  walk_from-follow k cur i path names s a len e few hi v =
      rw (lt→ltb (length path) max_path len, e)
        (walk-follow k names max_path _ s _ a (omega (arith, len, few)) refl hi refl v)
