-- ===== src/Fs/Lookup/Tree.antt =====
-- The tree of directories that blocks describe, and paths as lists of names: what the lookups of fs/fs.c
-- are to find.
use ucas_operating_system_la.Base.{
  ℕ, zero, suc, ◌%◌, ◌≤◌, ◌<◌, ◌≡◌, find_from, find_from-some, Option-cases, sym, ap, ◌∙◌, ◌||◌,
  refl, arith, Bool, true, false, Bool-cases, inl, inr, ◌⊎◌, Option, none, some, List, [], ◌∷◌,
  ◌++◌, length, length-append, has, ◌==◌, if◌then◌else◌,
}
use ucas_operating_system_la.Bitmap.{Words}
use ucas_operating_system_la.Disk.{SuperBlock}
use ucas_operating_system_la.Fs.{
  Inode, get_inode, get_id, has_name, is_free_entry, inode_in_block, inodes_per_block,
  dentry_per_block, type_dir,
}
use ucas_operating_system_la.Fs.Lookup.{
  slash, cut, is_empty, Searched, found, missing, exhausted, search_entries,
}

-- A name has a character, and no `/`.
abbrev pub IsName : List ℕ → Type 0
IsName name = (is_empty name ≡ false) × (has slash name ≡ false)

abbrev pub AreNames : List (List ℕ) → Type 0
AreNames [] = Unit
AreNames (name ∷ names) = IsName name × AreNames names

-- The names with `/` between them.
abbrev pub join : List (List ℕ) → List ℕ
join [] = []
join (name ∷ []) = name
join (name ∷ next ∷ names) = name ++ slash ∷ join (next ∷ names)

pub cut-name : (name : List ℕ) → has slash name ≡ false → cut name ≡ (name, none)
unfolding cut
cut-name [] h = refl
cut-name (c ∷ cs) h = ground (arith, cut-name cs)

pub cut-append :
    (name rest : List ℕ) → has slash name ≡ false → cut (name ++ slash ∷ rest) ≡ (name, some rest)
unfolding cut
cut-append [] rest h = ground arith
cut-append (c ∷ cs) rest h = ground (arith, cut-append cs rest)

pub is_empty-join :
    (name : List ℕ) (names : List (List ℕ))
    → is_empty name ≡ false
    → is_empty (join (name ∷ names)) ≡ false
is_empty-join [] names h = absurd (ground arith)
is_empty-join (c ∷ cs) [] h = refl
is_empty-join (c ∷ cs) (next ∷ names) h = refl

-- There are no more names than characters.
pub length-join : (names : List (List ℕ)) → AreNames names → length names ≤ length (join names)
length-join [] h = omega arith
length-join ([] ∷ names) h = absurd (ground arith)
length-join ((c ∷ cs) ∷ []) h = omega arith
length-join ((c ∷ cs) ∷ next ∷ names) h =
    omega (arith, length-join (next ∷ names) h.1, length-append cs (slash ∷ join (next ∷ names)))

-- The first entry of a directory that has the name or is free.
abbrev pub entry_of : Words → List ℕ → Option ℕ
entry_of w name = find_from (λ k. is_free_entry w k || has_name w k name) 0 dentry_per_block

-- Where that entry leads from `i`: nowhere if it is free. A directory without such an entry leads back
-- to itself.
abbrev pub leads_to : Words → Option ℕ → ℕ → Option ℕ
leads_to w none i = some i
leads_to w (some k) i = if is_free_entry w k then none else some (get_id w k)

module _ (content : ℕ → Words) (sb : SuperBlock) where
  abbrev pub inode_at : ℕ → Inode
  inode_at i = get_inode (content (inode_in_block i sb)) (i % inodes_per_block)

  abbrev pub is_dir_at : ℕ → Bool
  is_dir_at i = (inode_at i).type_of == type_dir

  -- The block of the entries of the directory `i`.
  abbrev pub entries_of : ℕ → Words
  entries_of i = content ((inode_at i).addrs 0)

  -- The blocks of the inodes and of the directories are on the partition, and an entry that is not free
  -- leads to an inode.
  pub record IsTree (n : ℕ) : Type 0 where
    pub inodes : (i : ℕ) → i < sb.n_inodes → inode_in_block i sb < n
    pub blocks : (i : ℕ) → i < sb.n_inodes → is_dir_at i ≡ true → (inode_at i).addrs 0 < n
    pub entries :
        (i j : ℕ)
        → i < sb.n_inodes
        → is_dir_at i ≡ true
        → j < dentry_per_block
        → is_free_entry (entries_of i) j ≡ false
        → get_id (entries_of i) j < sb.n_inodes

  abbrev pub child : List ℕ → ℕ → Option ℕ
  child name i =
      if is_dir_at i then leads_to (entries_of i) (entry_of (entries_of i) name) i else none

  -- The inode to which the names lead from `i`, if they do.
  abbrev pub follow : List (List ℕ) → ℕ → Option ℕ
  follow [] i = some i
  follow (name ∷ names) i = elim (child name i) [ none ↦ none | some j ↦ follow names j ]

pub Searched-cases : (e : Searched) → ((j : ℕ) × (e ≡ found j)) ⊎ ((e ≡ missing) ⊎ (e ≡ exhausted))
Searched-cases (found j) = inl (j, refl)
Searched-cases missing = inr (inl refl)
Searched-cases exhausted = inr (inr refl)

-- What the loop over the entries finds, as a step from `i`.
abbrev next_of : Searched → ℕ → Option ℕ
next_of (found j) i = some j
next_of missing i = none
next_of exhausted i = some i

search_entries-leads :
    (m lo : ℕ) (w : Words) (name : List ℕ) (i : ℕ)
    → next_of (search_entries m lo w name) i
      ≡ leads_to w (find_from (λ k. is_free_entry w k || has_name w k name) lo m) i
unfolding search_entries find_from
search_entries-leads zero lo w name i = refl
search_entries-leads (suc m) lo w name i = elim (Bool-cases (is_free_entry w lo)) [
  | inl f ↦ rw (f, f) refl
  | inr f ↦ elim (Bool-cases (has_name w lo name)) [
    | inl h ↦ rw (f, h, f) refl
    | inr h ↦ rw (f, h) (search_entries-leads m (suc lo) w name i)
  ]
]

-- The names lead from inodes to inodes.
pub child-lt :
    (content : ℕ → Words) (sb : SuperBlock) (n : ℕ)
    → IsTree content sb n
    → (name : List ℕ) (i j : ℕ) → i < sb.n_inodes
    → child content sb name i ≡ some j
    → j < sb.n_inodes
child-lt content sb n tree name i j hi e = elim (Bool-cases (is_dir_at content sb i)) [
  | inr f ↦ absurd (ground arith)
  | inl d ↦
      let w : Words = entries_of content sb i in
      elim (Option-cases (entry_of w name)) [
        | inl none_left ↦ ground arith
        | inr (k, f) ↦ elim (Bool-cases (is_free_entry w k)) [
          | inl free ↦ absurd (ground arith)
          | inr kept ↦
              let (lo, k_lt, test) =
                find_from-some (λ m. is_free_entry w m || has_name w m name) 0 dentry_per_block k
                  f in
              ground (arith, tree.entries i k hi d)
        ]
      ]
]

-- How the names go on from each result of the search.
module _ (content : ℕ → Words) (sb : SuperBlock) (name : List ℕ) (names : List (List ℕ))
    (i : ℕ) where
  pub follow-file : is_dir_at content sb i ≡ false → follow content sb (name ∷ names) i ≡ none
  follow-file d = rw (d, follow) refl

  module _ (d : is_dir_at content sb i ≡ true) where
    abbrev searched : Searched
    searched = search_entries dentry_per_block 0 (entries_of content sb i) name

    pub child-search_entries : (e : Searched) → searched ≡ e → child content sb name i ≡ next_of e i
    child-search_entries e g = rw d (
        sym (search_entries-leads dentry_per_block 0 (entries_of content sb i) name i)
        ∙ ap (λ (u : Searched). next_of u i) g)

    pub follow-found :
        (j : ℕ)
        → searched ≡ found j
        → follow content sb (name ∷ names) i ≡ follow content sb names j
    follow-found j e = rw (child-search_entries (found j) e, follow) refl

    pub follow-missing : searched ≡ missing → follow content sb (name ∷ names) i ≡ none
    follow-missing e = rw (child-search_entries missing e, follow) refl

    pub follow-exhausted :
        searched ≡ exhausted → follow content sb (name ∷ names) i ≡ follow content sb names i
    follow-exhausted e = rw (child-search_entries exhausted e, follow) refl
