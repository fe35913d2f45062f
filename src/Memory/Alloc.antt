-- ===== src/Memory/Alloc.antt =====
-- The page allocator of mm/memory.c: which pages are out, and that none is handed out twice.
use native.Mathlib.Nat.{div-add-mod}
use ucas_operating_system_la.Base.{
  ℕ, ◌+◌, ◌-◌, ◌*◌, ◌/◌, ◌%◌, ◌^◌, ◌≤◌, ◌<◌, ◌≡◌, refl, Bool, true, false, arith, put, ltb, ltb→lt,
  Bool-cases, inl, inr,
}
use ucas_operating_system_la.Memory.{
  Addr, PageCtrl, max_free_page, page_ctrl_init, alloc_page, free_page,
}

-- `used` says which pages the callers hold. They and the pages on the free list are whole pages of the
-- space given out so far, and no page is in two places.
pub record IsValid (c : PageCtrl) (used : Addr → Bool) : Type 0 where
  pub size : 0 < c.page_size
  pub start_whole : c.start_addr % c.page_size ≡ 0
  pub next_whole : c.next_page_addr % c.page_size ≡ 0
  pub start_le : c.start_addr ≤ c.next_page_addr
  pub few : c.cnt_free_page ≤ max_free_page
  pub used_low : (a : Addr) → used a ≡ true → c.start_addr ≤ a
  pub used_high : (a : Addr) → used a ≡ true → a < c.next_page_addr
  pub used_whole : (a : Addr) → used a ≡ true → a % c.page_size ≡ 0
  pub free_low : (i : ℕ) → i < c.cnt_free_page → c.start_addr ≤ c.free_pages i
  pub free_high : (i : ℕ) → i < c.cnt_free_page → c.free_pages i < c.next_page_addr
  pub free_whole : (i : ℕ) → i < c.cnt_free_page → c.free_pages i % c.page_size ≡ 0
  pub free_unused : (i : ℕ) → i < c.cnt_free_page → used (c.free_pages i) ≡ false
  pub free_once :
      (i j : ℕ)
      → i < c.cnt_free_page
      → j < c.cnt_free_page
      → c.free_pages i ≡ c.free_pages j
      → i ≡ j

next-whole : (a p : ℕ) → 0 < p → a % p ≡ 0 → (a + p) % p ≡ 0
next-whole a p h e = grind arith

whole : (a p : ℕ) → a % p ≡ 0 → a / p * p ≡ a
whole a p h = grind (arith, div-add-mod a p)

-- `page_ctrl_init` over a whole start address leaves no page out.
pub page_ctrl_init-IsValid :
    (c : PageCtrl) (start size : ℕ)
    → 0 < size
    → start % size ≡ 0
    → IsValid (page_ctrl_init c start size) (λ a. false)
unfolding page_ctrl_init
page_ctrl_init-IsValid c start size h e = grind arith

-- The last page on the free list.
reuse :
    (c : PageCtrl) (used : Addr → Bool)
    → IsValid c used
    → 0 < c.cnt_free_page
    → (used (c.free_pages (c.cnt_free_page - 1)) ≡ false)
      × (c.free_pages (c.cnt_free_page - 1) % c.page_size ≡ 0)
      × IsValid
          (record c { cnt_free_page = c.cnt_free_page - 1 })
          (put used (c.free_pages (c.cnt_free_page - 1)) true)
reuse c used v h = grind arith

-- The page behind the space given out so far.
extend :
    (c : PageCtrl) (used : Addr → Bool)
    → IsValid c used
    → c.next_page_addr + c.page_size < 2 ^ 64
    → (used c.next_page_addr ≡ false)
      × (c.next_page_addr % c.page_size ≡ 0)
      × IsValid
          (record c { next_page_addr = (c.next_page_addr + c.page_size) % 2 ^ 64 })
          (put used c.next_page_addr true)
extend c used v h =
    let fresh : used c.next_page_addr ≡ false = elim (Bool-cases (used c.next_page_addr)) [
      | inl old ↦ absurd (omega (arith, v.used_high c.next_page_addr old))
      | inr new ↦ new
    ] in
    let e : (c.next_page_addr + c.page_size) % 2 ^ 64 ≡ c.next_page_addr + c.page_size =
      omega arith in
    let n = next-whole c.next_page_addr c.page_size v.size v.next_whole in rw e (grind arith)

-- When the allocator is valid and the addresses do not wrap, alloc_page returns a whole page that no
-- caller holds and keeps the allocator valid with that page out.
pub alloc_page-IsValid :
    (c : PageCtrl) (used : Addr → Bool)
    → IsValid c used
    → c.next_page_addr + c.page_size < 2 ^ 64
    → (used (alloc_page c).0 ≡ false)
      × ((alloc_page c).0 % c.page_size ≡ 0)
      × IsValid (alloc_page c).1 (put used (alloc_page c).0 true)
unfolding alloc_page
alloc_page-IsValid c used v h = elim (Bool-cases (ltb 0 c.cnt_free_page)) [
  | inl some_free ↦ rw some_free (reuse c used v (ltb→lt _ _ some_free))
  | inr none_free ↦ rw none_free (extend c used v h)
]

-- When the allocator is valid, free_page of a page that is out keeps the allocator valid with the
-- page no longer out; if the list of free pages is not full, it is one longer, the older ones stay
-- in it, and the page is the next to be given out, and if it is full, nothing changes and the page
-- is lost.
pub free_page-IsValid :
    (c : PageCtrl) (used : Addr → Bool) (a : Addr)
    → IsValid c used
    → used a ≡ true
    → IsValid (free_page c a) (put used a false)
      × (c.cnt_free_page < max_free_page
          → ((alloc_page (free_page c a)).0 ≡ a)
            × ((free_page c a).cnt_free_page ≡ c.cnt_free_page + 1)
            × ((i : ℕ) → i < c.cnt_free_page → (free_page c a).free_pages i ≡ c.free_pages i))
      × (max_free_page ≤ c.cnt_free_page → free_page c a ≡ c)
unfolding free_page alloc_page
free_page-IsValid c used a v h =
    let w = whole a c.page_size (v.used_whole a h) in
    (
      grind arith,
      λ l. (ground (arith, w), ground arith, λ i u. ground arith),
      λ l. let full : ltb c.cnt_free_page max_free_page ≡ false = ground arith in rw full refl,
    )

-- Neither moves the space, and freeing a page gives no new page out.
pub alloc_page-space :
    (c : PageCtrl)
    → c.next_page_addr + c.page_size < 2 ^ 64
    → ((alloc_page c).1.next_page_addr ≤ c.next_page_addr + c.page_size)
      × ((alloc_page c).1.page_size ≡ c.page_size)
unfolding alloc_page
alloc_page-space c room = ground arith

pub alloc_page-start : (c : PageCtrl) → (alloc_page c).1.start_addr ≡ c.start_addr
unfolding alloc_page
alloc_page-start c = ground arith

pub free_page-space :
    (c : PageCtrl) (a : Addr)
    → ((free_page c a).start_addr ≡ c.start_addr)
      × ((free_page c a).next_page_addr ≡ c.next_page_addr)
      × ((free_page c a).page_size ≡ c.page_size)
unfolding free_page
free_page-space c a = ground arith
