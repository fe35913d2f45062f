-- ===== src/Memory/Entry.antt =====
-- Page-table entries and the TLB refill of mm/memory.c.
use ucas_operating_system_la.Base.{
  ℕ, ◌/◌, ◌%◌, ◌^◌, ◌<◌, ◌≡◌, ◌≢◌, ◌⊎◌, refl, true, arith, Bool-cases, inl, inr,
}
use ucas_operating_system_la.Memory.{
  Addr, Vm, entrylo, is_valid_pte, page_of_pte, pgd_offset, do_page_fault, ensure_page, alloc_page,
}

-- When the user allocator's next page is whole and below 2 ^ 36, do_page_fault takes it, writes a
-- valid entry from which reading the page back as free_proc does gives that page, and leaves every
-- other entry of every table.
pub do_page_fault-maps :
    (pt : Addr) (i : ℕ) (vm : Vm)
    → (alloc_page vm.page_ctrl_user).0 % 2 ^ 12 ≡ 0
    → (alloc_page vm.page_ctrl_user).0 < 2 ^ 36
    → let vm' = do_page_fault pt i vm in
      (is_valid_pte (vm'.pt pt i) ≡ true)
      × (page_of_pte (vm'.pt pt i) ≡ (alloc_page vm.page_ctrl_user).0)
      × (vm'.page_ctrl_user ≡ (alloc_page vm.page_ctrl_user).1)
      × ((p : Addr) (j : ℕ) → (p ≢ pt) ⊎ (j ≢ i) → vm'.pt p j ≡ vm.pt p j)
unfolding do_page_fault entrylo
do_page_fault-maps pt i vm w h = (
  ground arith,
  ground arith,
  refl,
  λ p j o. elim o [ inl d ↦ ground arith | inr d ↦ ground arith ],
)

-- The entry that translates a virtual address in the current address space.
abbrev pub pte_at : Vm → Addr → ℕ
pte_at vm addr = vm.pt (vm.pgd vm.current_pgd (pgd_offset addr)) (addr / 2 ^ 12 % 0x400)

pub entrylo-valid : (pfn : ℕ) → is_valid_pte (entrylo pfn 2 1 1 0) ≡ true
unfolding entrylo
entrylo-valid pfn = ground arith

module _ (pt : Addr) (i : ℕ) (vm : Vm) where
  pub ensure_page-valid : is_valid_pte ((ensure_page pt i vm).pt pt i) ≡ true
  unfolding ensure_page do_page_fault
  ensure_page-valid = elim (Bool-cases (is_valid_pte (vm.pt pt i))) [
    | inl old ↦ rw old old
    | inr new ↦ rw new (ground (arith, entrylo-valid ((alloc_page vm.page_ctrl_user).0 / 2 ^ 12)))
  ]

  -- Entries that were valid, and all other entries, stay.
  pub ensure_page-same :
      (p : Addr) (j : ℕ)
      → is_valid_pte (vm.pt p j) ≡ true
      → (ensure_page pt i vm).pt p j ≡ vm.pt p j
  unfolding ensure_page do_page_fault
  ensure_page-same p j h = ground arith

  pub ensure_page-tables :
      ((ensure_page pt i vm).pgd ≡ vm.pgd) × ((ensure_page pt i vm).current_pgd ≡ vm.current_pgd)
  unfolding ensure_page do_page_fault
  ensure_page-tables = ground arith
