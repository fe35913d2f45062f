-- ===== src/Memory/Refill.antt =====
-- The TLB refill and the TLB-invalid handler of mm/memory.c.
use ucas_operating_system_la.Base.{ℕ, ◌+◌, ◌/◌, ◌%◌, ◌^◌, ◌≡◌, ◌≢◌, refl, true, false, arith}
use ucas_operating_system_la.Memory.{
  Addr, Vm, is_valid_pte, pgd_offset, pt_offset, own_table, ensure_page, load_tlb, do_tlb_refill,
  tlb_invalid_handler, alloc_page,
}
use ucas_operating_system_la.Memory.Entry.{pte_at, ensure_page-same, ensure_page-tables}

-- Both handlers do the same, one to its argument, the other to the faulting address.
pub handlers_agree :
    (index : ℕ → ℕ) (pid addr : ℕ) (vm : Vm)
    → tlb_invalid_handler index pid addr vm ≡ do_tlb_refill index pid addr vm
unfolding tlb_invalid_handler do_tlb_refill
handlers_agree index pid addr vm = refl

module _ (addr : Addr) (vm : Vm) where
  own_table-linked :
      let (pt, vm') = own_table addr vm in
      (vm'.pgd vm.current_pgd (pgd_offset addr) ≡ pt) × (vm'.current_pgd ≡ vm.current_pgd)
  unfolding own_table
  own_table-linked = ground arith

  -- The tables of the address space other than the one at `addr` stay, and entries of tables that were
  -- not just allocated too.
  own_table-same :
      (b : Addr)
      → ((i : ℕ) → vm.pgd vm.current_pgd i ≢ (alloc_page vm.page_ctrl_pt).0)
      → ((i : ℕ) → is_valid_pte (vm.pt vm.global_empty_pt i) ≡ false)
      → is_valid_pte (pte_at vm b) ≡ true
      → let (pt, vm') = own_table addr vm in
        (vm'.pgd vm.current_pgd (pgd_offset b) ≡ vm.pgd vm.current_pgd (pgd_offset b))
        × (vm'.pt (vm.pgd vm.current_pgd (pgd_offset b)) (b / 2 ^ 12 % 0x400) ≡ pte_at vm b)
  unfolding own_table
  own_table-same b apart empty valid =
      ground (arith, apart (pgd_offset b), empty (b / 2 ^ 12 % 0x400))

-- The state of the handler before it loads the TLB.
filled : Addr → Vm → Vm
filled addr vm =
    let (pt, vm') = own_table addr vm in
    ensure_page pt (pt_offset addr + 1) (ensure_page pt (pt_offset addr) vm')

refill-filled :
    (index : ℕ → ℕ) (pid addr : ℕ) (vm : Vm)
    → do_tlb_refill index pid addr vm
      ≡ load_tlb index pid addr (own_table addr vm).0 (filled addr vm)
unfolding do_tlb_refill filled
refill-filled index pid addr vm = refl

module _ (addr : Addr) (vm : Vm) where
  filled-same :
      (b : Addr)
      → ((i : ℕ) → vm.pgd vm.current_pgd i ≢ (alloc_page vm.page_ctrl_pt).0)
      → ((i : ℕ) → is_valid_pte (vm.pt vm.global_empty_pt i) ≡ false)
      → is_valid_pte (pte_at vm b) ≡ true
      → pte_at (filled addr vm) b ≡ pte_at vm b
  unfolding filled
  filled-same b apart empty valid =
      let (pt, vm') = own_table addr vm in
      let i : ℕ = pt_offset addr in
      let vm0 : Vm = ensure_page pt i vm' in
      let p : Addr = vm.pgd vm.current_pgd (pgd_offset b) in
      let j : ℕ = b / 2 ^ 12 % 0x400 in
      ground (
        arith,
        own_table-same addr vm b apart empty valid,
        own_table-linked addr vm,
        ensure_page-tables pt i vm',
        ensure_page-tables pt (i + 1) vm0,
        ensure_page-same pt i vm' p j,
        ensure_page-same pt (i + 1) vm0 p j,
      )

-- do_tlb_refill keeps every translation of the address space that was valid, if the allocator hands
-- out no table of this address space and the shared empty table has no valid entry.
pub do_tlb_refill-keeps :
    (index : ℕ → ℕ) (pid addr b : ℕ) (vm : Vm)
    → ((i : ℕ) → vm.pgd vm.current_pgd i ≢ (alloc_page vm.page_ctrl_pt).0)
    → ((i : ℕ) → is_valid_pte (vm.pt vm.global_empty_pt i) ≡ false)
    → is_valid_pte (pte_at vm b) ≡ true
    → pte_at (do_tlb_refill index pid addr vm) b ≡ pte_at vm b
unfolding load_tlb
do_tlb_refill-keeps index pid addr b vm apart empty valid =
    rw (refill-filled index pid addr vm) (filled-same addr vm b apart empty valid)
