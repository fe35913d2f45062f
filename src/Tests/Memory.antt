-- ===== src/Tests/Memory.antt =====
-- The page allocator and the TLB refill on the concrete memory.
use ucas_operating_system_la.Base.{
  ℕ, Bool, true, false, ◌≡◌, ◌≢◌, ◌⊎◌, ◌<◌, ◌≤◌, ◌%◌, refl, arith, put,
}
use ucas_operating_system_la.Memory.{
  alloc_page, free_page, do_tlb_refill, do_page_fault, is_valid_pte, page_of_pte, Vm, Addr,
  max_free_page,
}
use ucas_operating_system_la.Memory.Alloc.{IsValid, alloc_page-IsValid, free_page-IsValid}
use ucas_operating_system_la.Memory.Entry.{pte_at, do_page_fault-maps}
use ucas_operating_system_la.Memory.Refill.{do_tlb_refill-keeps}
use ucas_operating_system_la.Tests.Demo.{demo_ctrl, demo_vm}

-- Of the pages at 0x1000, 0x2000 and 0x3000 the one at 0x2000 is free.
abbrev demo_used : ℕ → Bool
demo_used = put (put (λ a. false) 0x1000 true) 0x3000 true

demo-IsValid : IsValid demo_ctrl demo_used
demo-IsValid = record {
  size = omega arith;
  start_whole = refl;
  next_whole = refl;
  start_le = omega arith;
  few = omega arith;
  used_low = λ a h. ground arith;
  used_high = λ a h. ground arith;
  used_whole = λ a h. ground arith;
  free_low = λ i h. omega arith;
  free_high = λ i h. omega arith;
  free_whole = λ i h. refl;
  free_unused = λ i h. refl;
  free_once = λ i j h h' e. omega arith;
}

alloc_page-IsValid_example :
    (demo_used (alloc_page demo_ctrl).0 ≡ false)
    × ((alloc_page demo_ctrl).0 % 0x1000 ≡ 0)
    × IsValid (alloc_page demo_ctrl).1 (put demo_used (alloc_page demo_ctrl).0 true)
alloc_page-IsValid_example = alloc_page-IsValid demo_ctrl demo_used demo-IsValid (omega arith)

free_page-IsValid_example :
    IsValid (free_page demo_ctrl 0x3000) (put demo_used 0x3000 false)
    × (demo_ctrl.cnt_free_page < max_free_page
        → ((alloc_page (free_page demo_ctrl 0x3000)).0 ≡ 0x3000)
          × ((free_page demo_ctrl 0x3000).cnt_free_page ≡ 2)
          × ((i : ℕ) → i < 1 → (free_page demo_ctrl 0x3000).free_pages i ≡ 0x2000))
    × (max_free_page ≤ demo_ctrl.cnt_free_page → free_page demo_ctrl 0x3000 ≡ demo_ctrl)
free_page-IsValid_example = free_page-IsValid demo_ctrl demo_used 0x3000 demo-IsValid refl

-- A kernel address space with one mapped page, at virtual address 0x400000.
abbrev mapped_vm : Vm
mapped_vm = record demo_vm {
  pgd = put demo_vm.pgd 0x1000 (put (λ i. 0x3000) 1 0x1800);
  pt = put demo_vm.pt 0x1800 (put (λ i. 0) 0 2);
}

do_tlb_refill-keeps_example :
    pte_at (do_tlb_refill (λ hi. 0) 12 0x80_0000 mapped_vm) 0x400000 ≡ pte_at mapped_vm 0x400000
unfolding alloc_page
do_tlb_refill-keeps_example =
    do_tlb_refill-keeps (λ hi. 0) 12 0x80_0000 0x400000 mapped_vm (λ i e. ground arith) (λ i. refl)
      refl

do_page_fault-maps_example :
    let vm' = do_page_fault 0x1800 7 mapped_vm in
    (is_valid_pte (vm'.pt 0x1800 7) ≡ true)
    × (page_of_pte (vm'.pt 0x1800 7) ≡ (alloc_page mapped_vm.page_ctrl_user).0)
    × (vm'.page_ctrl_user ≡ (alloc_page mapped_vm.page_ctrl_user).1)
    × ((p : Addr) (j : ℕ) → (p ≢ 0x1800) ⊎ (j ≢ 7) → vm'.pt p j ≡ mapped_vm.pt p j)
unfolding alloc_page
do_page_fault-maps_example = do_page_fault-maps 0x1800 7 mapped_vm refl (omega arith)
