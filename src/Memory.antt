-- ===== src/Memory.antt =====
-- mm/memory.c and include/os/mm.h: the page allocator, the two-level page tables and the TLB refill.
-- A page directory and a page table are maps from an entry's index, found by their address. An
-- address is a number below 2 ^ 64; a `&` with a mask of ones is a remainder, a shift a division or a
-- product, and `|` of fields that do not overlap a sum.
pub mod Alloc
pub mod Entry
pub mod Refill
use ucas_operating_system_la.Base.{
  ℕ, zero, suc, ◌+◌, ◌-◌, ◌*◌, ◌/◌, ◌%◌, ◌^◌, Bool, true, false, ◌==◌, ltb, bnot, if◌then◌else◌,
  put, fill,
}

abbrev pub Addr : Type 0
Addr = ℕ

abbrev pub num_entry : ℕ
num_entry = 0x400

abbrev pub pgd_start : Addr
pgd_start = 0xffff_ffff_a100_0000

abbrev pub pt_start : Addr
pt_start = 0xffff_ffff_a110_0000

abbrev pub max_free_page : ℕ
max_free_page = 124

-- `struct PageCtrl`; `free_pages` is the array of 124 addresses.
pub record PageCtrl : Type 0 where
  pub start_addr : Addr
  pub next_page_addr : Addr
  pub page_size : ℕ
  pub cnt_free_page : ℕ
  pub free_pages : ℕ → Addr

pub page_ctrl_init : PageCtrl → Addr → ℕ → PageCtrl
page_ctrl_init page_ctrl start_addr page_size = record page_ctrl {
  start_addr = start_addr;
  next_page_addr = start_addr;
  page_size = page_size;
  cnt_free_page = 0;
}

unfoldable pub alloc_page : PageCtrl → Addr × PageCtrl
alloc_page page_ctrl =
    if ltb 0 page_ctrl.cnt_free_page
    then (
      page_ctrl.free_pages (page_ctrl.cnt_free_page - 1),
      record page_ctrl { cnt_free_page = page_ctrl.cnt_free_page - 1 },
    )
    else (
      page_ctrl.next_page_addr,
      record page_ctrl {
        next_page_addr = (page_ctrl.next_page_addr + page_ctrl.page_size) % 2 ^ 64;
      },
    )

-- `addr / page_size * page_size`; the product of a quotient does not wrap.
pub free_page : PageCtrl → Addr → PageCtrl
free_page page_ctrl addr =
    let addr' : Addr = addr / page_ctrl.page_size * page_ctrl.page_size in
    if ltb page_ctrl.cnt_free_page max_free_page
    then record page_ctrl {
      free_pages = put page_ctrl.free_pages page_ctrl.cnt_free_page addr';
      cnt_free_page = page_ctrl.cnt_free_page + 1;
    }
    else page_ctrl

-- ENTRYHI(r, vpn2, asid) and ENTRYLO(pfn, c, d, v, g).
pub entryhi : ℕ → ℕ → ℕ → ℕ
entryhi r vpn2 asid = r % 4 * 2 ^ 62 + vpn2 % 0x8000000 * 2 ^ 13 + asid % 256

pub entrylo : ℕ → ℕ → ℕ → ℕ → ℕ → ℕ
entrylo pfn c d v g = pfn % 0x1000000 * 2 ^ 6 + c % 8 * 8 + d % 2 * 4 + v % 2 * 2 + g % 2

-- `pte & 0x2`
abbrev pub is_valid_pte : ℕ → Bool
is_valid_pte pte = pte / 2 % 2 == 1

-- `((pte >> 6) & 0xFFFFFF) << 12`
abbrev pub page_of_pte : ℕ → Addr
page_of_pte pte = pte / 2 ^ 6 % 0x1000000 * 2 ^ 12

-- What the last `tlbwr` or `tlbwi` wrote, and how.
pub data TlbWrite : Type 0 where
  not_written tlbwr tlbwi : TlbWrite

-- The memory manager's globals, the tables behind their addresses, and the CP0 registers it sets.
pub record Vm : Type 0 where
  pub page_ctrl_kernel : PageCtrl
  pub page_ctrl_user : PageCtrl
  pub page_ctrl_pgd : PageCtrl
  pub page_ctrl_pt : PageCtrl
  pub current_pgd : Addr
  pub global_empty_pt : Addr
  pub pgd : Addr → ℕ → Addr
  pub pt : Addr → ℕ → ℕ
  pub cp0_entryhi : ℕ
  pub cp0_entrylo0 : ℕ
  pub cp0_entrylo1 : ℕ
  pub tlb : TlbWrite

pub init_page_table : Vm → Vm
unfolding page_ctrl_init alloc_page
init_page_table vm =
    let (empty, pt_ctrl) = alloc_page (page_ctrl_init vm.page_ctrl_pt pt_start 0x2000) in
    record vm {
      page_ctrl_pgd = page_ctrl_init vm.page_ctrl_pgd pgd_start 0x2000;
      page_ctrl_pt = pt_ctrl;
      global_empty_pt = empty;
      pt = put vm.pt empty (λ i. 0);
    }

pub init_pgd : Addr → Vm → Vm
init_pgd pgd vm = record vm { pgd = put vm.pgd pgd (fill num_entry vm.global_empty_pt (λ i. 0)) }

-- The entry that it fills is the one at index `i` of the page table `pt`.
pub do_page_fault : Addr → ℕ → Vm → Vm
unfolding alloc_page entrylo
do_page_fault pt i vm =
    let (phy_addr, ctrl) = alloc_page vm.page_ctrl_user in
    record vm {
      page_ctrl_user = ctrl;
      pt = put vm.pt pt (put (vm.pt pt) i (entrylo (phy_addr / 2 ^ 12) 2 1 1 0));
    }

abbrev pub pgd_offset : Addr → ℕ
pgd_offset addr = addr / 2 ^ 22 % 0x400

-- `(addr >> 12) & 0x3fe`
abbrev pub pt_offset : Addr → ℕ
pt_offset addr = addr / 2 ^ 12 % 0x400 / 2 * 2

-- The page table that serves `addr`: one of its own replaces the shared empty one.
pub own_table : Addr → Vm → Addr × Vm
unfolding alloc_page
own_table addr vm =
    let pt : Addr = vm.pgd vm.current_pgd (pgd_offset addr) in
    if pt == vm.global_empty_pt
    then (let (fresh, ctrl) = alloc_page vm.page_ctrl_pt in
        (
          fresh,
          record vm {
            page_ctrl_pt = ctrl;
            pgd = put vm.pgd vm.current_pgd (put (vm.pgd vm.current_pgd) (pgd_offset addr) fresh);
            pt = put vm.pt fresh (λ i. 0);
          },
        ))
    else (pt, vm)

-- `if (!(*pte & 0x2)) do_page_fault(pte);`
pub ensure_page : Addr → ℕ → Vm → Vm
unfolding do_page_fault
ensure_page pt i vm = if is_valid_pte (vm.pt pt i) then vm else do_page_fault pt i vm

-- The end of the handler: `index` is what `tlbp` leaves in the CP0 index register, whose bit 31 says
-- that no entry matched.
pub load_tlb : (index : ℕ → ℕ) (asid : ℕ) → Addr → Addr → Vm → Vm
unfolding entryhi
load_tlb index asid addr pt vm =
    let hi : ℕ = entryhi 0 (addr / 2 ^ 13) asid in
    record vm {
      cp0_entryhi = hi;
      cp0_entrylo0 = vm.pt pt (pt_offset addr);
      cp0_entrylo1 = vm.pt pt (pt_offset addr + 1);
      tlb = if index hi / 2 ^ 31 % 2 == 1 then tlbwr else tlbwi;
    }

pub do_tlb_refill : (index : ℕ → ℕ) (current_pid : ℕ) → Addr → Vm → Vm
unfolding own_table ensure_page load_tlb
do_tlb_refill index current_pid addr vm =
    let (pt, vm') = own_table addr vm in
    let vm0 : Vm = ensure_page pt (pt_offset addr) vm' in
    let vm1 : Vm = ensure_page pt (pt_offset addr + 1) vm0 in load_tlb index current_pid addr pt vm1

-- The same for the faulting address in CP0 BadVAddr.
pub tlb_invalid_handler : (index : ℕ → ℕ) (current_pid badvaddr : ℕ) → Vm → Vm
unfolding own_table ensure_page load_tlb
tlb_invalid_handler index current_pid badvaddr vm =
    let (pt, vm') = own_table badvaddr vm in
    let vm0 : Vm = ensure_page pt (pt_offset badvaddr) vm' in
    let vm1 : Vm = ensure_page pt (pt_offset badvaddr + 1) vm0 in
    load_tlb index current_pid badvaddr pt vm1

-- The part of `free_proc` (kernel/sched/sched.c) that gives the pages of an address space back.
free_pages_of : (pt : Addr) → ℕ → Vm → Vm
unfolding free_page
free_pages_of pt zero vm = vm
free_pages_of pt (suc n) vm =
    let vm' : Vm = free_pages_of pt n vm in
    if is_valid_pte (vm'.pt pt n)
    then record vm' { page_ctrl_user = free_page vm'.page_ctrl_user (page_of_pte (vm'.pt pt n)) }
    else vm'

free_tables_of : (pgd : Addr) → ℕ → Vm → Vm
unfolding free_page free_pages_of
free_tables_of pgd zero vm = vm
free_tables_of pgd (suc n) vm =
    let vm' : Vm = free_tables_of pgd n vm in
    let pt : Addr = vm'.pgd pgd n in
    if bnot (pt == vm'.global_empty_pt)
    then (let freed : Vm = free_pages_of pt num_entry vm' in
        record freed { page_ctrl_pt = free_page freed.page_ctrl_pt pt })
    else vm'

pub free_address_space : (page_table : Addr) → Vm → Vm
unfolding free_page free_tables_of
free_address_space page_table vm =
    let freed : Vm = free_tables_of page_table num_entry vm in
    record freed { page_ctrl_pgd = free_page freed.page_ctrl_pgd page_table }
