-- ===== src/Disk/Get.antt =====
-- What `block_get` of fs/fs.c returns.
use ucas_operating_system_la.Base.{
  ℕ, ◌+◌, ◌-◌, ◌%◌, ◌^◌, ◌<◌, ◌≡◌, ◌≢◌, refl, ◌∙◌, sym, arith, Bool, true, false, Bool-cases, inl,
  inr, ◌==◌, put, Option-cases, find_from-some, find_from-none,
}
use ucas_operating_system_la.Base.Run.{Runs, runs}
use ucas_operating_system_la.Queue.{null}
use ucas_operating_system_la.Memory.{Addr, alloc_page}
use ucas_operating_system_la.Memory.Alloc.{IsValid, alloc_page-IsValid, alloc_page-start}
use ucas_operating_system_la.Bitmap.{Words}
use ucas_operating_system_la.Disk.{
  SdCard, Disk, disk_buff_size, block_offset, has_block, drop_buff, load_buff, block_get, find_buff,
  victim,
}
use ucas_operating_system_la.Disk.Card.{IsSdCard}
use ucas_operating_system_la.Disk.Buffer.{Coherent, Sees, SeesAll}
use ucas_operating_system_la.Disk.Drop.{drop_buff-Dropped}

-- No buffer has the block.
abbrev pub Absent : (card : SdCard) → Disk card → ℕ → Type 0
Absent card s b = (j : ℕ) → j < disk_buff_size → s.disk_buff j ≢ null → s.disk_buff_block_id j ≢ b

module _ (card : SdCard) (n : ℕ) (used : Addr → Bool) (s : Disk card) (v : Coherent card n used s)
    (b : ℕ) (hb : b < n) where
  module _ (i : ℕ) (hi : i < disk_buff_size) (empty : s.disk_buff i ≡ null)
      (absent : Absent card s b)
      (room : s.page_ctrl_kernel.next_page_addr + s.page_ctrl_kernel.page_size < 2 ^ 64) where
    abbrev pub page : Addr
    page = (alloc_page s.page_ctrl_kernel).0

    -- The state after the block is read into a new page.
    abbrev pub loaded : Disk card
    loaded = record s {
      page_ctrl_kernel = (alloc_page s.page_ctrl_kernel).1;
      disk_buff = put s.disk_buff i page;
      disk_buff_block_id = put s.disk_buff_block_id i b;
      disk_buff_dirty = put s.disk_buff_dirty i false;
      pages = put s.pages page (card.sd_card_read (block_offset card s b) s.content);
      id_next_new_buff = (s.id_next_new_buff + 1) % disk_buff_size;
    }

    pub fresh :
        (used page ≡ false)
        × (page ≢ null)
        × IsValid (alloc_page s.page_ctrl_kernel).1 (put used page true)
    fresh =
        let (new, whole, valid) = alloc_page-IsValid s.page_ctrl_kernel used v.pages_valid room in
        (
          new,
          (λ e. omega (
            arith,
            valid.used_low page (ground arith),
            alloc_page-start s.page_ctrl_kernel,
            v.real,
          )),
          valid,
        )

    pub loaded-Coherent : Coherent card n (put used page true) loaded
    loaded-Coherent =
        let (new, ne, valid) = fresh in
        record {
          fits = v.fits;
          pages_valid = valid;
          real = ground (arith, alloc_page-start s.page_ctrl_kernel, v.real);
          next = omega arith;
          held = λ j h f. ground (arith, v.held j h);
          apart = λ j k h l f e. ground (arith, v.apart j k h l, v.held j h, v.held k l);
          once = λ j k h l f g e. ground (arith, v.once j k h l, absent j h, absent k l);
          small = λ j h f. ground (arith, v.small j h);
          tidy = λ j h e. ground (arith, v.tidy j h);
          clean = λ j h f u d. ground (arith, v.clean j h, v.held j h);
        }

    pub loaded-SeesAll : SeesAll card n s loaded
    loaded-SeesAll c w hc see =
        let (new, ne, valid) = fresh in
        record {
          buffered = λ j h f e. elim (Bool-cases (j == i)) [
            | inl mine ↦
                ground (arith, see.stored (let back : b ≡ c = ground arith in rw (← back) absent))
            | inr other ↦ ground (arith, see.buffered j h, v.held j h)
          ];
          stored =
              λ none_has. see.stored (λ j h f e. none_has j h (λ z. ground arith) (ground arith));
        }

    -- Loading a block gives a page with what the file system sees in it.
    load_buff-lem : load_buff card i b true s ≡ (page, loaded)
    unfolding load_buff
    load_buff-lem = refl

-- What a call of `block_get` promises: the buffer stays consistent, every block is seen as before, and
-- the page that is returned has the content of the block.
pub record Got (card : SdCard) (n : ℕ) (s : Disk card) (b : ℕ) (a : Addr) (s' : Disk card)
    : Type 0 where
  pub used : Addr → Bool
  pub coherent : Coherent card n used s'
  pub sees : SeesAll card n s s'
  pub content : (w : Words) → Sees card s b w → s'.pages a ≡ w

module _ (card : SdCard) (law : IsSdCard card) (n : ℕ) (used : Addr → Bool) (s : Disk card)
    (v : Coherent card n used s) (b : ℕ) (hb : b < n)
    (room : s.page_ctrl_kernel.next_page_addr + s.page_ctrl_kernel.page_size < 2 ^ 64) where
  loaded-Got :
      (i : ℕ)
      → i < disk_buff_size
      → s.disk_buff_using i ≡ false
      → Absent card s b
      → let (a, s') = load_buff card i b true (drop_buff card i s) in Got card n s b a s'
  loaded-Got i hi idle absent =
      let d = drop_buff-Dropped card law n used s v i hi idle in
      let s1 : Disk card = drop_buff card i s in
      let absent1 : Absent card s1 b =
        λ j h f e. let (g, same) = d.left j f in absent j h g (sym same ∙ e) in
      let room1 : s1.page_ctrl_kernel.next_page_addr + s1.page_ctrl_kernel.page_size < 2 ^ 64 =
        omega (arith, d.next_page, d.page_size) in
      let see = loaded-SeesAll card n _ s1 d.coherent b hb i hi d.empty absent1 room1 in
      rw (load_buff-lem card n _ s1 d.coherent b hb i hi d.empty absent1 room1) (record {
        used = _;
        coherent = loaded-Coherent card n _ s1 d.coherent b hb i hi d.empty absent1 room1;
        sees = λ c w hc sc. see c w hc (d.sees c w hc sc);
        content = λ w sc. ground (arith, (d.sees b w hb sc).stored absent1);
      })

  -- Over a card that reads back what was written, when the buffers are consistent, the page
  -- allocator does not wrap and a buffer is not in use, block_get with reading of a block of the
  -- partition ends: the buffers stay consistent, every block is seen as before, and the page
  -- returned has the block's content.
  pub block_get-Got :
      (j : ℕ)
      → j < disk_buff_size
      → s.disk_buff_using j ≡ false
      → Runs (Got card n s b) (block_get card b true s)
  unfolding block_get
  block_get-Got j hj idle = elim (Option-cases (find_buff card s b)) [
    | inl e ↦ elim (Option-cases (victim card s)) [
      | inl e' ↦
          let k : ℕ =
            s.id_next_new_buff + (j + disk_buff_size - s.id_next_new_buff) % disk_buff_size in
          let back : k % disk_buff_size ≡ j = omega (arith, v.next) in
          let w =
            find_from-none _ s.id_next_new_buff disk_buff_size k e' (omega arith) (omega arith) in
          absurd (let w' = rw back at w in ground arith)
      | inr (k, e') ↦
          let found = find_from-some _ s.id_next_new_buff disk_buff_size k e' in
          rw (e, e')
            (runs (
              loaded-Got (k % disk_buff_size) (omega arith) (ground (arith, found.2)) λ j h f same.
                ground (arith, find_from-none (has_block card s b) 0 disk_buff_size j e)))
    ]
    | inr (i, e) ↦
        let (lo, hi, has) = find_from-some (has_block card s b) 0 disk_buff_size i e in
        rw e (
          runs (record {
            used = used;
            coherent = record {
              fits = v.fits;
              pages_valid = v.pages_valid;
              real = v.real;
              next = v.next;
              held = v.held;
              apart = v.apart;
              once = v.once;
              small = v.small;
              tidy = v.tidy;
              clean = λ j h f u d. ground (arith, v.clean j h);
            };
            sees = λ c w hc see. record { buffered = see.buffered; stored = see.stored };
            content = λ w see. see.buffered i (omega arith) (λ z. ground arith) (ground arith);
          }))
  ]
