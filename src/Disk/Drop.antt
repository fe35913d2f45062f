-- ===== src/Disk/Drop.antt =====
-- How a buffer of fs/fs.c is emptied for another block.
use ucas_operating_system_la.Base.{
  ℕ, ◌+◌, ◌-◌, ◌%◌, ◌^◌, ◌<◌, ◌≡◌, ◌≢◌, refl, ◌∙◌, sym, arith, Bool, false, Bool-cases, inl, inr,
  ◌==◌, ==_iff, if◌then◌else◌, put,
}
use ucas_operating_system_la.Queue.{null}
use ucas_operating_system_la.Memory.{Addr, free_page}
use ucas_operating_system_la.Memory.Alloc.{free_page-IsValid, free_page-space}
use ucas_operating_system_la.Disk.{SdCard, Disk, disk_buff_size, block_offset, drop_buff}
use ucas_operating_system_la.Disk.Card.{IsSdCard, read-write}
use ucas_operating_system_la.Disk.Buffer.{Coherent, SeesAll}

module _ (card : SdCard) (law : IsSdCard card) (n : ℕ) (used : Addr → Bool) (s : Disk card)
    (v : Coherent card n used s) (i : ℕ) (hi : i < disk_buff_size)
    (idle : s.disk_buff_using i ≡ false) where
  -- The pages that are out when the buffer `i` is empty.
  abbrev used_after : Addr → Bool
  used_after = if s.disk_buff i == null then used else put used (s.disk_buff i) false

  -- The state after a buffer that is clean is emptied.
  abbrev emptied : Disk card
  emptied = record s {
    page_ctrl_kernel = free_page s.page_ctrl_kernel (s.disk_buff i);
    disk_buff = put s.disk_buff i null;
    disk_buff_dirty = put s.disk_buff_dirty i false;
    disk_buff_block_id = put s.disk_buff_block_id i 0;
  }

  -- The state after a buffer that is dirty is written back and emptied.
  abbrev written : Disk card
  written = record emptied {
    content =
        card.sd_card_write (s.pages (s.disk_buff i)) (block_offset card s (s.disk_buff_block_id i))
          s.content;
    cnt_dirty_buff = (s.cnt_dirty_buff + 2 ^ 32 - 1) % 2 ^ 32;
  }

  module _ (full : s.disk_buff i ≢ null) where
    after-write :
        (b : ℕ)
        → b < n
        → card.sd_card_read (block_offset card s b) written.content ≡ (
            if b == s.disk_buff_block_id i
            then s.pages (s.disk_buff i)
            else card.sd_card_read (block_offset card s b) s.content)
    after-write b hb =
        read-write card law s n b (s.disk_buff_block_id i) (s.pages (s.disk_buff i)) v.fits hb
          (v.small i hi full)

    emptied-Coherent : Coherent card n (put used (s.disk_buff i) false) emptied
    emptied-Coherent = record {
      fits = v.fits;
      pages_valid =
          (free_page-IsValid s.page_ctrl_kernel used (s.disk_buff i) v.pages_valid
            (v.held i hi full)).0;
      real = ground (arith, v.real, free_page-space s.page_ctrl_kernel (s.disk_buff i));
      next = v.next;
      held = λ j h f. ground (arith, v.held j h, v.apart j i h hi);
      apart = λ a b h k f e. ground (arith, v.apart a b h k);
      once = λ a b h k f g e. ground (arith, v.once a b h k);
      small = λ j h f. ground (arith, v.small j h);
      tidy = λ j h e. ground (arith, v.tidy j h);
      clean = λ j h f u d. ground (arith, v.clean j h);
    }

    written-Coherent : Coherent card n (put used (s.disk_buff i) false) written
    written-Coherent =
        let e = emptied-Coherent in
        record {
          fits = e.fits;
          pages_valid = e.pages_valid;
          real = e.real;
          next = e.next;
          held = e.held;
          apart = e.apart;
          once = e.once;
          small = e.small;
          tidy = e.tidy;
          clean = λ j h f u d. ground (
            arith,
            v.clean j h,
            v.once j i h hi,
            v.small j h,
            after-write (s.disk_buff_block_id j),
          );
        }

    emptied-SeesAll : s.disk_buff_dirty i ≡ false → SeesAll card n s emptied
    emptied-SeesAll tidy b w hb see = record {
      buffered = λ j h f e. ground (arith, see.buffered j h);
      stored = λ none_has. elim (Bool-cases (s.disk_buff_block_id i == b)) [
        | inl mine ↦
            let e = (==_iff (s.disk_buff_block_id i) b).0 mine in
            let c = v.clean i hi full idle tidy in
            let c' = rw e at c in sym c' ∙ see.buffered i hi full e
        | inr other ↦ see.stored (λ j h f e. none_has j h (ground arith) (ground arith))
      ];
    }

    written-SeesAll : SeesAll card n s written
    written-SeesAll b w hb see = record {
      buffered = λ j h f e. ground (arith, see.buffered j h);
      stored = λ none_has. elim (Bool-cases (b == s.disk_buff_block_id i)) [
        | inl mine ↦
            after-write b hb
            ∙ rw mine (see.buffered i hi full (sym ((==_iff b (s.disk_buff_block_id i)).0 mine)))
        | inr other ↦
            after-write b hb
            ∙ rw other (see.stored (λ j h f e. none_has j h (ground arith) (ground arith)))
      ];
    }

  -- Emptying a buffer that is not in use writes its block back if it is dirty, so that every block is
  -- seen as before, and gives its page back; the other buffers stay.
  pub record Dropped (s' : Disk card) : Type 0 where
    pub coherent : Coherent card n used_after s'
    pub sees : SeesAll card n s s'
    pub empty : s'.disk_buff i ≡ null
    pub next_page : s'.page_ctrl_kernel.next_page_addr ≡ s.page_ctrl_kernel.next_page_addr
    pub page_size : s'.page_ctrl_kernel.page_size ≡ s.page_ctrl_kernel.page_size
    pub super : s'.super_block ≡ s.super_block
    pub lba : s'.start_lba ≡ s.start_lba
    pub using : s'.disk_buff_using ≡ s.disk_buff_using
    pub left :
        (j : ℕ)
        → s'.disk_buff j ≢ null
        → (s.disk_buff j ≢ null) × (s'.disk_buff_block_id j ≡ s.disk_buff_block_id j)

  pub drop_buff-Dropped : Dropped (drop_buff card i s)
  unfolding drop_buff
  drop_buff-Dropped = elim (Bool-cases (s.disk_buff i == null)) [
    | inl empty ↦ rw empty (record {
      coherent = rw empty v;
      sees = λ b w hb see. see;
      empty = (==_iff (s.disk_buff i) null).0 empty;
      next_page = refl;
      page_size = refl;
      super = refl;
      lba = refl;
      using = refl;
      left = λ j f. (f, refl);
    })
    | inr full ↦
        let f : s.disk_buff i ≢ null = λ e. ground arith in
        let space = free_page-space s.page_ctrl_kernel (s.disk_buff i) in
        elim (Bool-cases (s.disk_buff_dirty i)) [
          | inl dirty ↦
              rw (full, dirty)
                (record {
                  coherent = rw full (written-Coherent f);
                  sees = written-SeesAll f;
                  empty = ground arith;
                  next_page = space.1;
                  page_size = space.2;
                  super = refl;
                  lba = refl;
                  using = refl;
                  left = λ j g. ground arith;
                })
          | inr tidy ↦
              rw (full, tidy)
                (record {
                  coherent = rw full (emptied-Coherent f);
                  sees = emptied-SeesAll f tidy;
                  empty = ground arith;
                  next_page = space.1;
                  page_size = space.2;
                  super = refl;
                  lba = refl;
                  using = refl;
                  left = λ j g. ground arith;
                })
        ]
  ]
