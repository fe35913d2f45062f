-- ===== src/Disk/Lend.antt =====
-- Which buffer `block_get` of fs/fs.c lends, when other buffers may be in use.
use ucas_operating_system_la.Base.{
  ℕ, suc, ◌+◌, ◌*◌, ◌%◌, ◌^◌, ◌<◌, ◌≡◌, ◌≢◌, refl, arith, Bool, true, false, put,
}
use ucas_operating_system_la.Queue.{null}
use ucas_operating_system_la.Memory.{Addr, alloc_page}
use ucas_operating_system_la.Memory.Alloc.{alloc_page-start, alloc_page-space}
use ucas_operating_system_la.Bitmap.{Words}
use ucas_operating_system_la.Disk.{SdCard, Disk, disk_buff_size, load_buff}
use ucas_operating_system_la.Disk.Buffer.{Coherent, Sees}
use ucas_operating_system_la.Disk.Get.{Absent, fresh, loaded-Coherent, loaded-SeesAll}

-- The same with no buffer in use. When it is consistent, every buffer that is not dirty holds what is
-- on the card, those in use too.
abbrev pub settle : {card : SdCard} → Disk card → Disk card
settle s = record s { disk_buff_using = λ i. false }

-- The allocator can give out `k` more pages before its addresses wrap.
abbrev pub Room : {card : SdCard} → ℕ → Disk card → Type 0
Room k s = s.page_ctrl_kernel.next_page_addr + k * s.page_ctrl_kernel.page_size < 2 ^ 64

-- What `block_get` leaves when it lends the page `a` for the block `b`: the buffer `index` has the page
-- and the block, no other buffer comes into use, the other blocks are seen as before, and so is `b` if
-- it is read, in the page. At most one page is taken from the allocator.
pub record Lent (card : SdCard) (n : ℕ) (do_read : Bool) (s : Disk card) (b : ℕ) (a : Addr)
    (s' : Disk card) : Type 0 where
  pub used : Addr → Bool
  pub coherent : Coherent card n used (settle s')
  pub index : ℕ
  pub small : index < disk_buff_size
  pub full : a ≢ null
  pub holds : s'.disk_buff index ≡ a
  pub block : s'.disk_buff_block_id index ≡ b
  pub others : (j : ℕ) → j ≢ index → s'.disk_buff_using j ≡ s.disk_buff_using j
  pub kept : (j : ℕ) → s.disk_buff_using j ≡ true → s'.disk_buff j ≡ s.disk_buff j
  pub sees : (c : ℕ) (w : Words) → c < n → (c ≢ b) → Sees card s c w → Sees card s' c w
  pub content : (w : Words) → do_read ≡ true → Sees card s b w → Sees card s' b w
  pub shown : (w : Words) → do_read ≡ true → Sees card s b w → s'.pages a ≡ w
  pub room : (k : ℕ) → Room (suc k) s → Room k s'
  pub super : s'.super_block ≡ s.super_block

-- What is seen does not depend on which buffers are in use.
pub to_settle :
    {card : SdCard} (s : Disk card) (b : ℕ) (w : Words) → Sees card s b w → Sees card (settle s) b w
to_settle s b w x = record { buffered = x.buffered; stored = x.stored }

module _ (card : SdCard) (n : ℕ) (used : Addr → Bool) (s : Disk card)
    (v : Coherent card n used (settle s)) (b : ℕ) (hb : b < n) where
  -- The buffer `i` is empty.
  module _ (i : ℕ) (hi : i < disk_buff_size) (empty : s.disk_buff i ≡ null)
      (absent : Absent card s b)
      (room : s.page_ctrl_kernel.next_page_addr + s.page_ctrl_kernel.page_size < 2 ^ 64) where
    abbrev new_page : Addr
    new_page = (alloc_page s.page_ctrl_kernel).0

    less-Room :
        (k : ℕ)
        → Room (suc k) s
        → (alloc_page s.page_ctrl_kernel).1.next_page_addr
            + k * (alloc_page s.page_ctrl_kernel).1.page_size
          < 2 ^ 64
    less-Room k r =
        let space = alloc_page-space s.page_ctrl_kernel room in
        rw space.1 (omega (arith, space.0, r))

    -- The state after the block gets a new page that is not read.
    abbrev taken : Disk card
    taken = record s {
      page_ctrl_kernel = (alloc_page s.page_ctrl_kernel).1;
      disk_buff = put s.disk_buff i new_page;
      disk_buff_block_id = put s.disk_buff_block_id i b;
      disk_buff_dirty = put s.disk_buff_dirty i true;
      cnt_dirty_buff = (s.cnt_dirty_buff + 1) % 2 ^ 32;
      id_next_new_buff = (s.id_next_new_buff + 1) % disk_buff_size;
    }

    taken-Coherent : Coherent card n (put used new_page true) (settle taken)
    taken-Coherent =
        let (new, ne, valid) = fresh card n used (settle s) v b hb i hi empty absent room in
        record {
          fits = v.fits;
          pages_valid = valid;
          real = ground (arith, alloc_page-start s.page_ctrl_kernel, v.real);
          next = omega arith;
          held = λ j h f. ground (arith, v.held j h);
          apart = λ j k h l f e. ground (arith, v.apart j k h l, v.held j h, v.held k l);
          once = λ j k h l f g e. ground (arith, v.once j k h l, absent j h, absent k l);
          small = λ j h f. ground (arith, v.small j h);
          tidy = λ j h e. ground (arith, v.tidy j h);
          clean = λ j h f u d. ground (arith, v.clean j h, v.held j h);
        }

    taken-Sees : (c : ℕ) (w : Words) → c ≢ b → Sees card s c w → Sees card taken c w
    taken-Sees c w ne see = record {
      buffered = λ j h f e. ground (arith, see.buffered j h);
      stored = λ none_has. see.stored (λ j h f e. none_has j h (λ z. ground arith) (ground arith));
    }

    pub load-Lent :
        (do_read : Bool)
        → s.disk_buff_using i ≡ false
        → let (a, s') = load_buff card i b do_read s in Lent card n do_read s b a s'
    unfolding load_buff
    load-Lent true idle =
        let (new, ne, valid) = fresh card n used (settle s) v b hb i hi empty absent room in
        let see = loaded-SeesAll card n used (settle s) v b hb i hi empty absent room in
        record {
          used = _;
          coherent = loaded-Coherent card n used (settle s) v b hb i hi empty absent room;
          index = i;
          small = hi;
          full = ne;
          holds = ground arith;
          block = ground arith;
          others = λ j h. refl;
          kept = λ j h. ground arith;
          sees = λ c w hc other x. record {
            buffered = (see c w hc (to_settle s c w x)).buffered;
            stored = (see c w hc (to_settle s c w x)).stored;
          };
          content = λ w r x. record {
            buffered = (see b w hb (to_settle s b w x)).buffered;
            stored = (see b w hb (to_settle s b w x)).stored;
          };
          shown = λ w r x. ground (arith, x.stored absent);
          room = less-Room;
          super = refl;
        }
    load-Lent false idle =
        let (new, ne, valid) = fresh card n used (settle s) v b hb i hi empty absent room in
        record {
          used = _;
          coherent = taken-Coherent;
          index = i;
          small = hi;
          full = ne;
          holds = ground arith;
          block = ground arith;
          others = λ j h. refl;
          kept = λ j h. ground arith;
          sees = λ c w hc other. taken-Sees c w other;
          content = λ w r. cc;
          shown = λ w r. cc;
          room = less-Room;
          super = refl;
        }

  -- A buffer that has the block already.
  pub hit-Lent :
      (do_read : Bool) (i : ℕ)
      → i < disk_buff_size
      → s.disk_buff i ≢ null
      → s.disk_buff_block_id i ≡ b
      → Lent card n do_read s b
          (s.disk_buff i)
          (record s { disk_buff_using = put s.disk_buff_using i true })
  hit-Lent do_read i hi full mine = record {
    used = used;
    coherent = v;
    index = i;
    small = hi;
    full = full;
    holds = refl;
    block = mine;
    others = λ j h. ground arith;
    kept = λ j h. refl;
    sees = λ c w hc ne x. record { buffered = x.buffered; stored = x.stored };
    content = λ w r x. record { buffered = x.buffered; stored = x.stored };
    shown = λ w r x. x.buffered i hi full mine;
    room = λ k r. omega (arith, r);
    super = refl;
  }
