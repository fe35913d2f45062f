-- ===== src/Disk/Sink.antt =====
-- `block_sink` of fs/fs.c writes everything to the card.
use ucas_operating_system_la.Base.{
  ℕ, ◌+◌, ◌-◌, ◌%◌, ◌^◌, ◌<◌, ◌≡◌, ◌≢◌, refl, ◌∙◌, sym, ap, arith, Bool, true, false, Bool-cases,
  inl, inr, ◌==◌, ==_iff, put, Option-cases, for_loop-invariant, find_from-some, find_from-none,
}
use ucas_operating_system_la.Queue.{null}
use ucas_operating_system_la.Memory.{Addr}
use ucas_operating_system_la.Bitmap.{Words}
use ucas_operating_system_la.Disk.{
  SdCard, Disk, disk_buff_size, block_offset, has_block, find_buff, sink_step, block_sink,
}
use ucas_operating_system_la.Disk.Card.{IsSdCard, read-write}
use ucas_operating_system_la.Disk.Buffer.{Coherent, Sees, SeesAll}

-- What writing buffers back leaves: no buffer from `i` on is newly in use or dirty.
record Sunk (card : SdCard) (n : ℕ) (used : Addr → Bool) (s s' : Disk card) : Type 0 where
  coherent : Coherent card n used s'
  sees : SeesAll card n s s'
  pages : s'.pages ≡ s.pages
  super : s'.super_block ≡ s.super_block
  lba : s'.start_lba ≡ s.start_lba
  using : s'.disk_buff_using ≡ s.disk_buff_using
  dirty : (j : ℕ) → s.disk_buff_dirty j ≡ false → s'.disk_buff_dirty j ≡ false

module _ (card : SdCard) (law : IsSdCard card) (n : ℕ) (used : Addr → Bool) where
  Sunk-trans :
      {s t u : Disk card} → Sunk card n used s t → Sunk card n used t u → Sunk card n used s u
  Sunk-trans f g = record {
    coherent = g.coherent;
    sees = λ b w h see. g.sees b w h (f.sees b w h see);
    pages = g.pages ∙ f.pages;
    super = g.super ∙ f.super;
    lba = g.lba ∙ f.lba;
    using = g.using ∙ f.using;
    dirty = λ j h. g.dirty j (f.dirty j h);
  }

  module _ (s : Disk card) (v : Coherent card n used s) (i : ℕ) (hi : i < disk_buff_size) where
    -- The state after the dirty buffer `i` is written back.
    abbrev sunk : Disk card
    sunk = record s {
      content =
          card.sd_card_write (s.pages (s.disk_buff i))
            (block_offset card s (s.disk_buff_block_id i)) s.content;
      disk_buff_dirty = put s.disk_buff_dirty i false;
      cnt_dirty_buff = (s.cnt_dirty_buff + 2 ^ 32 - 1) % 2 ^ 32;
    }

    sunk-Sunk : s.disk_buff_dirty i ≡ true → Sunk card n used s sunk
    sunk-Sunk d =
        let full : s.disk_buff i ≢ null = λ e. ground (arith, v.tidy i hi e) in
        let read = λ (b : ℕ) (hb : b < n).
          read-write card law s n b (s.disk_buff_block_id i) (s.pages (s.disk_buff i)) v.fits hb
            (v.small i hi full) in
        record {
          coherent = record {
            fits = v.fits;
            pages_valid = v.pages_valid;
            real = v.real;
            next = v.next;
            held = v.held;
            apart = v.apart;
            once = v.once;
            small = v.small;
            tidy = λ j h e. ground (arith, v.tidy j h);
            clean = λ j h f u t. elim (Bool-cases (j == i)) [
              | inl mine ↦
                  let e = (==_iff j i).0 mine in
                  ground (arith, read (s.disk_buff_block_id j) (v.small j h f), e)
              | inr other ↦ ground (
                arith,
                read (s.disk_buff_block_id j) (v.small j h f),
                v.clean j h,
                v.once j i h hi,
              )
            ];
          };
          sees = λ b w hb see. record {
            buffered = see.buffered;
            stored =
                λ none_has. ground (arith, read b hb, see.stored none_has, see.buffered i hi full);
          };
          pages = refl;
          super = refl;
          lba = refl;
          using = refl;
          dirty = λ j h. ground arith;
        }

    sink_step-Sunk :
        Sunk card n used s (sink_step card i s) × ((sink_step card i s).disk_buff_dirty i ≡ false)
    unfolding sink_step
    sink_step-Sunk = elim (Bool-cases (s.disk_buff_dirty i)) [
      | inl d ↦ rw d (sunk-Sunk d, ground arith)
      | inr t ↦ rw t (
        record {
          coherent = v;
          sees = λ b w h see. see;
          pages = refl;
          super = refl;
          lba = refl;
          using = refl;
          dirty = λ j h. h;
        },
        t,
      )
    ]

  -- When nothing is in use or dirty, the card has what the file system sees.
  clean-stored :
      (s : Disk card)
      → Coherent card n used s
      → ((i : ℕ) → i < disk_buff_size → s.disk_buff_using i ≡ false)
      → ((i : ℕ) → i < disk_buff_size → s.disk_buff_dirty i ≡ false)
      → (b : ℕ) (w : Words) → Sees card s b w
      → card.sd_card_read (block_offset card s b) s.content ≡ w
  clean-stored s v idle clean b w see = elim (Option-cases (find_buff card s b)) [
    | inl e ↦
        see.stored
          λ j h full mine. ground (arith, find_from-none (has_block card s b) 0 disk_buff_size j e)
    | inr (i, e) ↦
        let (lo, hi, has) = find_from-some (has_block card s b) 0 disk_buff_size i e in
        let full : s.disk_buff i ≢ null = λ z. ground arith in
        let mine : s.disk_buff_block_id i ≡ b = ground arith in
        let c = v.clean i (omega arith) full (idle i (omega arith)) (clean i (omega arith)) in
        let c' = rw mine at c in sym c' ∙ see.buffered i (omega arith) full mine
  ]

  -- The passes before `i` have been made.
  abbrev Passed : Disk card → ℕ → Disk card → Type 0
  Passed s i t = Sunk card n used s t × ((j : ℕ) → j < i → t.disk_buff_dirty j ≡ false)

  block_sink-Passed :
      (s : Disk card) → Coherent card n used s → Passed s disk_buff_size (block_sink card s)
  unfolding block_sink
  block_sink-Passed s v =
      for_loop-invariant (Passed s) disk_buff_size 0 (sink_step card) s
        (λ i t l h (f, clean).
          let (g, last) = sink_step-Sunk t f.coherent i (omega arith) in
          (
            Sunk-trans f g,
            λ j k. elim (Bool-cases (j == i)) [
              | inl mine ↦ let e = (==_iff j i).0 mine in rw e last
              | inr before ↦ g.dirty j (clean j (ground arith))
            ],
          ))
        (
          record {
            coherent = v;
            sees = λ b w h see. see;
            pages = refl;
            super = refl;
            lba = refl;
            using = refl;
            dirty = λ j h. h;
          },
          λ j l. absurd (omega arith),
        )

  -- Over a card that reads back what was written, when the buffers are consistent and none is in
  -- use, block_sink leaves on the card the content that the file system sees in every block of the
  -- partition, which it goes on seeing, and the buffers stay consistent.
  pub block_sink-stores :
      (s : Disk card)
      → Coherent card n used s
      → ((i : ℕ) → i < disk_buff_size → s.disk_buff_using i ≡ false)
      → Coherent card n used (block_sink card s)
        × ((b : ℕ) (w : Words)
            → b < n
            → Sees card s b w
            → Sees card (block_sink card s) b w
              × (card.sd_card_read
                    (block_offset card (block_sink card s) b)
                    (block_sink card s).content
                  ≡ w))
  block_sink-stores s v idle =
      let (f, clean) = block_sink-Passed s v in
      (
        f.coherent,
        λ b w hb see.
            let see' = f.sees b w hb see in
            (
              see',
              clean-stored (block_sink card s) f.coherent
                  (λ i h. ap (λ (u : ℕ → Bool). u i) f.using ∙ idle i h) clean b w see',
            ),
      )

  -- Writing the buffers back leaves the pages and the super block alone.
  pub block_sink-keeps :
      (s : Disk card)
      → Coherent card n used s
      → ((block_sink card s).pages ≡ s.pages)
        × ((block_sink card s).super_block ≡ s.super_block)
        × ((block_sink card s).start_lba ≡ s.start_lba)
  block_sink-keeps s v = let (f, clean) = block_sink-Passed s v in (f.pages, f.super, f.lba)
