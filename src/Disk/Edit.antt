-- ===== src/Disk/Edit.antt =====
-- Changing one block through the buffer of fs/fs.c: its page is written, and committed as dirty.
use ucas_operating_system_la.Base.{
  ℕ, suc, ◌<◌, ◌≡◌, ◌≢◌, ◌∙◌, sym, arith, Bool, true, false, inl, inr, ◌==◌, put, Option-cases,
  find_from, find_from-some, find_from-none,
}
use ucas_operating_system_la.Base.Run.{Runs, runs}
use ucas_operating_system_la.Memory.{Addr}
use ucas_operating_system_la.Bitmap.{Words}
use ucas_operating_system_la.Disk.{SdCard, Disk, disk_buff_size, block_commit}
use ucas_operating_system_la.Disk.Buffer.{Coherent, Sees}
use ucas_operating_system_la.Disk.Lend.{settle, Room, Lent}

-- No buffer is in use.
abbrev pub Quiet : {card : SdCard} → Disk card → Type 0
Quiet s = (j : ℕ) → j < disk_buff_size → s.disk_buff_using j ≡ false

-- What a change of the block `b` to `w` leaves, when it takes at most one page: nothing is in use, the
-- buffers are consistent, the block is seen as `w`, and the others as before.
pub record Edited (card : SdCard) (n : ℕ) (s : Disk card) (b : ℕ) (w : Words) (t : Disk card)
    : Type 0 where
  pub used : Addr → Bool
  pub coherent : Coherent card n used (settle t)
  pub quiet : Quiet t
  pub own : Sees card t b w
  pub sees : (c : ℕ) (u : Words) → c < n → c ≢ b → Sees card s c u → Sees card t c u
  pub room : (k : ℕ) → Room (suc k) s → Room k t
  pub super : t.super_block ≡ s.super_block

module _ (card : SdCard) (n : ℕ) (do_read : Bool) (s : Disk card) (b : ℕ) (a : Addr)
    (s' : Disk card) (quiet : Quiet s) (l : Lent card n do_read s b a s') (w : Words) where
  -- The page written.
  abbrev changed : Disk card
  changed = record s' { pages = put s'.pages a w }

  abbrev committed : Disk card
  committed = record changed {
    disk_buff_dirty = put s'.disk_buff_dirty l.index true;
    disk_buff_using = put s'.disk_buff_using l.index false;
  }

  committed-Edited : Edited card n s b w committed
  committed-Edited = record {
    used = l.used;
    coherent = record {
      fits = l.coherent.fits;
      pages_valid = l.coherent.pages_valid;
      real = l.coherent.real;
      next = l.coherent.next;
      held = l.coherent.held;
      apart = l.coherent.apart;
      once = l.coherent.once;
      small = l.coherent.small;
      tidy = λ j h e. ground (arith, l.coherent.tidy j h, l.holds, l.full);
      clean = λ j h f u d.
          ground (arith, l.coherent.clean j h, l.coherent.apart j l.index h l.small, l.holds);
    };
    quiet = λ j h. ground (arith, l.others j, quiet j h);
    own = record {
      buffered =
          λ j h f e. ground (arith, l.coherent.once j l.index h l.small, l.holds, l.block, l.full);
      stored =
          λ none_has. absurd (none_has l.index l.small (λ z. l.full (sym l.holds ∙ z)) l.block);
    };
    sees = λ c u hc ne x.
        let y = l.sees c u hc ne x in
        record {
          buffered = λ j h f e.
              ground
                (arith, y.buffered j h, l.coherent.apart j l.index h l.small, l.holds, l.block);
          stored = y.stored;
        };
    room = l.room;
    super = l.super;
  }

  -- What is written to a page that `block_get` has lent is what the file system sees in the block from
  -- then on.
  pub commit-Edited : Runs (λ _. Edited card n s b w) (block_commit card a true changed)
  unfolding block_commit
  commit-Edited = elim (Option-cases (find_from (λ i. s'.disk_buff i == a) 0 disk_buff_size)) [
    | inl e ↦ absurd (
        ground (
          arith,
          find_from-none (λ i. s'.disk_buff i == a) 0 disk_buff_size l.index e,
          l.small,
          l.holds,
        ))
    | inr (i, e) ↦
        let (lo, hi, has) = find_from-some (λ i. s'.disk_buff i == a) 0 disk_buff_size i e in
        let same : i ≡ l.index =
          l.coherent.apart i l.index (omega arith) l.small (λ z. ground (arith, l.full))
            (ground (arith, l.holds)) in
        rw (e, same) (runs committed-Edited)
  ]
