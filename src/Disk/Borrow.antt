-- ===== src/Disk/Borrow.antt =====
-- `block_get` of fs/fs.c lends a buffer, when a buffer is not in use.
use ucas_operating_system_la.Base.{
  ℕ, ◌+◌, ◌-◌, ◌%◌, ◌^◌, ◌<◌, ◌≡◌, ◌≢◌, refl, ◌∙◌, sym, ap, arith, Bool, false, Bool-cases, inl,
  inr, ◌==◌, Option-cases, find_from-some, find_from-none,
}
use mathlib.Core.Path.{subst}
use ucas_operating_system_la.Base.Run.{Runs, runs}
use ucas_operating_system_la.Queue.{null}
use ucas_operating_system_la.Memory.{Addr}
use ucas_operating_system_la.Bitmap.{Words}
use ucas_operating_system_la.Disk.{
  SdCard, Disk, disk_buff_size, has_block, drop_buff, load_buff, block_get, find_buff, victim,
}
use ucas_operating_system_la.Disk.Card.{IsSdCard}
use ucas_operating_system_la.Disk.Buffer.{Coherent, Sees, SeesAll}
use ucas_operating_system_la.Disk.Drop.{Dropped, drop_buff-Dropped}
use ucas_operating_system_la.Disk.Lend.{settle, Room, Lent, to_settle, load-Lent, hit-Lent}
use ucas_operating_system_la.Disk.Get.{Absent}

module _ (card : SdCard) (law : IsSdCard card) (n : ℕ) (used : Addr → Bool) (s : Disk card)
    (v : Coherent card n used (settle s)) (b : ℕ) (hb : b < n) (room : Room 1 s) where
  -- Emptying a buffer does not look at which are in use.
  drop_buff-settle : (i : ℕ) → drop_buff card i (settle s) ≡ settle (drop_buff card i s)
  unfolding drop_buff
  drop_buff-settle i = elim (Bool-cases (s.disk_buff i == null)) [
    | inl e ↦ rw e refl
    | inr f ↦ elim (Bool-cases (s.disk_buff_dirty i)) [
      | inl d ↦ rw (f, d) refl
      | inr d ↦ rw (f, d) refl
    ]
  ]

  drop_buff-using : (i : ℕ) → (drop_buff card i s).disk_buff_using ≡ s.disk_buff_using
  unfolding drop_buff
  drop_buff-using i = elim (Bool-cases (s.disk_buff i == null)) [
    | inl e ↦ rw e refl
    | inr f ↦ elim (Bool-cases (s.disk_buff_dirty i)) [
      | inl d ↦ rw (f, d) refl
      | inr d ↦ rw (f, d) refl
    ]
  ]

  drop_buff-kept : (i j : ℕ) → j ≢ i → (drop_buff card i s).disk_buff j ≡ s.disk_buff j
  unfolding drop_buff
  drop_buff-kept i j ne = elim (Bool-cases (s.disk_buff i == null)) [
    | inl e ↦ rw e refl
    | inr f ↦ rw f (ground arith)
  ]

  through :
      {d : Disk card}
      → SeesAll card n (settle s) (settle d)
      → (c : ℕ) (w : Words) → c < n
      → Sees card s c w
      → Sees card d c w
  through all c w hc y =
      let z = all c w hc (to_settle s c w y) in record { buffered = z.buffered; stored = z.stored }

  -- A buffer that is not in use and is given to the block.
  miss-Lent :
      (do_read : Bool) (i : ℕ)
      → i < disk_buff_size
      → s.disk_buff_using i ≡ false
      → Absent card s b
      → let (a, s') = load_buff card i b do_read (drop_buff card i s) in
        Lent card n do_read s b a s'
  miss-Lent do_read i hi idle absent =
      let same : (j : ℕ) → (drop_buff card i s).disk_buff_using j ≡ s.disk_buff_using j =
        λ j. ap (λ (u : ℕ → Bool). u j) (drop_buff-using i) in
      let d : Disk card = drop_buff card i s in
      let x : Dropped card law n used (settle s) v i hi refl (settle d) =
        subst (Dropped card law n used (settle s) v i hi refl) (drop_buff-settle i)
          (drop_buff-Dropped card law n used (settle s) v i hi refl) in
      let absent1 : Absent card d b =
        λ j h f e. let (g, same) = x.left j f in absent j h g (sym same ∙ e) in
      let room1 : d.page_ctrl_kernel.next_page_addr + d.page_ctrl_kernel.page_size < 2 ^ 64 =
        omega (arith, x.next_page, x.page_size, room) in
      let l =
        load-Lent card n _ d x.coherent b hb i hi x.empty absent1 room1 do_read (same i ∙ idle) in
      record {
        used = l.used;
        coherent = l.coherent;
        index = l.index;
        small = l.small;
        full = l.full;
        holds = l.holds;
        block = l.block;
        others = λ j h. l.others j h ∙ same j;
        kept = λ j h.
            l.kept j (same j ∙ h)
            ∙ drop_buff-kept i j (λ e. ground (arith, ap s.disk_buff_using e));
        sees = λ c w hc ne y. l.sees c w hc ne (through x.sees c w hc y);
        content = λ w r y. l.content w r (through x.sees b w hb y);
        shown = λ w r y. l.shown w r (through x.sees b w hb y);
        room = λ k r. l.room k (rw (x.next_page, x.page_size) r);
        super = l.super ∙ x.super;
      }

  -- Over a card that reads back what was written, when no buffer counted out the buffers are
  -- consistent.
  pub block_get-Lent :
      (do_read : Bool) (j : ℕ)
      → j < disk_buff_size
      → s.disk_buff_using j ≡ false
      → Runs (Lent card n do_read s b) (block_get card b do_read s)
  unfolding block_get
  block_get-Lent do_read j hj idle = elim (Option-cases (find_buff card s b)) [
    | inl e ↦ elim (Option-cases (victim card s)) [
      | inl e' ↦
          let k : ℕ =
            s.id_next_new_buff + (j + disk_buff_size - s.id_next_new_buff) % disk_buff_size in
          let back : k % disk_buff_size ≡ j = omega (arith, v.next) in
          let w =
            find_from-none _ s.id_next_new_buff disk_buff_size k e' (omega arith) (omega arith) in
          absurd (let w' = rw back at w in ground arith)
      | inr (k, e') ↦
          let found = find_from-some _ s.id_next_new_buff disk_buff_size k e' in
          rw (e, e')
            (runs (
              miss-Lent do_read (k % disk_buff_size) (omega arith) (ground (arith, found.2))
                λ j h f same.
                  ground (arith, find_from-none (has_block card s b) 0 disk_buff_size j e)))
    ]
    | inr (i, e) ↦
        let (lo, hi, has) = find_from-some (has_block card s b) 0 disk_buff_size i e in
        rw e (
          runs (
            hit-Lent card n used s v b hb do_read i (omega arith) (λ z. ground arith)
              (ground arith)))
  ]
