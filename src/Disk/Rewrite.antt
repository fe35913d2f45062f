-- ===== src/Disk/Rewrite.antt =====
-- A block of fs/fs.c that is got, changed and committed, as a change of what the file system sees.
use ucas_operating_system_la.Base.{
  ℕ, suc, ◌<◌, ◌≡◌, refl, ◌∙◌, sym, arith, Bool, true, Bool-cases, inl, inr, ◌==◌, ==_iff, put, [],
}
use mathlib.Core.Path.{subst}
use ucas_operating_system_la.Base.Run
use ucas_operating_system_la.Base.Run.{Runs, runs}
use ucas_operating_system_la.Memory.{Addr}
use ucas_operating_system_la.Bitmap.{Words}
use ucas_operating_system_la.Disk.{SdCard, Disk, SuperBlock, block_get, block_commit}
use ucas_operating_system_la.Disk.Card.{IsSdCard}
use ucas_operating_system_la.Disk.Buffer.{Sees}
use ucas_operating_system_la.Disk.Borrow.{block_get-Lent}
use ucas_operating_system_la.Disk.Edit.{Quiet, Edited, commit-Edited}
use ucas_operating_system_la.Disk.Release.{Shows}

module _ (card : SdCard) (n : ℕ) (content : ℕ → Words) (sb : SuperBlock) (k : ℕ) (s : Disk card)
    (v : Shows card n content sb (suc k) [] s) where
  quiet : Quiet s
  quiet j h = elim (Bool-cases (s.disk_buff_using j)) [
    | inl u ↦ absurd (ground (arith, v.in_use j h u))
    | inr u ↦ u
  ]

  edited-Shows :
      (b : ℕ) (w : Words) (t : Disk card)
      → Edited card n s b w t
      → Shows card n (put content b w) sb k [] t
  edited-Shows b w t x = record {
    used = x.used;
    coherent = x.coherent;
    in_use = λ j h u. ground (arith, x.quiet j h);
    real = refl;
    sees = λ c hc. elim (Bool-cases (c == b)) [
      | inl e ↦ rw e (subst (λ d. Sees card t d w) (sym ((==_iff c b).0 e)) x.own)
      | inr e ↦ rw e (x.sees c (content c) hc (λ z. ground arith) (v.sees c hc))
    ];
    room = x.room k v.room;
    super = x.super ∙ v.super;
  }

  -- What comes of the page `a` that is lent for the block `b`.
  abbrev pub Editable : ℕ → Bool → Addr → Disk card → Type 0
  Editable b do_read a t =
      (do_read ≡ true → t.pages a ≡ content b)
      × ((w : Words)
          → Runs (λ _. Shows card n (put content b w) sb k [])
              (block_commit card a true (record t { pages = put t.pages a w })))

  -- When nothing is in use, a block that is got can be changed: it shows its content if it is read, and
  -- what is written to its page and committed is what the file system sees in it, and only in it.
  pub block_get-Editable :
      (law : IsSdCard card) (b : ℕ) (do_read : Bool)
      → b < n
      → Runs (Editable b do_read) (block_get card b do_read s)
  block_get-Editable law b do_read hb =
      Run.mono
        (block_get-Lent card law n v.used s v.coherent b hb (omega (arith, v.room)) do_read 0
          (omega arith) (quiet 0 (omega arith)))
        λ a t x. (
          (λ r. x.shown (content b) r (v.sees b hb)),
          (λ w.
              Run.mono (commit-Edited card n do_read s b a t quiet x w) λ r u. edited-Shows b w u),
        )
