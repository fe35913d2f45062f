-- ===== src/Disk/Release.antt =====
-- Which buffers of fs/fs.c are in use, and what `block_commit` of a page that was only read does.
use ucas_operating_system_la.Base.{
  ℕ, zero, suc, ◌+◌, ◌<◌, ◌≡◌, ◌≢◌, refl, ◌∙◌, sym, arith, Bool, true, false, Bool-cases, inl, inr,
  ◌==◌, ==_iff, List, [], ◌∷◌, has, Option-cases, find_from, find_from-some, find_from-none,
}
use mathlib.Core.Path.{subst}
use ucas_operating_system_la.Base.Run
use ucas_operating_system_la.Base.Run.{Runs, runs}
use ucas_operating_system_la.Queue.{null}
use ucas_operating_system_la.Memory.{Addr}
use ucas_operating_system_la.Bitmap.{Words}
use ucas_operating_system_la.Disk.{
  SdCard, Disk, SuperBlock, disk_buff_size, block_get, block_commit,
}
use ucas_operating_system_la.Disk.Buffer.{Coherent, Sees}
use ucas_operating_system_la.Disk.Card.{IsSdCard}
use ucas_operating_system_la.Disk.Lend.{settle, Room, Lent}
use ucas_operating_system_la.Disk.Borrow.{block_get-Lent}

-- Every buffer in use has one of the pages in the list.
abbrev pub InUse : {card : SdCard} → List Addr → Disk card → Type 0
InUse l s = (j : ℕ) → j < disk_buff_size → s.disk_buff_using j ≡ true → has (s.disk_buff j) l ≡ true

-- A state of the buffers in which the file system sees `content`, with the pages of `l` in use at most.
pub record Shows (card : SdCard) (n : ℕ) (content : ℕ → Words) (sb : SuperBlock) (k : ℕ)
    (l : List Addr) (s : Disk card) : Type 0 where
  pub used : Addr → Bool
  pub coherent : Coherent card n used (settle s)
  pub in_use : InUse l s
  pub real : has null l ≡ false
  pub sees : (b : ℕ) → b < n → Sees card s b (content b)
  pub room : Room k s
  pub super : s.super_block ≡ sb

-- With one page in use at most, one of two buffers is not in use.
abbrev Idle : {card : SdCard} → Disk card → Type 0
Idle s = (j : ℕ) × (j < disk_buff_size) × (s.disk_buff_using j ≡ false)

Idle-none : {card : SdCard} (s : Disk card) → InUse [] s → Idle s
Idle-none s u = (0, omega arith, ground (arith, u 0))

Idle-one :
    {card : SdCard} {n : ℕ} {used : Addr → Bool} (s : Disk card) (a : Addr)
    → Coherent card n used (settle s)
    → a ≢ null
    → InUse (a ∷ []) s
    → Idle s
Idle-one s a v ne u = elim (Bool-cases (s.disk_buff_using 0)) [
  | inl b ↦ (1, omega arith, ground (arith, u 0, u 1, v.apart 0 1))
  | inr b ↦ (0, omega arith, b)
]

module _ (card : SdCard) (n : ℕ) (content : ℕ → Words) (sb : SuperBlock) (k : ℕ) where
  Lent-Shows :
      (l : List Addr) (s : Disk card) (b : ℕ) (a : Addr) (s' : Disk card)
      → b < n
      → Shows card n content sb (suc k) l s
      → Lent card n true s b a s'
      → Shows card n content sb k (a ∷ l) s' × (s'.pages a ≡ content b)
  Lent-Shows l s b a s' hb v x = (
    record {
      used = x.used;
      coherent = x.coherent;
      in_use = λ j h u. ground (arith, x.holds, x.others j, v.in_use j h, x.kept j);
      real = ground (arith, v.real, x.full);
      sees = λ c hc. elim (Bool-cases (c == b)) [
        | inl e ↦
            subst (λ d. Sees card s' d (content d)) (sym ((==_iff c b).0 e))
              (x.content (content b) refl (v.sees b hb))
        | inr e ↦ x.sees c (content c) hc (λ z. ground arith) (v.sees c hc)
      ];
      room = x.room k v.room;
      super = x.super ∙ v.super;
    },
    x.shown (content b) refl (v.sees b hb),
  )

  module _ (law : IsSdCard card) (l : List Addr) (s : Disk card) (b : ℕ) (hb : b < n)
      (v : Shows card n content sb (suc k) l s) where
    get-Shows :
        Idle s
        → Runs
            (λ a t. Shows card n content sb k (a ∷ l) t × (t.pages a ≡ content b))
            (block_get card b true s)
    get-Shows (j, hj, idle) =
        Run.mono
          (block_get-Lent card law n v.used s v.coherent b hb (omega (arith, v.room)) true j hj
            idle)
          λ a t x. Lent-Shows l s b a t hb v x

  -- `block_get` of one more block, when at most one page is in use, shows what the file system sees in it.
  pub get_first-Shows :
      (law : IsSdCard card) (s : Disk card) (b : ℕ)
      → b < n
      → Shows card n content sb (suc k) [] s
      → Runs
          (λ a t. Shows card n content sb k (a ∷ []) t × (t.pages a ≡ content b))
          (block_get card b true s)
  get_first-Shows law s b hb v = get-Shows law [] s b hb v (Idle-none s v.in_use)

  pub get_second-Shows :
      (law : IsSdCard card) (s : Disk card) (b : ℕ) (p : Addr)
      → b < n
      → Shows card n content sb (suc k) (p ∷ []) s
      → Runs
          (λ a t. Shows card n content sb k (a ∷ p ∷ []) t × (t.pages a ≡ content b))
          (block_get card b true s)
  get_second-Shows law s b p hb v =
      get-Shows law (p ∷ []) s b hb v
        (Idle-one s p v.coherent (λ z. ground (arith, v.real)) v.in_use)

  -- `block_commit` without writing releases the page and changes nothing that is seen.
  pub commit-Shows :
      (a : Addr) (l : List Addr) (s : Disk card)
      → Shows card n content sb k (a ∷ l) s
      → Runs (λ _. Shows card n content sb k l) (block_commit card a false s)
  unfolding block_commit
  commit-Shows a l s v =
      elim (Option-cases (find_from (λ i. s.disk_buff i == a) 0 disk_buff_size)) [
        | inl e ↦ rw e (
            runs (record {
              used = v.used;
              coherent = v.coherent;
              in_use = λ j h u. ground (
                arith,
                v.in_use j h,
                find_from-none (λ i. s.disk_buff i == a) 0 disk_buff_size j e,
              );
              real = ground (arith, v.real);
              sees = v.sees;
              room = v.room;
              super = v.super;
            }))
        | inr (i, e) ↦
            let (lo, hi, has) = find_from-some (λ i. s.disk_buff i == a) 0 disk_buff_size i e in
            rw e (
              runs (record {
                used = v.used;
                coherent = v.coherent;
                in_use = λ j h u. ground (arith, v.in_use j h, v.coherent.apart j i h, v.real);
                real = ground (arith, v.real);
                sees = λ b hb. record {
                  buffered = (v.sees b hb).buffered;
                  stored = (v.sees b hb).stored;
                };
                room = v.room;
                super = v.super;
              }))
      ]

  -- The order of the pages does not matter.
  pub Shows-swap :
      (p q : Addr) (s : Disk card)
      → Shows card n content sb k (p ∷ q ∷ []) s
      → Shows card n content sb k (q ∷ p ∷ []) s
  Shows-swap p q s v = record {
    used = v.used;
    coherent = v.coherent;
    in_use = λ j h u. ground (arith, v.in_use j h);
    real = ground (arith, v.real);
    sees = v.sees;
    room = v.room;
    super = v.super;
  }

  pub Shows-less :
      (l : List Addr) (s : Disk card)
      → Shows card n content sb (suc k) l s
      → Shows card n content sb k l s
  Shows-less l s v = record {
    used = v.used;
    coherent = v.coherent;
    in_use = v.in_use;
    real = v.real;
    sees = v.sees;
    room = omega (arith, v.room);
    super = v.super;
  }

pub Shows-le :
    (card : SdCard) (n : ℕ) (content : ℕ → Words) (sb : SuperBlock) (d k : ℕ) (l : List Addr)
    (s : Disk card)
    → Shows card n content sb (d + k) l s
    → Shows card n content sb k l s
Shows-le card n content sb zero k l s v =
    let e : 0 + k ≡ k = omega arith in subst (λ m. Shows card n content sb m l s) e v
Shows-le card n content sb (suc d) k l s v =
    let e : suc d + k ≡ suc (d + k) = omega arith in
    Shows-le card n content sb d k l s
      (Shows-less card n content sb (d + k) l s (subst (λ m. Shows card n content sb m l s) e v))
