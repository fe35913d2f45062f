-- ===== src/Fs/Files/Transfer.antt =====
-- `read` and `write` of fs/fs.c on files whose blocks are there, within the addresses in the inode.
use ucas_operating_system_la.Base.{
  ℕ, zero, suc, ◌+◌, ◌-◌, ◌*◌, ◌/◌, ◌%◌, ◌≤◌, ◌<◌, ◌≡◌, ◌≢◌, refl, ◌∙◌, sym, ap, arith, Bool, true,
  Bool-cases, inl, inr, some, [], ◌&&◌, ==_ne, ltb, leb, lt→ltb, if◌then◌else◌, put,
}
use mathlib.Core.Path.{subst}
use ucas_operating_system_la.Base.Run
use ucas_operating_system_la.Base.Run.{Cmd, Runs, runs}
use ucas_operating_system_la.Bitmap.{Words}
use ucas_operating_system_la.Disk.{SdCard, Disk, SuperBlock, block_size}
use ucas_operating_system_la.Disk.Card.{IsSdCard}
use ucas_operating_system_la.Disk.Release.{Shows, Shows-le, get_first-Shows, commit-Shows}
use ucas_operating_system_la.Fs.{Inode, get_byte, put_byte}
use ucas_operating_system_la.Fs.Bytes.{get_byte-put_byte}
use ucas_operating_system_la.Fs.DataBlock.{find_data_block, own_addr, grown}
use ucas_operating_system_la.Fs.Files.{bytes_in, bytes_out, read_chunk, chunks}
use ucas_operating_system_la.Fs.Files.Chunks.{IsChunk, chunks-IsChunk}

-- Whether `j` is one of the `n` places from `lo` on.
abbrev pub within : (lo n j : ℕ) → Bool
within lo n j = leb lo j && ltb j (lo + n)

bytes_out_lem :
    (n : ℕ) (w : Words) (at to : ℕ) (buff : ℕ → ℕ) (j : ℕ)
    → bytes_out n w at to buff j ≡ (if within to n j then get_byte w (at + (j - to)) else buff j)
unfolding bytes_out
bytes_out_lem zero w at to buff j = ground arith
bytes_out_lem (suc n) w at to buff j =
    ground (arith, bytes_out_lem n w (suc at) (suc to) (put buff to (get_byte w at)) j)

pub bytes_in_lem :
    (n : ℕ) (buff : ℕ → ℕ) (from at : ℕ) (w : Words) (j : ℕ)
    → get_byte (bytes_in n buff from at w) j
      ≡ (if within at n j then buff (from + (j - at)) % 256 else get_byte w j)
unfolding bytes_in
bytes_in_lem zero buff from at w j = ground arith
bytes_in_lem (suc n) buff from at w j = ground (
  arith,
  bytes_in_lem n buff (suc from) (suc at) (put_byte w at (buff from)) j,
  get_byte-put_byte w at (buff from) j,
)

-- The blocks of the file with the bytes from `start` to before `end` are there.
pub record IsThere (n : ℕ) (inode : Inode) (start end : ℕ) : Type 0 where
  pub direct : end ≤ 10 * block_size
  pub there : (i : ℕ) → i < 10 → start / block_size ≤ i → i * block_size < end → inode.addrs i ≢ 0
  pub inside : (i : ℕ) → i < 10 → start / block_size ≤ i → i * block_size < end → inode.addrs i < n

-- The byte of the file at an offset, as the file system sees it.
abbrev pub byte_at : (ℕ → Words) → Inode → ℕ → ℕ
byte_at content inode off = get_byte (content (inode.addrs (off / block_size))) (off % block_size)

-- A block that is there is found.
pub find_data_block-direct :
    (card : SdCard) (off : ℕ) (inode : Inode) (s : Disk card)
    → off / block_size < 10
    → inode.addrs (off / block_size) ≢ 0
    → find_data_block card off inode s
      ≡ some ((inode.addrs (off / block_size), grown card inode (off / block_size)), s)
unfolding find_data_block own_addr
find_data_block-direct card off inode s h ne =
    rw (lt→ltb (off / block_size) 10 h, ==_ne (inode.addrs (off / block_size)) 0 ne) refl

module _ (card : SdCard) (law : IsSdCard card) (n : ℕ) (sb : SuperBlock) (k start size : ℕ)
    (file : Inode) (t : IsThere n file start (start + size)) where
  -- The block of a piece is one of the file's.
  pub chunk-there :
      (b o c : ℕ)
      → IsChunk start size b o c
      → (o / block_size < 10)
        × (file.addrs (o / block_size) ≢ 0)
        × (file.addrs (o / block_size) < n)
  chunk-there b o c h =
      let i : ℕ = o / block_size in
      let low : i < 10 = omega (arith, h.place, h.some_bytes, h.inside, t.direct) in
      let lo : start / block_size ≤ i = omega (arith, h.place) in
      let hi : i * block_size < start + size = omega (arith, h.place, h.some_bytes, h.inside) in
      (low, t.there i low lo hi, t.inside i low lo hi)

  -- Where the bytes of a piece lie.
  pub piece_at :
      (b o c j : ℕ)
      → IsChunk start size b o c
      → within b c j ≡ true
      → ((start + j) / block_size ≡ o / block_size)
        × ((start + j) % block_size ≡ o % block_size + (j - b))
  piece_at b o c j h w =
      let lo : b ≤ j = ground arith in
      let hi : j < b + c = ground arith in
      (omega (arith, h.place, h.one_block), omega (arith, h.place, h.one_block))

  -- The pages that are left for the pieces behind the first `b` bytes.
  abbrev pub left : ℕ → ℕ
  left b = size - b + k

  -- Before a piece there is a page for it, and after it enough for the rest.
  pub spend :
      (content : ℕ → Words) (b c : ℕ) (s : Disk card)
      → 0 < c
      → b + c ≤ size
      → Shows card n content sb (left b) [] s
      → Shows card n content sb (suc (left (b + c))) [] s
  spend content b c s h l v = Shows-le card n content sb (c - 1) (suc (left (b + c))) [] s (
      let e : left b ≡ c - 1 + suc (left (b + c)) = omega (arith, h, l) in
      subst (λ m. Shows card n content sb m [] s) e v)

  module _ (content : ℕ → Words) (buff : ℕ → ℕ) where
    -- What `read` has done after `b` bytes.
    abbrev pub ReadTo : ℕ → (ℕ → ℕ) × Inode → Disk card → Type 0
    ReadTo b x s =
        (x.1.addrs ≡ file.addrs)
        × ((j : ℕ) → x.0 j ≡ (if ltb j b then byte_at content file (start + j) else buff j))
        × Shows card n content sb (left b) [] s

    read_byte :
        (b o c j : ℕ) (out : ℕ → ℕ) (h : IsChunk start size b o c) (addr : ℕ)
        → addr ≡ file.addrs (o / block_size)
        → out j ≡ (if ltb j b then byte_at content file (start + j) else buff j)
        → bytes_out c (content addr) (o % block_size) b out j
          ≡ (if ltb j (b + c) then byte_at content file (start + j) else buff j)
    read_byte b o c j out h addr q done =
        bytes_out_lem c (content addr) (o % block_size) b out j ∙ elim (Bool-cases (within b c j)) [
          | inl w ↦
              let (d, m) = piece_at b o c j h w in
              rw (w, lt→ltb j (b + c) (ground arith), d, m, q) refl
          | inr w ↦ rw w (done ∙ ground arith)
        ]

    read_chunk-ReadTo :
        (b o c : ℕ) (x : (ℕ → ℕ) × Inode) (s : Disk card)
        → IsChunk start size b o c
        → ReadTo b x s
        → Runs (ReadTo (b + c)) (read_chunk card b o c x s)
    unfolding read_chunk
    read_chunk-ReadTo b o c (out, inode) s h (same, done, v) =
        let i : ℕ = o / block_size in
        let q : inode.addrs i ≡ file.addrs i = ap (λ (u : ℕ → ℕ). u i) same in
        let (low, ne, lt) = chunk-there b o c h in
        rw (find_data_block-direct card o inode s low (λ z. ne (sym q ∙ z))) (
          Run.bind
            (get_first-Shows card n content sb (left (b + c)) law s (inode.addrs i) (rw q lt)
              (spend content b c s h.some_bytes h.inside v))
            λ a u (v1, shown). rw shown (
              Run.bind (commit-Shows card n content sb (left (b + c)) a [] u v1) λ r w v2.
                runs (same, (λ j. read_byte b o c j out h (inode.addrs i) q (done j)), v2)))

    -- The whole of `read`.
    pub read-ReadTo :
        (s : Disk card)
        → Shows card n content sb (left 0) [] s
        → Runs
            (λ r u. (r.0 ≡ start + size) × ReadTo size r.1 u)
            (chunks card
              (suc size)
              start
              size
              (λ b o c x. read_chunk card b o c x)
              0
              start
              (buff, file)
              s)
    read-ReadTo s v =
        let e : start + 0 ≡ start = omega arith in
        subst
          (λ o.
            Runs (λ r u. (r.0 ≡ start + size) × ReadTo size r.1 u)
              (chunks card (suc size) start size (λ b o' c x. read_chunk card b o' c x) 0 o
                (buff, file) s))
          e
          (chunks-IsChunk card start size (λ b o c x. read_chunk card b o c x) ReadTo
            read_chunk-ReadTo (suc size) 0 (buff, file) s (omega arith) (omega arith)
            (refl, (λ j. ground arith), v))
