-- ===== src/Fs/Files/Store.antt =====
-- `write` of fs/fs.c on a file whose blocks are there: which bytes of the file change.
use ucas_operating_system_la.Base.{
  ℕ, suc, ◌+◌, ◌-◌, ◌/◌, ◌%◌, ◌≤◌, ◌<◌, ◌≡◌, ◌≢◌, refl, ◌∙◌, sym, ap, arith, true, false,
  Bool-cases, inl, inr, [], ◌==◌, ==_ne, ==_iff, if◌then◌else◌, put, bnot,
}
use mathlib.Core.Path.{subst}
use ucas_operating_system_la.Base.Run
use ucas_operating_system_la.Base.Run.{Cmd, Runs, runs}
use ucas_operating_system_la.Bitmap.{Words}
use ucas_operating_system_la.Disk.{SdCard, Disk, SuperBlock, block_size}
use ucas_operating_system_la.Disk.Card.{IsSdCard}
use ucas_operating_system_la.Disk.Release.{Shows}
use ucas_operating_system_la.Disk.Rewrite.{block_get-Editable}
use ucas_operating_system_la.Fs.{Inode, get_byte}
use ucas_operating_system_la.Fs.Files.{bytes_in, write_chunk, chunks}
use ucas_operating_system_la.Fs.Files.Chunks.{IsChunk, chunks-IsChunk}
use ucas_operating_system_la.Fs.Files.Transfer.{
  within, bytes_in_lem, IsThere, byte_at, find_data_block-direct, chunk-there, left, spend,
}

-- No two places of the inode have the same block.
abbrev pub IsDistinct : Inode → Type 0
IsDistinct inode =
    (i j : ℕ) → i < 10 → j < 10 → inode.addrs i ≢ 0 → inode.addrs i ≡ inode.addrs j → i ≡ j

-- Where an offset lies that is in the block of a piece.
module _ (start size b o c off : ℕ) (h : IsChunk start size b o c) where
  inside_piece :
      off / block_size ≡ o / block_size
      → within (o % block_size) c (off % block_size) ≡ true
      → (within start (b + c) off ≡ true) × (b + (off % block_size - o % block_size) ≡ off - start)
  inside_piece q w =
      let lo : o % block_size ≤ off % block_size = ground arith in
      let hi : off % block_size < o % block_size + c = ground arith in
      let above : start ≤ off = omega (arith, h.place) in
      let below : off < start + (b + c) = omega (arith, h.place) in
      (ground arith, omega (arith, h.place))

  outside_piece :
      off / block_size ≡ o / block_size
      → within (o % block_size) c (off % block_size) ≡ false
      → (within start (b + c) off ≡ within start b off) × ((c == block_size) ≡ false)
  outside_piece q w = (ground (arith, h.place, h.one_block), ground (arith, h.one_block))

  elsewhere :
      (off / block_size == o / block_size) ≡ false → within start (b + c) off ≡ within start b off
  elsewhere q = ground (arith, h.place, h.one_block)

module _ (card : SdCard) (law : IsSdCard card) (n : ℕ) (sb : SuperBlock) (k start size : ℕ)
    (file : Inode) (t : IsThere n file start (start + size)) (apart : IsDistinct file)
    (content : ℕ → Words) (buff : ℕ → ℕ) where
  -- What `write` has done to the content after `b` bytes: the bytes of the file, and that the other blocks
  -- are as before.
  pub record Stored (b : ℕ) (content' : ℕ → Words) : Type 0 where
    pub bytes :
        (off : ℕ)
        → off / block_size < 10
        → file.addrs (off / block_size) ≢ 0
        → byte_at content' file off
          ≡ (if within start b off then buff (off - start) % 256 else byte_at content file off)
    pub others :
        (d : ℕ) → ((i : ℕ) → i < 10 → file.addrs i ≢ 0 → file.addrs i ≢ d) → content' d ≡ content d

  abbrev pub WrittenTo : ℕ → Inode → Disk card → Type 0
  WrittenTo b inode s =
      (content' : ℕ → Words) × (inode.addrs ≡ file.addrs)
      × Stored b content'
      × Shows card n content' sb (left card law n sb k start size file t b) [] s

  write_chunk-Stored :
      (b o c : ℕ) (content' : ℕ → Words) (w : Words)
      → IsChunk start size b o c
      → Stored b content'
      → (bnot (c == block_size) ≡ true → w ≡ content' (file.addrs (o / block_size)))
      → Stored
          (b + c)
          (put content' (file.addrs (o / block_size)) (bytes_in c buff b (o % block_size) w))
  write_chunk-Stored b o c content' w h x shown =
      let i : ℕ = o / block_size in
      let (low, ne, lt) = chunk-there card law n sb k start size file t b o c h in
      record {
        bytes = λ off l e. elim (Bool-cases (off / block_size == i)) [
          | inl mine ↦
              let q : off / block_size ≡ i = (==_iff (off / block_size) i).0 mine in
              let qa : file.addrs (off / block_size) ≡ file.addrs i = ap file.addrs q in
              rw ((==_iff (file.addrs (off / block_size)) (file.addrs i)).1 qa) (
                bytes_in_lem c buff b (o % block_size) w (off % block_size)
                ∙ elim (Bool-cases (within (o % block_size) c (off % block_size))) [
                  | inl z ↦
                      let (in_range, place) = inside_piece start size b o c off h q z in
                      rw (z, in_range, place) refl
                  | inr z ↦
                      let (same, partial) = outside_piece start size b o c off h q z in
                      rw (z, same)
                        (ap (λ (u : Words). get_byte u (off % block_size))
                            (shown (rw partial refl) ∙ ap content' (sym qa))
                          ∙ x.bytes off l e)
                ])
          | inr other ↦
              let far : file.addrs (off / block_size) ≢ file.addrs i =
                λ z. ground (arith, apart (off / block_size) i l low e z) in
              rw
                (
                  ==_ne (file.addrs (off / block_size)) (file.addrs i) far,
                  elsewhere start size b o c off h other,
                )
                (x.bytes off l e)
        ];
        others = λ d none_is.
            rw (==_ne d (file.addrs i) (λ z. none_is i low ne (sym z))) (x.others d none_is);
      }

  write_chunk-WrittenTo :
      (b o c : ℕ) (inode : Inode) (s : Disk card)
      → IsChunk start size b o c
      → WrittenTo b inode s
      → Runs (WrittenTo (b + c)) (write_chunk card buff b o c inode s)
  unfolding write_chunk
  write_chunk-WrittenTo b o c inode s h (content', same, x, v) =
      let i : ℕ = o / block_size in
      let q : inode.addrs i ≡ file.addrs i = ap (λ (u : ℕ → ℕ). u i) same in
      let (low, ne, lt) = chunk-there card law n sb k start size file t b o c h in
      let rest : ℕ = left card law n sb k start size file t (b + c) in
      let v' = spend card law n sb k start size file t content' b c s h.some_bytes h.inside v in
      rw (find_data_block-direct card o inode s low (λ z. ne (sym q ∙ z))) (
        Run.bind
          (block_get-Editable card n content' sb rest s v' law (inode.addrs i)
            (bnot (c == block_size)) (rw q lt))
          λ a u (shown, commit).
            let w : Words = bytes_in c buff b (o % block_size) (u.pages a) in
            Run.bind (commit w) λ r y v2. runs (
              put content' (file.addrs i) w,
              same,
              write_chunk-Stored b o c content' (u.pages a) h x (λ z. shown z ∙ ap content' q),
              subst (λ d. Shows card n (put content' d w) sb rest [] y) q v2,
            ))

  -- The whole of the loop of `write`.
  pub write-WrittenTo :
      (s : Disk card)
      → Shows card n content sb (left card law n sb k start size file t 0) [] s
      → Runs
          (λ r u. (r.0 ≡ start + size) × WrittenTo size r.1 u)
          (chunks card
            (suc size)
            start
            size
            (λ b o c x. write_chunk card buff b o c x)
            0
            start
            file
            s)
  write-WrittenTo s v =
      let e : start + 0 ≡ start = omega arith in
      subst
        (λ o.
          Runs (λ r u. (r.0 ≡ start + size) × WrittenTo size r.1 u)
            (chunks card (suc size) start size (λ b o' c x. write_chunk card buff b o' c x) 0 o file
              s))
        e
        (chunks-IsChunk card start size (λ b o c x. write_chunk card buff b o c x) WrittenTo
          write_chunk-WrittenTo (suc size) 0 file s (omega arith) (omega arith)
          (content, refl, record { bytes = λ off l ne. ground arith; others = λ d h. refl }, v))
