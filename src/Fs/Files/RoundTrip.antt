-- ===== src/Fs/Files/RoundTrip.antt =====
-- `write`, `seek` and `read` of fs/fs.c on an open file, and that what is written is read back.
use ucas_operating_system_la.Base.{
  ℕ, ◌+◌, ◌-◌, ◌/◌, ◌%◌, ◌<◌, ◌≡◌, ◌≢◌, refl, ◌∙◌, sym, ap, arith, true, [], ==_ne, ltb, lt→ltb,
  ltb→lt, Bool-cases, inl, inr, if◌then◌else◌,
}
use mathlib.Core.Path.{subst}
use ucas_operating_system_la.Base.Run
use ucas_operating_system_la.Base.Run.{Cmd, Runs, runs, ◌>>=◌, ◌>>◌}
use ucas_operating_system_la.Queue.{null}
use ucas_operating_system_la.Bitmap.{Words}
use ucas_operating_system_la.Disk.{SdCard, Disk, SuperBlock, block_size}
use ucas_operating_system_la.Disk.Card.{IsSdCard}
use ucas_operating_system_la.Disk.Release.{Shows}
use ucas_operating_system_la.Fs.{get_byte, Fs, File, Inode, on_disk-bind, max_files}
use ucas_operating_system_la.Fs.Files.{write, read, seek, file_of}
use ucas_operating_system_la.Fs.Files.Transfer.{within, IsThere, byte_at, left, read-ReadTo}
use ucas_operating_system_la.Fs.Files.Store.{IsDistinct, Stored, write-WrittenTo}

-- `fd` is open as the file `f`.
abbrev pub IsOpen : {card : SdCard} → ℕ → File → Fs card → Type 0
IsOpen fd f s =
    (fd < max_files) × (s.open_files fd ≢ null) × (s.files (file_of (s.open_files fd)) ≡ f)

module _ (card : SdCard) (law : IsSdCard card) (n : ℕ) (sb : SuperBlock) (k fd size : ℕ) (f : File)
    (t : IsThere n f.inode f.offset (f.offset + size)) (content : ℕ → Words) (buff : ℕ → ℕ) where
  -- The file afterwards: its offset has moved on, its blocks are where they were.
  abbrev Moved : Inode → File
  Moved inode = record f { offset = f.offset + size; inode = inode }

  at_start :
      (c : ℕ → Words) (d : Disk card)
      → Shows card n c sb (size + k) [] d
      → Shows card n c sb (left card law n sb k f.offset size f.inode t 0) [] d
  at_start c d v =
      let e : size + k ≡ size - 0 + k = omega arith in subst (λ m. Shows card n c sb m [] d) e v

  at_end :
      (c : ℕ → Words) (d : Disk card)
      → Shows card n c sb (left card law n sb k f.offset size f.inode t size) [] d
      → Shows card n c sb k [] d
  at_end c d v =
      let e : size - size + k ≡ k = omega arith in subst (λ m. Shows card n c sb m [] d) e v

  pub read-reads :
      (s : Fs card)
      → IsOpen fd f s
      → Shows card n content sb (size + k) [] s.disk
      → Runs
          (λ out u.
            ((j : ℕ)
              → out j ≡ (if ltb j size then byte_at content f.inode (f.offset + j) else buff j))
            × ((inode : Inode) × (inode.addrs ≡ f.inode.addrs) × IsOpen fd (Moved inode) u)
            × Shows card n content sb k [] u.disk)
          (read card fd buff size s)
  unfolding read
  read-reads s (lt, ne, e) v =
      rw (lt→ltb fd max_files lt, ==_ne (s.open_files fd) null ne, e)
        (on_disk-bind s _
          (read-ReadTo card law n sb k f.offset size f.inode t content buff s.disk
            (at_start content s.disk v))
          λ x d (e', (same, bytes, v')).
            rw e' (runs (bytes, (x.1.1, same, (lt, ne, ground arith)), at_end content d v')))

  pub write-writes :
      (s : Fs card)
      → (apart : IsDistinct f.inode) → IsOpen fd f s
      → Shows card n content sb (size + k) [] s.disk
      → Runs
          (λ _ u.
            (content' : ℕ → Words) × Stored card law n sb k f.offset size f.inode t apart content
              buff size content'
            × ((inode : Inode) × (inode.addrs ≡ f.inode.addrs) × IsOpen fd (Moved inode) u)
            × Shows card n content' sb k [] u.disk)
          (write card fd buff size s)
  unfolding write
  write-writes s apart (lt, ne, e) v =
      rw (lt→ltb fd max_files lt, ==_ne (s.open_files fd) null ne, e)
        (on_disk-bind s _
          (write-WrittenTo card law n sb k f.offset size f.inode t apart content buff s.disk
            (at_start content s.disk v))
          λ x d (e', (content', same, stored, v')).
            rw e'
              (runs (content', stored, (x.1, same, (lt, ne, ground arith)), at_end content' d v')))

-- The blocks depend on the addresses only.
IsThere-same :
    (n : ℕ) (inode inode' : Inode) (start end : ℕ)
    → inode'.addrs ≡ inode.addrs
    → IsThere n inode start end
    → IsThere n inode' start end
IsThere-same n inode inode' start end e t = record {
  direct = t.direct;
  there = λ i l lo hi. rw e (t.there i l lo hi);
  inside = λ i l lo hi. rw e (t.inside i l lo hi);
}

seek_lem :
    (card : SdCard) (fd offset : ℕ) (f : File) (s : Fs card)
    → IsOpen fd f s
    → Runs
        (λ _ u. (u.disk ≡ s.disk) × IsOpen fd (record f { offset = offset }) u)
        (seek card fd offset s)
unfolding seek
seek_lem card fd offset f s (lt, ne, e) =
    rw (lt→ltb fd max_files lt, ==_ne (s.open_files fd) null ne, e)
      (runs (refl, (lt, ne, ground arith)))

-- Over a card that reads back what was written, when no buffer is in use, the buffers are
-- consistent, the allocator has two pages for each byte, and the file is open and has its own blocks
-- for the bytes from its offset on, within the ten direct addresses of its inode, write, seek back
-- to the offset and read end, and give the bytes that were written; the rest of the caller's buffer
-- stays as it was.
pub read-write :
    (card : SdCard) (law : IsSdCard card) (n : ℕ) (sb : SuperBlock) (k fd size : ℕ) (f : File)
    (content : ℕ → Words) (buff out : ℕ → ℕ) (s : Fs card)
    → IsThere n f.inode f.offset (f.offset + size)
    → IsDistinct f.inode
    → IsOpen fd f s
    → Shows card n content sb (size + (size + k)) [] s.disk
    → Runs
        (λ r _. (j : ℕ) → r j ≡ (if ltb j size then buff j % 256 else out j))
        ((write card fd buff size >>= λ _. seek card fd f.offset >>= λ _. read card fd out size) s)
read-write card law n sb k fd size f content buff out s t apart open_fd v =
    Run.bind (write-writes card law n sb (size + k) fd size f t content buff s apart open_fd v)
      λ r u (content', stored, (inode, same, open'), v').
        Run.bind (seek_lem card fd f.offset _ u open') λ r' w (d, open'').
          let t' : IsThere n inode f.offset (f.offset + size) =
            IsThere-same n f.inode inode f.offset (f.offset + size) same t in
          let v'' = subst (λ x. Shows card n content' sb (size + k) [] x) (sym d) v' in
          Run.mono
            (read-reads card law n sb k fd size (record f { inode = inode }) t' content' out w
              open'' v'')
            λ x y (bytes, moved, rest). λ j. bytes j ∙ back j content' inode same stored
  where
    back :
        (j : ℕ) (content' : ℕ → Words) (inode : Inode)
        → inode.addrs ≡ f.inode.addrs
        → Stored card law n sb (size + k) f.offset size f.inode t apart content buff size content'
        → (if ltb j size then byte_at content' inode (f.offset + j) else out j)
          ≡ (if ltb j size then buff j % 256 else out j)
    back j content' inode same stored = elim (Bool-cases (ltb j size)) [
      | inr l ↦ rw l refl
      | inl l ↦
          let o : ℕ = f.offset + j in
          let h : j < size = ltb→lt j size l in
          let low : o / block_size < 10 = omega (arith, h, t.direct) in
          let ne : f.inode.addrs (o / block_size) ≢ 0 =
            t.there (o / block_size) low (omega arith) (omega (arith, h)) in
          let in_range : within f.offset size o ≡ true = ground arith in
          let same_place : o - f.offset ≡ j = omega arith in
          rw l (
            ap (λ (u : ℕ → ℕ). get_byte (content' (u (o / block_size))) (o % block_size)) same
            ∙ stored.bytes o low ne
            ∙ rw (in_range, same_place) refl)
    ]
