-- ===== src/Fs/Files/Chunks.antt =====
-- The loop of `read` and `write` of fs/fs.c goes over what it transfers once, in pieces that stay within
-- one block.
use ucas_operating_system_la.Base.{
  ℕ, zero, suc, ◌+◌, ◌-◌, ◌%◌, ◌≤◌, ◌<◌, ◌≡◌, refl, arith, Bool-cases, inl, inr, ltb, ltb→lt, ap,
}
use mathlib.Core.Path.{subst}
use ucas_operating_system_la.Base.Run
use ucas_operating_system_la.Base.Run.{Cmd, Runs, runs}
use ucas_operating_system_la.Disk.{SdCard, Disk, block_size}
use ucas_operating_system_la.Fs.Files.{chunk_end, chunks}

-- A piece of the transfer of `size` bytes from the offset `start` on: it is not empty, and lies in one
-- block.
pub record IsChunk (start size buff_off file_off copy_size : ℕ) : Type 0 where
  pub place : file_off ≡ start + buff_off
  pub some_bytes : 0 < copy_size
  pub inside : buff_off + copy_size ≤ size
  pub one_block : file_off % block_size + copy_size ≤ block_size

pub chunk_end-IsChunk :
    (start size buff_off : ℕ)
    → buff_off < size
    → let off : ℕ = start + buff_off in
      (IsChunk start size buff_off off (chunk_end start size off - off))
      × (off ≤ chunk_end start size off)
unfolding chunk_end
chunk_end-IsChunk start size buff_off h = (
  record {
    place = refl;
    some_bytes = ground arith;
    inside = ground arith;
    one_block = ground arith;
  },
  ground arith,
)

module _ (card : SdCard) {X : Type 0} (start size : ℕ)
    (body : (buff_off file_off copy_size : ℕ) → X → Cmd (Disk card) X)
    (P : ℕ → X → Disk card → Type 0)
    (step : (b o c : ℕ) (x : X) (s : Disk card)
      → IsChunk start size b o c
      → P b x s
      → Runs (P (b + c)) (body b o c x s)) where
  -- When every piece can be transferred, the loop ends after the last byte.
  pub chunks-IsChunk :
      (m b : ℕ) (x : X) (s : Disk card)
      → size < m + b
      → b ≤ size
      → P b x s
      → Runs
          (λ r t. (r.0 ≡ start + size) × P size r.1 t)
          (chunks card m start size body b (start + b) x s)
  unfolding chunks
  chunks-IsChunk zero b x s h l p = absurd (omega arith)
  chunks-IsChunk (suc m) b x s h l p = elim (Bool-cases (ltb b size)) [
    | inl more ↦
        let end : ℕ = chunk_end start size (start + b) in
        let c : ℕ = end - (start + b) in
        let (chunk, le) = chunk_end-IsChunk start size b (ltb→lt b size more) in
        let e : start + (b + c) ≡ end = omega (arith, le) in
        rw more (
          Run.bind (step b (start + b) c x s chunk p) λ y t q.
            subst
              (λ u.
                Runs (λ r t. (r.0 ≡ start + size) × P size r.1 t)
                  (chunks card m start size body (b + c) u y t))
              e (chunks-IsChunk m (b + c) y t (omega (arith, h, chunk.some_bytes)) chunk.inside q))
    | inr done ↦
        let e : b ≡ size = ground arith in
        rw done (runs (ap (λ (u : ℕ). start + u) e, subst (λ u. P u x s) e p))
  ]
