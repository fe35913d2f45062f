-- ===== src/Mailbox/Ring.antt =====
-- The ring of bytes of a mailbox (libs/mailbox.c) is a first-in first-out queue.
use ucas_operating_system_la.Base.{
  ℕ, zero, suc, ◌+◌, ◌-◌, ◌%◌, ◌≤◌, ◌<◌, ◌≡◌, refl, ap, ◌∙◌, arith, ltb, lt→ltb, false,
  if◌then◌else◌,
}
use ucas_operating_system_la.Mailbox.{
  Mailbox, max_mbox_length, put_bytes, take_bytes, mbox_put, mbox_take,
}

-- The indices are in range and `end` is `buff_used` bytes after `start`.
pub record IsRing (b : Mailbox) : Type 0 where
  pub used : b.buff_used ≤ max_mbox_length
  pub start_low : b.start < max_mbox_length
  pub end_at : b.end ≡ (b.start + b.buff_used) % max_mbox_length

-- The `i`-th byte that waits in the mailbox.
abbrev pub byte : Mailbox → ℕ → ℕ
byte b i = b.buff ((b.start + i) % max_mbox_length)

put_bytes_lem :
    (n : ℕ) (src : ℕ → ℕ) (end : ℕ) (dst : ℕ → ℕ) (a : ℕ)
    → n ≤ max_mbox_length
    → end < max_mbox_length
    → a < max_mbox_length
    → put_bytes n src end dst a ≡ (
        if ltb ((a + max_mbox_length - end) % max_mbox_length) n
        then src ((a + max_mbox_length - end) % max_mbox_length)
        else dst a)
unfolding put_bytes
put_bytes_lem zero src end dst a h k l = ground arith
put_bytes_lem (suc n) src end dst a h k l =
    ground (arith, put_bytes_lem n src end dst a (omega arith) k l)

take_bytes_lem :
    (n : ℕ) (src : ℕ → ℕ) (start : ℕ) (dst : ℕ → ℕ) (i : ℕ)
    → take_bytes n src start dst i
      ≡ (if ltb i n then src ((start + i) % max_mbox_length) else dst i)
unfolding take_bytes
take_bytes_lem zero src start dst i = ground arith
take_bytes_lem (suc n) src start dst i = ground (arith, take_bytes_lem n src start dst i)

-- When the ring is well formed, a message that fits goes behind the bytes that wait, which stay in
-- order, and the ring stays well formed.
pub mbox_put-appends :
    (msg : ℕ → ℕ) (n : ℕ) (b : Mailbox)
    → IsRing b
    → b.buff_used + n ≤ max_mbox_length
    → let b' = mbox_put msg n b in
      IsRing b'
      × (b'.buff_used ≡ b.buff_used + n)
      × ((i : ℕ) → i < b.buff_used → byte b' i ≡ byte b i)
      × ((i : ℕ) → i < n → byte b' (b.buff_used + i) ≡ msg i)
unfolding mbox_put
mbox_put-appends msg n b r h =
    let at = λ (i : ℕ) (l : i < 64).
      put_bytes_lem n msg b.end b.buff ((b.start + i) % 64) (omega (arith, h))
        (omega (arith, r.end_at)) (omega arith) in
    (
      record { used = h; start_low = r.start_low; end_at = omega (arith, r.end_at) },
      refl,
      λ i l.
          (let d : ltb (((b.start + i) % 64 + 64 - b.end) % 64) n ≡ false =
              ground (arith, r.end_at, r.start_low) in
            at i (omega (arith, r.used)) ∙ rw d refl),
      λ i l.
          (let d : ((b.start + (b.buff_used + i)) % 64 + 64 - b.end) % 64 ≡ i =
              omega (arith, r.end_at, r.start_low) in
            at (b.buff_used + i) (omega arith) ∙ rw (d, lt→ltb i n l) refl),
    )

-- When the ring is well formed, taking as many bytes as wait or fewer gives the first ones in order,
-- leaves those behind them, and keeps the ring well formed.
pub mbox_take-first :
    (msg : ℕ → ℕ) (n : ℕ) (b : Mailbox)
    → IsRing b
    → n ≤ b.buff_used
    → let (msg', b') = mbox_take msg n b in
      IsRing b'
      × (b'.buff_used + n ≡ b.buff_used)
      × ((i : ℕ) → i < n → msg' i ≡ byte b i)
      × ((i : ℕ) → i < b'.buff_used → byte b' i ≡ byte b (n + i))
unfolding mbox_take
mbox_take-first msg n b r h = (
  record {
    used = omega (arith, r.used);
    start_low = omega arith;
    end_at = omega (arith, r.end_at);
  },
  omega arith,
  λ i l. ground (arith, take_bytes_lem n b.buff b.start msg i),
  λ i l.
      let e : ((b.start + n) % 64 + i) % 64 ≡ (b.start + (n + i)) % 64 = omega arith in ap b.buff e,
)
