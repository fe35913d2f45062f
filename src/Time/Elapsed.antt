-- ===== src/Time/Elapsed.antt =====
-- What the clock of kernel/sched/time.c counts.
use ucas_operating_system_la.Base.{ℕ, ◌+◌, ◌-◌, ◌%◌, ◌^◌, ◌<◌, ◌≤◌, ◌≡◌, refl, arith}
use ucas_operating_system_la.Kernel.{Kernel}
use ucas_operating_system_la.Time.{get_ticks, update_time_elapsed}

-- The counts of the 32-bit counter since the last update.
abbrev pub counts : ℕ → ℕ → ℕ
counts last current = (current + 2 ^ 32 - last) % 2 ^ 32

-- With a counter of 32 bits and a clock below 2 ^ 63 an update adds the counts since the last one
-- when the counter has gone up, and one less than the counts of a wrap when it has not, also when it
-- has not moved, and notes the counter.
pub update_time_elapsed-counts :
    (k : Kernel) (current : ℕ)
    → current < 2 ^ 32
    → k.last_cp0_count < 2 ^ 32
    → k.time_elapsed < 2 ^ 63
    → (k.last_cp0_count < current
        → get_ticks (update_time_elapsed current k) ≡ get_ticks k + counts k.last_cp0_count current)
      × (current ≤ k.last_cp0_count
          → get_ticks (update_time_elapsed current k) + 1
            ≡ get_ticks k + (current + 2 ^ 32 - k.last_cp0_count))
      × ((update_time_elapsed current k).last_cp0_count ≡ current)
unfolding get_ticks update_time_elapsed
update_time_elapsed-counts k current c l t = (λ h. ground arith, λ h. ground arith, refl)
