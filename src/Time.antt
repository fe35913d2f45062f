-- ===== src/Time.antt =====
-- kernel/sched/time.c: the clock that the timer interrupt advances from the CP0 counter.
pub mod Elapsed
use ucas_operating_system_la.Base.{ℕ, ◌+◌, ◌-◌, ◌/◌, ◌%◌, ◌^◌, ltb, if◌then◌else◌}
use ucas_operating_system_la.Kernel.{Kernel}

pub get_ticks : Kernel → ℕ
get_ticks k = k.time_elapsed

unfoldable pub get_timer : Kernel → ℕ
get_timer k = k.time_elapsed / 300000

-- `current` is what `get_cp0_count` returns. The sums are those of `uint64_t`; `last_cp0_count` is at
-- most `current` in the first branch and at most 0xffffffff in the second, so neither difference is
-- negative.
unfoldable pub update_time_elapsed : (current : ℕ) → Kernel → Kernel
update_time_elapsed current k = record k {
  time_elapsed =
      if ltb k.last_cp0_count current
      then (k.time_elapsed + current - k.last_cp0_count) % 2 ^ 64
      else (k.time_elapsed + 0xffff_ffff + current - k.last_cp0_count) % 2 ^ 64;
  last_cp0_count = current;
}
