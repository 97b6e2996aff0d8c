-- ===== src/System/Busy.antt =====
-- The share of the host's CPUs in internal/system/collector_windows.go.
use browser_analysis.Prelude.{ℕ, ◌+◌, ◌-◌, ◌≤◌, ◌<◌, ◌≡◌, refl, false, Option, none, some, arith}
use browser_analysis.Prelude.Double.{Double}
use browser_analysis.Prelude.Word.{u64_mod}
use browser_analysis.System.{
  HostCollector, SystemTimes, Memory, busy_of, remembered, cpu_of, sample_host,
}

-- The counters ran on from one sample to the next: none fell, the time of the kernel, which includes the
-- idle time, grew at least as much as that, and all together fit into 64 bits.
pub record RanOn (t t' : SystemTimes) : Type 0 where
  pub idle_grew : t.idle ≤ t'.idle
  pub kernel_grew : t.kernel ≤ t'.kernel
  pub user_grew : t.user ≤ t'.user
  pub idle_in_kernel : t'.idle + t.kernel ≤ t'.kernel + t.idle
  pub fits : t'.kernel + t'.user < u64_mod
  pub idle_fits : t'.idle < u64_mod

busy-le-total :
    (t t' : SystemTimes)
    → RanOn t t'
    → ((busy_of (remembered t) t').0 + (t'.idle - t.idle) ≡ (busy_of (remembered t) t').1)
      × ((busy_of (remembered t) t').1 ≡ (t'.kernel - t.kernel) + (t'.user - t.user))
unfolding busy_of
busy-le-total t t' h = omega arith

module _ {F : Type 0} ⦃d : Double F⦄ where
  -- Whatever the collector holds, after a sample whose times `t` could be read, even if its memory could
  -- not, it holds these; and then in the next sample the busy ticks with the idle ones are the total, the
  -- growth of kernel and user time, if the counters ran on, so that the share is at most
  -- a hundred percent of it. The first sample has the share 0.
  pub busy_share :
      (c : HostCollector) (t t' : SystemTimes) (mem : Option Memory) (rss : ℕ)
      → RanOn t t'
      → let c' = (sample_host {F = F} c (some t) mem rss).1 in
        (c' ≡ remembered t)
        × ((busy_of c' t').0 + (t'.idle - t.idle) ≡ (busy_of c' t').1)
        × ((busy_of c' t').1 ≡ (t'.kernel - t.kernel) + (t'.user - t.user))
        × (c.sampled ≡ false → cpu_of {F = F} c t ≡ d.of_nat 0)
  unfolding sample_host cpu_of
  busy_share c t t' none rss h =
      (refl, (busy-le-total t t' h).0, (busy-le-total t t' h).1, λ first. rw first refl)
  busy_share c t t' (some m) rss h =
      (refl, (busy-le-total t t' h).0, (busy-le-total t t' h).1, λ first. rw first refl)
