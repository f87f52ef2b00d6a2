-- ===== src/Clock/Tests.antt =====
-- Tests of the clock, and its theorems at concrete times.
use twemcache.Base.{ℕ, ◌+◌, ◌^◌, ◌≤◌, ◌<◌, ◌≡◌, ◌↔◌, refl, arith}
use twemcache.Base.Int.{pos, negsuc}
use twemcache.Clock.{Clock, init, reltime, now_abs}
use twemcache.Clock.Expiry.{deadline, reltime_lem, reltime-negative}

abbrev at_50 : Clock
at_50 = record { process_started = 1_000_000_000; now = 50; now_usec = 0 }

starts_at_2 : (init 1_000_000_002 1_000_000_002 0).now ≡ 2
unfolding init
starts_at_2 = refl

reltime_lem_example :
    (0 < reltime at_50 (pos 60))
    × ((reltime at_50 (pos 60) ≤ 100) ↔ (deadline at_50 60 ≤ 1_000_000_000 + 100))
reltime_lem_example =
    reltime_lem at_50 60 100 (omega arith) (unfold now_abs in omega arith) (omega arith)

reltime-negative_example :
    (100 < 50 → reltime at_50 (negsuc 99) + 100 ≡ 50)
    × (◌≡◌ {A = ℕ} 100 50 → reltime at_50 (negsuc 99) ≡ 0)
    × (50 < 100 → 2 ^ 31 ≤ reltime at_50 (negsuc 99))
reltime-negative_example = reltime-negative at_50 99 (omega arith) (omega arith)
