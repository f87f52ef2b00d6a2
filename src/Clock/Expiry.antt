-- ===== src/Clock/Expiry.antt =====
-- When an item stored with a client's expiry time expires.
use twemcache.Base.{suc, ℕ, ◌+◌, ◌^◌, ◌≤◌, ◌<◌, ◌≡◌, ◌↔◌, leb, if◌then◌else◌, arith}
use twemcache.Base.Int.{pos, negsuc}
use twemcache.Clock.{Clock, time_maxdelta, now_abs, reltime}

-- The absolute second at which a positive exptime is meant to expire: a delta of at most 30 days is
-- counted from now, anything larger is a Unix time.
abbrev pub deadline : Clock → ℕ → ℕ
deadline c exptime = if leb exptime time_maxdelta then now_abs c + exptime else exptime

-- For a positive expiry time whose deadline is less than 2^32 seconds after the start of the
-- process, the relative time that time_reltime gives is positive, and any later positive relative
-- time has reached it exactly if it has reached the deadline: the expiry time itself, or the
-- current time plus it if it is at most 30 days.
pub reltime_lem :
    (c : Clock) (exptime later : ℕ)
    → 0 < exptime
    → deadline c exptime < c.process_started + 2 ^ 32
    → 0 < later
    → (0 < reltime c (pos exptime))
      × ((reltime c (pos exptime) ≤ later) ↔ (deadline c exptime ≤ c.process_started + later))
unfolding reltime now_abs
reltime_lem c exptime later a b d = ground arith

-- For an expiry time of at least 0 whose deadline is less than 2^32 seconds after the start of
-- the process, time_reltime gives 0, which means no expiry, exactly for 0.
reltime-zero :
    (c : Clock) (exptime : ℕ)
    → deadline c exptime < c.process_started + 2 ^ 32
    → (reltime c (pos exptime) ≡ 0) ↔ (exptime ≡ 0)
unfolding reltime now_abs
reltime-zero c exptime b = ground arith

-- For a clock and a negative expiry time of less than 2^31 in size, time_reltime gives the second
-- that lies that far before now if that is after the start, gives 0 if it is the start, and gives
-- a time at least 2^31 seconds after the start if it is before the start.
pub reltime-negative :
    (c : Clock) (n : ℕ)
    → n < 2 ^ 31
    → c.now < 2 ^ 31
    → (suc n < c.now → reltime c (negsuc n) + suc n ≡ c.now)
      × (suc n ≡ c.now → reltime c (negsuc n) ≡ 0)
      × (c.now < suc n → 2 ^ 31 ≤ reltime c (negsuc n))
unfolding reltime
reltime-negative c n a b = ground arith
