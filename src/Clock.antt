-- ===== src/Clock.antt =====
-- src/mc_time.c: the cached clock, in seconds since the process started, and the conversion of the
-- expiry times that clients send. A time_t is a number here: what the wall clock and time() give is
-- not negative, and exptime is a signed parameter.
pub mod Expiry
mod Tests
use twemcache.Base.{ℕ, ◌+◌, ◌-◌, ◌*◌, ◌%◌, ◌^◌, leb, ltb, if◌then◌else◌}
use twemcache.Base.Int.{ℤ, pos, negsuc}

-- The static variables of the file.
pub record Clock : Type 0 where
  pub process_started : ℕ
  pub now : ℕ
  pub now_usec : ℕ

abbrev pub time_maxdelta : ℕ
time_maxdelta = 60 * 60 * 24 * 30

-- (rel_time_t) of a signed value: reduction modulo 2^32.
abbrev pub to_rel : ℤ → ℕ
to_rel (pos n) = n % 2 ^ 32
to_rel (negsuc n) = (2 ^ 32 - 1) - n % 2 ^ 32

abbrev pub sub_ℕ : ℕ → ℕ → ℤ
sub_ℕ a b = if leb b a then pos (a - b) else negsuc (b - a - 1)

-- time_update, at `sec` seconds and `usec` microseconds of the wall clock.
pub update : Clock → ℕ → ℕ → Clock
update c sec usec = record c { now = to_rel (sub_ℕ sec c.process_started); now_usec = usec }

-- time_init, where time() gives `t`, and the wall clock is then at `sec` and `usec`.
pub init : ℕ → ℕ → ℕ → Clock
unfolding update
init t sec usec = update (record { process_started = t - 2; now = 0; now_usec = 0 }) sec usec

pub now_abs : Clock → ℕ
now_abs c = c.process_started + c.now

-- time_reltime
pub reltime : Clock → ℤ → ℕ
reltime c (pos exptime) =
    if leb exptime 0
    then 0
    else if ltb time_maxdelta exptime
    then if leb exptime c.process_started then 1 else to_rel (sub_ℕ exptime c.process_started)
    else (exptime + c.now) % 2 ^ 32
reltime c (negsuc n) = to_rel (sub_ℕ c.now (n + 1))
