-- ===== src/Timer/Clock.antt =====
-- src/utils/clock.h: the timespec macros that the timer list uses.
use libvma.Prelude.{ℕ, ◌+◌, ◌-◌, ◌*◌, ◌/◌, ◌≤◌, ◌<◌, ◌≡◌, arith, if◌then◌else◌}
use libvma.Prelude.Int.{ℤ, pos, negsuc, ◌+ℤ◌, ◌-ℤ◌, ◌*ℤ◌, ltb_ℤ}

pub record Timespec : Type 0 where
  pub tv_sec : ℤ
  pub tv_nsec : ℤ

abbrev pub nsec_per_sec : ℕ
nsec_per_sec = 1_000_000_000

abbrev pub nsec_per_msec : ℕ
nsec_per_msec = 1_000_000

abbrev pub msec_per_sec : ℕ
msec_per_sec = 1000

unfoldable pub ts_sub : Timespec → Timespec → Timespec
ts_sub a b =
    let sec = a.tv_sec -ℤ b.tv_sec in
    let nsec = a.tv_nsec -ℤ b.tv_nsec in
    if ltb_ℤ nsec (pos 0)
    then record { tv_sec = sec -ℤ pos 1; tv_nsec = nsec +ℤ pos nsec_per_sec }
    else record { tv_sec = sec; tv_nsec = nsec }

-- Division of a C integer by a positive constant goes towards zero.
abbrev pub div_int : ℤ → ℕ → ℤ
div_int (pos n) d = pos (n / d)
div_int (negsuc n) d = pos 0 -ℤ pos ((n + 1) / d)

unfoldable pub ts_to_msec : Timespec → ℤ
ts_to_msec t = t.tv_sec *ℤ pos msec_per_sec +ℤ div_int t.tv_nsec nsec_per_msec

-- A time on or after the epoch.
abbrev pub ts : ℕ → ℕ → Timespec
ts s n = record { tv_sec = pos s; tv_nsec = pos n }

abbrev pub nanos : ℕ → ℕ → ℕ
nanos s n = s * nsec_per_sec + n

-- The milliseconds from one time to a later one are the whole ones of the difference.
pub ts_to_msec-ts_sub :
    (s n s' n' : ℕ)
    → n < nsec_per_sec
    → n' < nsec_per_sec
    → nanos s n ≤ nanos s' n'
    → ts_to_msec (ts_sub (ts s' n') (ts s n)) ≡ pos ((nanos s' n' - nanos s n) / nsec_per_msec)
unfolding ts_to_msec ts_sub ◌-ℤ◌ ◌+ℤ◌ ◌*ℤ◌
ts_to_msec-ts_sub s n s' n' h h' le = ground arith
