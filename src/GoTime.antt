-- ===== src/GoTime.antt =====
-- Go's `time.Time` and `time.Duration`, as the program uses them. A time is the nanoseconds since
-- the zero time (year 1), a duration is signed nanoseconds of 64 bits.
use Prim.Native.Nat.{◌%◌}
use borgmatic_manager.Prelude.{ℕ, ◌+◌, ◌-◌, ◌*◌, ◌^◌, Bool, if◌then◌else◌}
use borgmatic_manager.Prelude.Int.{ℤ, pos, negsuc, ◌+ℤ◌, ◌-ℤ◌, ltb_ℤ, eqb_ℤ}

abbrev pub Time : Type 0
Time = ℤ

abbrev pub Duration : Type 0
Duration = ℤ

-- The zero `time.Time`.
abbrev pub zero_time : Time
zero_time = pos 0

abbrev pub second : ℕ
second = 1000000000

abbrev pub minute : ℕ
minute = 60 * second

abbrev pub max_duration : Duration
max_duration = pos (2 ^ 63 - 1)

abbrev pub min_duration : Duration
min_duration = negsuc (2 ^ 63 - 1)

abbrev pub is_zero : Time → Bool
is_zero t = eqb_ℤ t zero_time

-- `t.After(u)` and `t.Before(u)`.
abbrev pub after : Time → Time → Bool
after t u = ltb_ℤ u t

abbrev pub before : Time → Time → Bool
before t u = ltb_ℤ t u

-- `t.Add(d)`.
abbrev pub add : Time → Duration → Time
add t d = t +ℤ d

-- `t.Sub(u)` is held at the largest or smallest duration where the difference does not fit.
unfoldable pub sub : Time → Time → Duration
sub t u =
    if ltb_ℤ max_duration (t -ℤ u)
    then max_duration
    else if ltb_ℤ (t -ℤ u) min_duration
    then min_duration
    else t -ℤ u

-- `t.Truncate(d)`, the largest multiple of `d` since the zero time that is not after `t`.
unfoldable pub truncate : Time → ℕ → Time
truncate (pos n) d = pos (n - n % d)
truncate (negsuc n) d = negsuc (n - n % d + d - 1)
