-- ===== src/Clock.antt =====
-- Go's `time.Time` and `time.Duration`, as far as the program uses them. A time is the number of
-- nanoseconds since the zero time; a duration is an `int64` of nanoseconds.
use agent_server.Prelude.{
  ℕ, ◌-◌, ◌≤◌, Bool, ◌==◌, ltb, leb, if◌then◌else◌, ℤ, pos, negsuc, In64, ◌≤ℤ◌, mul64, arith,
}

abbrev pub Time : Type 0
Time = ℕ

abbrev pub Duration : Type 0
Duration = ℤ

abbrev pub zero_time : Time
zero_time = 0

-- t.IsZero()
abbrev pub is_zero : Time → Bool
is_zero t = t == 0

-- t.Before(u)
abbrev pub before : Time → Time → Bool
before t u = ltb t u

-- t.Sub(u), which saturates at the ends of `int64`.
unfoldable pub time_sub : Time → Time → Duration
time_sub t u =
    if leb u t
    then pos (if leb (t - u) 9223372036854775807 then t - u else 9223372036854775807)
    else negsuc (if leb (u - t) 9223372036854775808 then u - t - 1 else 9223372036854775807)

-- One millisecond, in nanoseconds.
abbrev pub millisecond : Duration
millisecond = pos 1000000

-- time.Duration(n) * time.Millisecond
unfoldable pub milliseconds : ℤ → Duration
unfolding mul64
milliseconds n = mul64 n millisecond

pub time_sub-In64 : (t u : Time) → In64 (time_sub t u)
unfolding time_sub
time_sub-In64 t u = ground arith

-- A later clock reading never shortens the time since `u`.
pub time_sub-mono : (t t' u : Time) → t ≤ t' → time_sub t u ≤ℤ time_sub t' u
unfolding time_sub
time_sub-mono t t' u h = ground arith
