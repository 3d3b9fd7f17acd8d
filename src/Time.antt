-- ===== src/Time.antt =====
-- lib/timeutil.c: times as seconds and nanoseconds. A `time_t` is 64 bits wide and signed, and stands
-- here in two's complement. The functions that read a clock take what `clock_gettime` answers.
mod Arithmetic
mod Convert
mod Tests
use Prim.Native.Nat.{Ordering, compare}
use toywasm.Base.{
  ℕ, ◌+◌, ◌-◌, ◌*◌, ◌/◌, ◌%◌, ◌^◌, Bool, true, false, not, ◌||◌, ◌&&◌, ltb, leb, ◌==◌,
  if◌then◌else◌,
}
use toywasm.Base.{Result, ok, err, fault, eoverflow, ◌>>=◌, ◌>>◌, assert, check, u64}

-- `struct timespec`.
pub record Timespec : Type 0 where
  pub sec : ℕ
  pub nsec : ℕ

abbrev pub giga : ℕ
giga = 1000000000

unfoldable pub assert_normalized : Timespec → Result (Unit {0})
assert_normalized a = do assert (ltb a.sec (2 ^ 63)); assert (ltb a.nsec giga)

-- -1, 0 and 1 are `lt`, `eq` and `gt`.
unfoldable pub timespec_cmp : Timespec → Timespec → Result Ordering
timespec_cmp a b = do
  assert_normalized a
  assert_normalized b
  ok (
      if a.sec == b.sec
      then (if a.nsec == b.nsec
          then Ordering.eq
          else if leb a.nsec b.nsec
          then Ordering.lt
          else Ordering.gt)
      else if ltb a.sec b.sec
      then Ordering.lt
      else Ordering.gt)

abbrev pub is_lt : Ordering → Bool
is_lt Ordering.lt = true
is_lt _ = false

abbrev pub is_gt : Ordering → Bool
is_gt Ordering.gt = true
is_gt _ = false

-- The sum as it stands before the test for overflow: the seconds are added as `uintmax_t`.
unfoldable pub raw_sum : Timespec → Timespec → Timespec
raw_sum a b =
    let carry = leb giga (a.nsec + b.nsec) in
    record {
      sec = u64 (a.sec + b.sec + (if carry then 1 else 0));
      nsec = if carry then a.nsec + b.nsec - giga else a.nsec + b.nsec;
    }

unfoldable pub timespec_add : Timespec → Timespec → Result Timespec
timespec_add a b = do
  assert_normalized a
  assert_normalized b
  let c = raw_sum a b
  check (ltb c.sec (2 ^ 63)) eoverflow
  order ← timespec_cmp c a
  check (not (is_lt order)) eoverflow
  assert_normalized c
  ok c

unfoldable pub timespec_sub : Timespec → Timespec → Result Timespec
timespec_sub a b = do
  assert_normalized a
  assert_normalized b
  order ← timespec_cmp a b
  assert (not (is_lt order))
  let under = ltb a.nsec b.nsec
  let c : Timespec = record {
    sec = a.sec - b.sec - (if under then 1 else 0);
    nsec = if under then giga + a.nsec - b.nsec else a.nsec - b.nsec;
  }
  assert_normalized c
  ok c

unfoldable pub timespec_from_ns : (ns : ℕ) → Result Timespec
timespec_from_ns ns = do
  let sec = ns / giga
  let nsec = ns % giga
  check (u64 (sec * giga + nsec) == ns) eoverflow
  let a : Timespec = record { sec = sec; nsec = nsec }
  assert_normalized a
  ok a

abbrev pub uint64_max : ℕ
uint64_max = 2 ^ 64 - 1

unfoldable pub timespec_to_ms : Timespec → ℕ
timespec_to_ms tv =
    let ms1 = u64 (tv.sec * 1000) in
    let ms2 = tv.nsec / 1000000 in
    if ltb (uint64_max / 1000) tv.sec
    then uint64_max
    else if ltb (uint64_max - ms1) ms2
    then uint64_max
    else u64 (ms1 + ms2)

unfoldable pub abstime_from_reltime_ns : (now : Result Timespec) (reltime_ns : ℕ) → Result Timespec
abstime_from_reltime_ns now reltime_ns = do
  reltime ← timespec_from_ns reltime_ns
  t ← now
  timespec_add t reltime

-- The milliseconds are an `int`: a negative one is a large `uint64_t`, in two's complement.
unfoldable pub abstime_from_reltime_ms : (now : Result Timespec) (reltime_ms : ℕ) → Result Timespec
abstime_from_reltime_ms now reltime_ms = abstime_from_reltime_ns now (u64 (reltime_ms * 1000000))

abbrev pub int_max : ℕ
int_max = 2 ^ 31 - 1

-- The part from a span of time to whole milliseconds.
unfoldable pub ms_roundup : Timespec → Result ℕ
ms_roundup reltime = do
  check (leb reltime.sec (int_max / 1000)) eoverflow
  let msec = reltime.sec * 1000
  let msec2 = (reltime.nsec + 999999) / 1000000
  check (leb msec2 (int_max - msec)) eoverflow
  ok (msec + msec2)

unfoldable pub abstime_to_reltime_ms_roundup :
    (now : Result Timespec) (abstime : Timespec) → Result ℕ
abstime_to_reltime_ms_roundup now abstime = do
  t ← now
  order ← timespec_cmp abstime t
  let later : Result ℕ = do reltime ← timespec_sub abstime t; ms_roundup reltime
  if is_lt order then ok 0 else later

unfoldable pub convert_timespec :
    (from_clock to_clock : Result Timespec) (from_ts : Timespec) → Result Timespec
convert_timespec from_clock to_clock from_ts = do
  from_now ← from_clock
  to_now ← to_clock
  order ← timespec_cmp from_ts from_now
  let ahead : Result Timespec = do t ← timespec_sub from_ts from_now; timespec_add t to_now
  let behind : Result Timespec = do
    t ← timespec_sub from_now from_ts
    before ← timespec_cmp to_now t
    check (not (is_gt before)) eoverflow
    timespec_sub to_now t
  if is_lt order then behind else ahead
