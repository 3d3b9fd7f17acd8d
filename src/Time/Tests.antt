-- ===== src/Time/Tests.antt =====
-- Times at the boundaries.
use toywasm.Base.{◌+◌, ◌-◌, ◌*◌, ◌/◌, ◌^◌, ◌≡◌, arith, ok, ltb, refl}
use toywasm.Time.{Timespec, timespec_cmp, timespec_add, timespec_sub, raw_sum}
use toywasm.Time.{
  compare, assert_normalized, abstime_from_reltime_ns, abstime_to_reltime_ms_roundup,
}
use toywasm.Time.Arithmetic.{IsNormalized, nanos, IsTime, IsTimeOrOverflow, timespec_cmp-compare}
use toywasm.Time.Arithmetic.{timespec_add-IsTimeOrOverflow, timespec_sub-IsTime}
use toywasm.Time.Convert.{
  int_or_overflow, abstime_from_reltime_ns-IsTimeOrOverflow, abstime_to_reltime_ms_roundup-eq,
}

abbrev early : Timespec
early = record { sec = 1; nsec = 999999999 }

abbrev late : Timespec
late = record { sec = 3; nsec = 5 }

abbrev latest : Timespec
latest = record { sec = 9223372036854775807; nsec = 999999999 }

early-IsNormalized : IsNormalized early
early-IsNormalized = record { sec = omega arith; nsec = omega arith }

late-IsNormalized : IsNormalized late
late-IsNormalized = record { sec = omega arith; nsec = omega arith }

latest-IsNormalized : IsNormalized latest
latest-IsNormalized = record { sec = omega arith; nsec = omega arith }

carries : timespec_add early late ≡ ok (record { sec = 5; nsec = 4 })
unfolding timespec_add assert_normalized raw_sum timespec_cmp
carries = refl

timespec_cmp-compare_example : timespec_cmp early late ≡ ok (compare (nanos early) (nanos late))
timespec_cmp-compare_example = timespec_cmp-compare early late early-IsNormalized late-IsNormalized

timespec_add-IsTimeOrOverflow_example :
    IsTimeOrOverflow
      (nanos latest + nanos early)
      (timespec_add latest early)
      (ltb (nanos latest + nanos early) (2 ^ 63 * 1000000000))
timespec_add-IsTimeOrOverflow_example =
    timespec_add-IsTimeOrOverflow latest early latest-IsNormalized early-IsNormalized

timespec_sub-IsTime_example : IsTime (nanos late - nanos early) (timespec_sub late early)
timespec_sub-IsTime_example =
    timespec_sub-IsTime late early late-IsNormalized early-IsNormalized (omega arith)

abstime_from_reltime_ns-IsTimeOrOverflow_example :
    IsTimeOrOverflow
      (nanos late + 18446744073709551615)
      (abstime_from_reltime_ns (ok late) 18446744073709551615)
      (ltb (nanos late + 18446744073709551615) (2 ^ 63 * 1000000000))
abstime_from_reltime_ns-IsTimeOrOverflow_example =
    abstime_from_reltime_ns-IsTimeOrOverflow late 18446744073709551615 late-IsNormalized
      (omega arith)

abstime_to_reltime_ms_roundup-eq_example :
    abstime_to_reltime_ms_roundup (ok early) late
    ≡ int_or_overflow ((nanos late - nanos early + 999999) / 1000000)
abstime_to_reltime_ms_roundup-eq_example =
    abstime_to_reltime_ms_roundup-eq early late early-IsNormalized late-IsNormalized
