-- ===== src/Time/Convert.antt =====
-- Relative and absolute times, and the conversion between clocks.
use Prim.Native.Nat.{compare}
use toywasm.Base.{ℕ, ◌+◌, ◌-◌, ◌*◌, ◌/◌, ◌^◌, ◌≤◌, ◌<◌, ◌≡◌, refl, arith, true, false, ltb, leb}
use toywasm.Base.{if◌then◌else◌, Result, ok, err, eoverflow, inl, inr, lt_or_le}
use toywasm.Time.{Timespec, is_lt, ms_roundup}
use toywasm.Time.{int_max, abstime_from_reltime_ns, abstime_to_reltime_ms_roundup, convert_timespec}
use toywasm.Time.Arithmetic.{IsNormalized, nanos, timespec_cmp-compare, IsTimeOrOverflow}
use toywasm.Time.Arithmetic.{
  timespec_add-IsTimeOrOverflow, timespec_sub-IsTime, timespec_from_ns-IsTime,
}

-- A number of nanoseconds from a clock's reading is that much later, or EOVERFLOW.
pub abstime_from_reltime_ns-IsTimeOrOverflow :
    (now : Timespec) (reltime_ns : ℕ)
    → IsNormalized now
    → reltime_ns < 2 ^ 64
    → IsTimeOrOverflow
        (nanos now + reltime_ns)
        (abstime_from_reltime_ns (ok now) reltime_ns)
        (ltb (nanos now + reltime_ns) (2 ^ 63 * 1000000000))
unfolding abstime_from_reltime_ns
abstime_from_reltime_ns-IsTimeOrOverflow now reltime_ns h r =
    let (rel, e, hr, er) = timespec_from_ns-IsTime reltime_ns r in
    rw (e, ← er) (timespec_add-IsTimeOrOverflow now rel h hr)

-- Milliseconds that an `int` holds, or EOVERFLOW.
abbrev pub int_or_overflow : ℕ → Result ℕ
int_or_overflow ms = if leb ms int_max then ok ms else err eoverflow

ms_roundup-eq :
    (t : Timespec) → IsNormalized t → ms_roundup t ≡ int_or_overflow ((nanos t + 999999) / 1000000)
unfolding ms_roundup
ms_roundup-eq t h = ground (arith, h.sec, h.nsec)

-- What is left until a time, in milliseconds rounded up: 0 if it has passed, EOVERFLOW exactly if an
-- `int` does not hold it. No assertion fails.
pub abstime_to_reltime_ms_roundup-eq :
    (now abstime : Timespec)
    → IsNormalized now
    → IsNormalized abstime
    → abstime_to_reltime_ms_roundup (ok now) abstime
      ≡ int_or_overflow ((nanos abstime - nanos now + 999999) / 1000000)
unfolding abstime_to_reltime_ms_roundup
abstime_to_reltime_ms_roundup-eq now abstime hn ha = elim (lt_or_le (nanos abstime) (nanos now)) [
  | inl passed ↦ rw (timespec_cmp-compare abstime now ha hn) (ground (arith, passed))
  | inr ahead ↦
      let (t, e, ht, et) = timespec_sub-IsTime abstime now ha hn ahead in
      rw (timespec_cmp-compare abstime now ha hn, e, not_lt ahead, ms_roundup-eq t ht, et) refl
]
  where
    not_lt : nanos now ≤ nanos abstime → is_lt (compare (nanos abstime) (nanos now)) ≡ false
    not_lt le = ground arith

module _ (from_now to_now from_ts : Timespec) (hf : IsNormalized from_now)
    (ht : IsNormalized to_now) (h : IsNormalized from_ts) where
  -- The conversion of a time that has not passed on its clock: the same distance from the reading of
  -- the other clock, or EOVERFLOW.
  pub convert_timespec-IsTimeOrOverflow :
      nanos from_now ≤ nanos from_ts
      → IsTimeOrOverflow
          (nanos from_ts - nanos from_now + nanos to_now)
          (convert_timespec (ok from_now) (ok to_now) from_ts)
          (ltb (nanos from_ts - nanos from_now + nanos to_now) (2 ^ 63 * 1000000000))
  unfolding convert_timespec
  convert_timespec-IsTimeOrOverflow ahead =
      let (t, e, hd, ed) = timespec_sub-IsTime from_ts from_now h hf ahead in
      rw (timespec_cmp-compare from_ts from_now h hf, not_lt ahead, e, ← ed)
        (timespec_add-IsTimeOrOverflow t to_now hd ht)
    where
      not_lt :
          nanos from_now ≤ nanos from_ts → is_lt (compare (nanos from_ts) (nanos from_now)) ≡ false
      not_lt le = ground arith

  -- A time that has passed on its clock, by less than the other clock shows, is refused with
  -- EOVERFLOW, although the other clock has had that time.
  convert_timespec-err :
      nanos from_ts < nanos from_now
      → nanos from_now - nanos from_ts < nanos to_now
      → convert_timespec (ok from_now) (ok to_now) from_ts ≡ err eoverflow
  unfolding convert_timespec
  convert_timespec-err passed shown =
      let (t, e, hd, ed) = timespec_sub-IsTime from_now from_ts hf h (omega arith) in
      rw
        (
          timespec_cmp-compare from_ts from_now h hf,
          is_before passed,
          e,
          timespec_cmp-compare to_now t ht hd,
          ed,
        )
        (ground (arith, shown))
    where
      is_before :
          nanos from_ts < nanos from_now → is_lt (compare (nanos from_ts) (nanos from_now)) ≡ true
      is_before lt = ground arith
