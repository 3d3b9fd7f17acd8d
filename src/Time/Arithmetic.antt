-- ===== src/Time/Arithmetic.antt =====
-- lib/timeutil.c: the arithmetic of times and their nanoseconds.
use Prim.Native.Nat.{compare}
use toywasm.Base.{ℕ, ◌+◌, ◌-◌, ◌*◌, ◌/◌, ◌%◌, ◌^◌, ◌≤◌, ◌<◌, ◌≡◌, arith, Bool, true, false, ltb}
use toywasm.Base.{if◌then◌else◌, Result, ok, err, eoverflow, inl, inr, lt_or_le, min}
use toywasm.Time.{
  Timespec, giga, assert_normalized, timespec_cmp, raw_sum, timespec_add, timespec_sub,
}
use toywasm.Time.{timespec_from_ns, timespec_to_ms, uint64_max}

-- What `assert_normalized` asserts.
pub record IsNormalized (t : Timespec) : Type 0 where
  pub sec : t.sec < 2 ^ 63
  pub nsec : t.nsec < 1000000000

abbrev pub nanos : Timespec → ℕ
nanos t = t.sec * 1000000000 + t.nsec

pub assert_normalized-ok : (t : Timespec) → IsNormalized t → assert_normalized t ≡ ok tt
unfolding assert_normalized
assert_normalized-ok t h = ground (arith, h.sec, h.nsec)

-- The order of two normalized times is that of their nanoseconds.
pub timespec_cmp-compare :
    (a b : Timespec)
    → IsNormalized a
    → IsNormalized b
    → timespec_cmp a b ≡ ok (compare (nanos a) (nanos b))
unfolding timespec_cmp
timespec_cmp-compare a b ha hb =
    rw (assert_normalized-ok a ha, assert_normalized-ok b hb) (ground (arith, ha.nsec, hb.nsec))

-- The time `c` of `n` nanoseconds.
abbrev pub IsTime : (n : ℕ) (r : Result Timespec) → Type 0
IsTime n r = (c : Timespec) × (r ≡ ok c) × IsNormalized c × (nanos c ≡ n)

abbrev pub IsTimeOrOverflow : (n : ℕ) (r : Result Timespec) (fits : Bool) → Type 0
IsTimeOrOverflow n r false = r ≡ err eoverflow
IsTimeOrOverflow n r true = IsTime n r

raw_sum-nanos :
    (a b : Timespec)
    → IsNormalized a
    → IsNormalized b
    → ((raw_sum a b).nsec < 1000000000) × (nanos (raw_sum a b) ≡ nanos a + nanos b)
unfolding raw_sum
raw_sum-nanos a b ha hb =
    (ground (arith, ha.nsec, hb.nsec), ground (arith, ha.sec, hb.sec, ha.nsec, hb.nsec))

add_fits :
    (a b : Timespec)
    → IsNormalized a
    → IsNormalized b
    → (raw_sum a b).sec < 2 ^ 63
    → timespec_add a b ≡ ok (raw_sum a b)
unfolding timespec_add
add_fits a b ha hb fits =
    let (nsec, sum) = raw_sum-nanos a b ha hb in
    let c : IsNormalized (raw_sum a b) = record { sec = fits; nsec = nsec } in
    rw (assert_normalized-ok a ha, assert_normalized-ok b hb, assert_normalized-ok (raw_sum a b) c)
      (rw (timespec_cmp-compare (raw_sum a b) a c ha) (ground (arith, sum, fits)))

add_overflows :
    (a b : Timespec)
    → IsNormalized a
    → IsNormalized b
    → 2 ^ 63 ≤ (raw_sum a b).sec
    → timespec_add a b ≡ err eoverflow
unfolding timespec_add
add_overflows a b ha hb over =
    rw (assert_normalized-ok a ha, assert_normalized-ok b hb) (ground (arith, over))

-- The sum of two normalized times has the sum of their nanoseconds; the result is EOVERFLOW exactly if
-- its seconds do not fit in 63 bits. No assertion fails.
pub timespec_add-IsTimeOrOverflow :
    (a b : Timespec)
    → IsNormalized a
    → IsNormalized b
    → IsTimeOrOverflow
        (nanos a + nanos b)
        (timespec_add a b)
        (ltb (nanos a + nanos b) (2 ^ 63 * 1000000000))
timespec_add-IsTimeOrOverflow a b ha hb =
    let (nsec, sum) = raw_sum-nanos a b ha hb in
    elim (lt_or_le (raw_sum a b).sec (2 ^ 63)) [
      | inl fits ↦
          rw (in_range sum nsec fits)
            (raw_sum a b, add_fits a b ha hb fits, record { sec = fits; nsec = nsec }, sum)
      | inr over ↦ rw (past sum nsec over) (add_overflows a b ha hb over)
    ]
  where
    in_range :
        nanos (raw_sum a b) ≡ nanos a + nanos b
        → (raw_sum a b).nsec < 1000000000
        → (raw_sum a b).sec < 2 ^ 63
        → ltb (nanos a + nanos b) (2 ^ 63 * 1000000000) ≡ true
    in_range sum nsec fits = ground arith

    past :
        nanos (raw_sum a b) ≡ nanos a + nanos b
        → (raw_sum a b).nsec < 1000000000
        → 2 ^ 63 ≤ (raw_sum a b).sec
        → ltb (nanos a + nanos b) (2 ^ 63 * 1000000000) ≡ false
    past sum nsec over = ground arith

-- The difference of two normalized times, the first not before the second, has the difference of
-- their nanoseconds, and no assertion fails.
pub timespec_sub-IsTime :
    (a b : Timespec)
    → IsNormalized a
    → IsNormalized b
    → nanos b ≤ nanos a
    → IsTime (nanos a - nanos b) (timespec_sub a b)
unfolding timespec_sub assert_normalized
timespec_sub-IsTime a b ha hb le =
    let under = ltb a.nsec b.nsec in
    let c : Timespec = record {
      sec = a.sec - b.sec - (if under then 1 else 0);
      nsec = if under then giga + a.nsec - b.nsec else a.nsec - b.nsec;
    } in
    (
      c,
      rw (timespec_cmp-compare a b ha hb) (ground (arith, ha.sec, hb.sec, ha.nsec, hb.nsec, le)),
      record {
        sec = ground (arith, ha.sec, hb.sec, ha.nsec, hb.nsec, le);
        nsec = ground (arith, ha.nsec, hb.nsec, le);
      },
      ground (arith, ha.sec, hb.sec, ha.nsec, hb.nsec, le),
    )

-- Any 64-bit number of nanoseconds is a normalized time.
pub timespec_from_ns-IsTime : (ns : ℕ) → ns < 2 ^ 64 → IsTime ns (timespec_from_ns ns)
unfolding timespec_from_ns assert_normalized
timespec_from_ns-IsTime ns h = (
  record { sec = ns / giga; nsec = ns % giga },
  ground arith,
  record { sec = omega arith; nsec = omega arith },
  omega arith,
)

-- The milliseconds of a normalized time, rounded down; what does not fit in 64 bits is the largest
-- number.
pub timespec_to_ms-eq :
    (t : Timespec) → IsNormalized t → timespec_to_ms t ≡ min (nanos t / 1000000) uint64_max
unfolding timespec_to_ms
timespec_to_ms-eq t h = ground (arith, h.sec, h.nsec)
