-- ===== src/Base/Clock.antt =====
-- Identifiers, and the values of Go's package time, as numbers.
use Prim.Native.Nat.{ℕ, ◌-◌, ◌^◌}
use many_router.Base.Tests.{if◌then◌else◌}
use many_router.Base.Int.{ℤ, pos, negsuc, sub_ℕ, ltb_ℤ}

-- uuid.UUID as its 128-bit number: uuid.Nil is 0, and String() keeps the order of the numbers.
abbrev pub Uuid : Type 0
Uuid = ℕ

-- time.Time in nanoseconds after the zero time, where IsZero holds; no time of the code is before it.
abbrev pub Time : Type 0
Time = ℕ

-- t.Sub(u), in nanoseconds: a time.Duration, which stops at the ends of int64.
unfoldable pub time_sub : Time → Time → ℤ
time_sub t u =
    let d = sub_ℕ t u in
    if ltb_ℤ (pos (2 ^ 63 - 1)) d
    then pos (2 ^ 63 - 1)
    else if ltb_ℤ d (negsuc (2 ^ 63 - 1))
    then negsuc (2 ^ 63 - 1)
    else d
