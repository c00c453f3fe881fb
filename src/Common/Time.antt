-- ===== src/Common/Time.antt =====
-- The standard library's clocks. An `Instant` and a `Duration` are numbers of nanoseconds.
use Prim.Native.Nat.{ℕ, ◌+◌, ◌-◌, ◌*◌, ◌/◌, min}
use mathlib.Core.Option.{Option, none, some}
use barbacane.Common.Tests.{leb, if◌then◌else◌}

abbrev pub nanos_per_sec : ℕ
nanos_per_sec = 1000000000

-- `Duration::from_secs`
abbrev pub from_secs : ℕ → ℕ
from_secs n = n * nanos_per_sec

-- `Duration::as_secs`
abbrev pub as_secs : ℕ → ℕ
as_secs d = d / nanos_per_sec

-- `Instant::duration_since` and `saturating_duration_since`: zero for a later instant.
abbrev pub duration_since : ℕ → ℕ → ℕ
duration_since now t = now - t

-- The last instant: a signed 64-bit number of seconds.
abbrev pub instant_max : ℕ
instant_max = 9223372036854775807999999999

-- `Instant::checked_add`
abbrev pub checked_add : ℕ → ℕ → Option ℕ
checked_add t d = if leb (t + d) instant_max then some (t + d) else none

-- `u64::saturating_add`
abbrev pub saturating_add : ℕ → ℕ → ℕ
saturating_add a b = min (a + b) 18446744073709551615
