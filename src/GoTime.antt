-- ===== src/GoTime.antt =====
-- Go's time.Time and time.Duration as far as the program uses them, and the host's
-- clock and random source.
use ndbx.Prelude.{ℕ, ◌*◌, ◌/◌, ◌<◌, String, ◌≡◌, Bool, Option, none, some, List, ltb}
use ndbx.Prelude.Words.{mul64, quot64}

-- Nanoseconds since the start of year 1 in UTC, and the zone for display, 0 for UTC. The zero Time
-- is year 1 in UTC.
pub record Time : Type 0 where
  pub nanos : ℕ
  pub zone : ℕ

abbrev pub zero_time : Time
zero_time = record { nanos = 0; zone = 0 }

-- t.UTC()
abbrev pub utc : Time → Time
utc t = record t { zone = 0 }

-- t.Before(u)
abbrev pub before : Time → Time → Bool
before t u = ltb t.nanos u.nanos

abbrev pub second : ℕ
second = 1_000_000_000

-- time.Duration(n) * time.Second
abbrev pub seconds : ℕ → ℕ
seconds n = mul64 n second

-- int64(d.Seconds()), of a duration of whole seconds
abbrev pub to_seconds : ℕ → ℕ
to_seconds d = quot64 d second

-- t.Truncate(time.Second) in UTC: what RFC 3339 without fractions keeps of a time in UTC
abbrev pub whole_second : Time → Time
whole_second t = record { nanos = t.nanos / second * second; zone = 0 }

-- Nanoseconds from year 1 to year 10000: a year of four digits.
abbrev pub year_10000 : ℕ
year_10000 = 315_537_897_600 * second

-- t.Format(time.RFC3339) and time.Parse(time.RFC3339, s); `none` is a parse error.
pub record Rfc3339 : Type 0 where
  pub format : Time → String
  pub parse : String → Option Time
  pub parse_empty : parse "" ≡ none
  pub parse-format :
      (t : Time) → t.zone ≡ 0 → t.nanos < year_10000 → parse (format t) ≡ some (whole_second t)

-- time.Now and crypto/rand.Read, which never fails and fills the slice.
pub record Host (W : Type 0) : Type 0 where
  pub now : W → Time × W
  pub rand_read : ℕ → W → List ℕ × W

-- time.Now().UTC()
abbrev pub now_utc : {W : Type 0} → Host W → W → Time × W
now_utc host w = let (t, w') = host.now w in (utc t, w')
