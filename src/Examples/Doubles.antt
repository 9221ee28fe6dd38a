-- ===== src/Examples/Doubles.antt =====
-- Stand-ins for the third parties, with their laws: a clock format, a host and a Redis in memory.
use ndbx.Prelude.{
  ℕ, zero, suc, ◌*◌, ◌/◌, ◌<◌, String, ◌≡◌, ◌≢◌, refl, inl, Option, none, some, List, [], ◌∷◌, ◌==◌,
  eq_iff, arith, map, map_values, if◌then◌else◌, eq_refl,
}
use ndbx.Strconv.{format_int, parse_int}
use ndbx.Strconv.RoundTrip.{parse_int-format_int}
use ndbx.GoTime.{Time, Rfc3339, Host, second, year_10000, whole_second}
use ndbx.Exec.{ok}
use ndbx.Redis.{render, RedisClient, RedisLaws, value, found, written}

-- Times as the decimal text of their seconds.
unfoldable pub seconds_text : Time → String
unfolding format_int
seconds_text t = format_int (t.nanos / second)

abbrev pub of_seconds : Option ℕ → Option Time
of_seconds none = none
of_seconds (some n) = some (record { nanos = n * second; zone = 0 })

unfoldable pub read_seconds : String → Option Time
unfolding parse_int
read_seconds s = of_seconds (parse_int s)

pub read_seconds_empty : read_seconds "" ≡ none
unfolding read_seconds
read_seconds_empty = refl

pub read_seconds-seconds_text :
    (t : Time)
    → t.zone ≡ 0
    → t.nanos < year_10000
    → read_seconds (seconds_text t) ≡ some (whole_second t)
unfolding read_seconds seconds_text
read_seconds-seconds_text t z h = rw (parse_int-format_int (t.nanos / second) (omega arith)) refl

abbrev pub sample_clock : Rfc3339
sample_clock = record {
  format = seconds_text;
  parse = read_seconds;
  parse_empty = read_seconds_empty;
  parse-format = read_seconds-seconds_text;
}

-- The hashes of a Redis: the fields of each key.
abbrev pub Hashes : Type 0
Hashes = String → String → Option String

unfoldable pub write : String → List (String × String) → Hashes → Hashes
write key fields m k f = if key == k then written fields f (m k f) else m k f

unfoldable pub erase : String → Hashes → Hashes
erase key m k f = if key == k then none else m k f

abbrev pub sample_redis : RedisClient Hashes
sample_redis = record {
  hget = λ key field m. (found (m key field), m);
  hmget = λ key fields m. (ok (map (λ f. value (m key f)) fields), m);
  hgetall = λ key m. (ok [], m);
  hsetex = λ key ttl fields m. (ok tt, write key fields m);
  hset_expire = λ key fields ttl m. (ok tt, write key (map_values (render format_int) fields) m);
  del = λ key m. (ok tt, erase key m);
}

pub write-same :
    (key : String) (fields : List (String × String)) (m : Hashes) (f : String)
    → write key fields m key f ≡ written fields f (m key f)
unfolding write
write-same key fields m f = rw (eq_refl key) refl

pub write-other :
    (key : String) (fields : List (String × String)) (m : Hashes) (k f : String)
    → key ≢ k
    → write key fields m k f ≡ m k f
unfolding write
write-other key fields m k f ne = ground (arith, eq_iff key k)

pub erase-same : (key : String) (m : Hashes) (f : String) → erase key m key f ≡ none
unfolding erase
erase-same key m f = rw (eq_refl key) refl

pub erase-other : (key : String) (m : Hashes) (k f : String) → key ≢ k → erase key m k f ≡ m k f
unfolding erase
erase-other key m k f ne = ground (arith, eq_iff key k)

abbrev pub sample_laws : RedisLaws sample_redis
sample_laws = record {
  hash = λ m. m;
  float_text = format_int;
  hget_answers = λ key field m. inl refl;
  hget_keeps = λ key field m k f. refl;
  hmget_answers = λ key fields m. inl refl;
  hmget_keeps = λ key fields m k f. refl;
  hsetex_sets = λ key ttl fields m done f. write-same key fields m f;
  hsetex_other = λ key ttl fields m k f ne. write-other key fields m k f ne;
  del_removes = λ key m done f. erase-same key m f;
  del_other = λ key m k f ne. erase-other key m k f ne;
  hset_expire_sets = λ key fields ttl m low high done f.
      write-same key (map_values (render format_int) fields) m f;
  hset_expire_other =
      λ key fields ttl m k f ne. write-other key (map_values (render format_int) fields) m k f ne;
}

-- No keys.
abbrev pub no_hashes : Hashes
no_hashes k f = none

abbrev pub noon : Time
noon = record { nanos = 63_900_000_000 * second; zone = 0 }

-- A clock that stands at noon, and a random source that gives zeros.
abbrev pub zeros : ℕ → List ℕ
zeros zero = []
zeros (suc n) = 0 ∷ zeros n

abbrev pub sample_host : {W : Type 0} → Host W
sample_host = record { now = λ w. (noon, w); rand_read = λ n w. (zeros n, w) }
