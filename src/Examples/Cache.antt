-- ===== src/Examples/Cache.antt =====
-- A session that is written to a Redis in memory, read, extended and deleted.
use ndbx.Strconv.{decimal}
use ndbx.Prelude.{lookup, ◌*◌, ◌==◌, true, false, eq_iff, String, ◌≡◌, refl, arith, ◌≢◌, none}
use ndbx.Exec.{ok}
use ndbx.Errors.{is}
use ndbx.GoTime.{Time, seconds, second}
use ndbx.Redis.{Answers}
use ndbx.Redis.Session.{
  SessionValue, SetReq, SetOrUpdateReq, SetOrUpdateResp, created_at_field, session_key, get, set,
  set_or_update, set_new, set_value, set_existing,
}
use ndbx.Redis.Session.RoundTrip.{stored, Reads, get-set}
use ndbx.Redis.Session.Update.{
  extended, set_or_update-absent, set_or_update-present, set_or_update-other,
}
use ndbx.Examples.Doubles.{
  sample_clock, sample_redis, sample_laws, no_hashes, noon, read_seconds, seconds_text, Hashes,
  write,
}

abbrev anna : SessionValue
anna = record { created_at = noon; updated_at = noon; user_id = "anna" }

abbrev set_anna : SetReq
set_anna = record { sid = "ab12"; value = anna; ttl = seconds 60 }

abbrev later : Time
later = record { nanos = 63_900_000_005 * second; zone = 0 }

abbrev boris : SetOrUpdateReq
boris = record {
  sid = "ab12";
  new_sid = "cd34";
  new_value = record { created_at = later; updated_at = later; user_id = "boris" };
  ttl = seconds 60;
}

abbrev with_anna : Hashes
with_anna = (set sample_clock sample_redis set_anna no_hashes).1

abbrev at_ab12 : SetOrUpdateResp
at_ab12 = record { sid = "ab12"; is_created = false }

abbrev at_cd34 : SetOrUpdateResp
at_cd34 = record { sid = "cd34"; is_created = true }

get-set_example :
    Reads sample_clock sample_redis sample_laws "ab12"
      (set sample_clock sample_redis set_anna no_hashes).1
      (ok (stored anna))
unfolding set
get-set_example =
    get-set sample_clock sample_redis sample_laws set_anna no_hashes (omega arith, omega arith) refl

set_or_update-absent_example :
    (at_cd34 ≡ record { sid = "cd34"; is_created = true })
    × Answers
        (get sample_clock sample_redis "cd34"
          (set_or_update sample_clock sample_redis boris no_hashes).1).0
        (ok (stored boris.new_value))
    × (boris.sid ≢ boris.new_sid
        → (set_or_update sample_clock sample_redis boris no_hashes).1
            (session_key "ab12")
            created_at_field
          ≡ none)
unfolding set_or_update is set_new set_value
set_or_update-absent_example =
    set_or_update-absent sample_clock sample_redis sample_laws boris no_hashes at_cd34
      (omega arith, omega arith) refl refl

set_or_update-present_example :
    (at_ab12 ≡ record { sid = "ab12"; is_created = false })
    × Answers
        (get sample_clock sample_redis "ab12"
          (set_or_update sample_clock sample_redis boris with_anna).1).0
        (ok (stored (extended noon boris)))
unfolding set_or_update set set_existing write session_key seconds_text lookup read_seconds decimal
set_or_update-present_example =
    set_or_update-present sample_clock sample_redis sample_laws boris with_anna at_ab12
      (seconds_text noon) noon (omega arith, omega arith) refl refl refl

differ : (s : String) → (s == "ef56") ≡ false → s ≢ "ef56"
differ s apart same = cc (apart, (eq_iff s "ef56").1 same)

set_or_update-other_example :
    (set_or_update sample_clock sample_redis boris with_anna).1
      (session_key "ef56")
      created_at_field
    ≡ with_anna (session_key "ef56") created_at_field
set_or_update-other_example =
    set_or_update-other sample_clock sample_redis sample_laws boris with_anna "ef56"
      created_at_field (differ "ab12" refl) (differ "cd34" refl)
