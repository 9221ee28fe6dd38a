-- ===== src/Errors.antt =====
-- Go errors: sentinel values, formatted texts, and `fmt.Errorf("…: %w", err)`.
-- internal/service/errors.go, internal/storage/mongodb/errors.go,
-- internal/storage/cassandra/errors.go, internal/router/errors.go (the texts of its sentinels).
use ndbx.Prelude.{String, Bool, true, false}

-- The values that `errors.Is` is asked for; the first three are those of the drivers.
pub data Sentinel : Type 0 where
  redis_nil no_documents gocql_not_found : Sentinel
  mongo_already_exists mongo_not_found : Sentinel
  review_already_exists review_not_found : Sentinel
  user_already_exists invalid_credentials not_found already_exists forbidden : Sentinel
  -- ht.ErrInternalServerErrorResponse of the generated server
  internal_server_error_response : Sentinel

-- `duplicate_key` is an error for which `mongo.IsDuplicateKeyError` holds.
pub data Err : Type 0 where
  sentinel : Sentinel → Err
  duplicate_key : Err
  plain : String → Err
  wrap : String → Err → Err

unfoldable pub same_sentinel : Sentinel → Sentinel → Bool
same_sentinel redis_nil redis_nil = true
same_sentinel no_documents no_documents = true
same_sentinel gocql_not_found gocql_not_found = true
same_sentinel mongo_already_exists mongo_already_exists = true
same_sentinel mongo_not_found mongo_not_found = true
same_sentinel review_already_exists review_already_exists = true
same_sentinel review_not_found review_not_found = true
same_sentinel user_already_exists user_already_exists = true
same_sentinel invalid_credentials invalid_credentials = true
same_sentinel not_found not_found = true
same_sentinel already_exists already_exists = true
same_sentinel forbidden forbidden = true
same_sentinel internal_server_error_response internal_server_error_response = true
same_sentinel _ _ = false

-- errors.Is: an error is the target, or wraps one that is.
unfoldable pub is : Err → Sentinel → Bool
unfolding same_sentinel
is (sentinel s) target = same_sentinel s target
is duplicate_key target = false
is (plain m) target = false
is (wrap m e) target = is e target

-- mongo.IsDuplicateKeyError, which looks through wrapping too
unfoldable pub is_duplicate_key : Err → Bool
is_duplicate_key (sentinel s) = false
is_duplicate_key duplicate_key = true
is_duplicate_key (plain m) = false
is_duplicate_key (wrap m e) = is_duplicate_key e
