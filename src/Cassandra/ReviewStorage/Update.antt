-- ===== src/Cassandra/ReviewStorage/Update.antt =====
-- What UpdateReview of internal/storage/cassandra/review.go writes over a review.
use ndbx.Prelude.{ℕ, String, ◌≡◌, refl, Option, arith, inl, inr}
use ndbx.Exec.{Result-cases, ok}
use ndbx.GoTime.{Time, utc}
use ndbx.Cassandra.{CassandraSession, Review}
use ndbx.Cassandra.ReviewStorage.{or_kept, update_review}

module _ {W : Type 0} (session : CassandraSession W) where
  -- The user's review is read, and written with the changes.
  abbrev pub Rewrites : String → String → Option ℕ → Option String → Time → W → Type 0
  Rewrites event_id user_id rating comment now w =
      (old : Review) × ((session.select_review event_id user_id w).0 ≡ ok old)
      × (new : Review) × (new.id ≡ old.id)
      × (new.created_at ≡ old.created_at)
      × (new.event_id ≡ event_id)
      × (new.created_by ≡ user_id)
      × (new.rating ≡ or_kept rating old.rating)
      × (new.comment ≡ or_kept comment old.comment)
      × (new.updated_at ≡ utc now)
      × ((session.insert_review new (session.select_review event_id user_id w).1).0 ≡ ok tt)
      × ((update_review session event_id user_id rating comment now w).1
          ≡ (session.insert_review new (session.select_review event_id user_id w).1).1)

  -- An UpdateReview that succeeds has read the user's review of the event, and has written it once,
  -- under the same id and time of creation, with the rating and the comment of the call or else
  -- those that it had.
  update_review-keeps :
      (event_id user_id : String) (rating : Option ℕ) (comment : Option String) (now : Time) (w : W)
      → (update_review session event_id user_id rating comment now w).0 ≡ ok tt
      → Rewrites event_id user_id rating comment now w
  unfolding update_review
  update_review-keeps event_id user_id rating comment now w done =
      elim (Result-cases (session.select_review event_id user_id w).0) [
        | inr (e, failed) ↦ ground arith
        | inl (old, found) ↦
            let new : Review = record {
              id = old.id;
              event_id = event_id;
              rating = or_kept rating old.rating;
              comment = or_kept comment old.comment;
              created_at = old.created_at;
              created_by = user_id;
              updated_at = utc now;
            } in
            elim (Result-cases
              (session.insert_review new (session.select_review event_id user_id w).1).0) [
                | inr (e, failed) ↦ ground arith
                | inl (_, did) ↦
                    (old, found, new, refl, refl, refl, refl, refl, refl, refl, did, ground arith)
              ]
      ]
