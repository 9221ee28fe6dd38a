-- ===== src/Service/Title.antt =====
-- What the services share about titles: mapEventData and reactionsByTitle's map, in
-- internal/service/event.go. `title_md5` is titleMD5 and reviewTitleMD5, the same text, with
-- crypto/md5 as a parameter.
use ndbx.Mongo
use ndbx.Service.{EventData, EventReactions, EventReviewsSummary}

abbrev pub no_reactions : EventReactions
no_reactions = record { likes = 0; dislikes = 0 }

abbrev pub no_reviews : EventReviewsSummary
no_reviews = record { count = 0; rating = 0 }

unfoldable pub map_event_data : Mongo.Event → EventData
map_event_data event = record {
  id = event.id;
  title = event.title;
  category = event.category;
  price = event.price;
  description = event.description;
  location = record { address = event.location.address; city = event.location.city };
  created_at = event.created_at;
  created_by = event.created_by;
  started_at = event.started_at;
  finished_at = event.finished_at;
  reactions = no_reactions;
  reviews = no_reviews;
}
