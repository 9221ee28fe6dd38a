-- ===== src/Examples/Selection.antt =====
-- Recommended events, without duplicates and ranked.
use ndbx.Prelude.{ℕ, String, ◌≡◌, ◌*◌, some, List, [], ◌∷◌}
use ndbx.GoTime.{second}
use ndbx.Graph.{RecommendedEvent}
use ndbx.Service.{EventData}
use ndbx.Service.Title.{no_reactions, no_reviews}
use ndbx.Service.Dedup.{deduplicate_by_title}
use ndbx.Service.Dedup.Spec.{IsDeduplicated}
use ndbx.Service.Dedup.Correct.{deduplicate_by_title-IsDeduplicated}
use ndbx.Service.Ranking.{rank}
use ndbx.Service.Ranking.Order.{IsSorted, with_key, event_key, rank_lem}
use ndbx.Examples.Doubles.{noon}

abbrev sample_event : String → String → ℕ → EventData
sample_event id title start = record {
  id = id;
  title = title;
  category = "music";
  price = 0;
  description = "";
  location = record { address = "Main street"; city = "Moscow" };
  created_at = noon;
  created_by = "anna";
  started_at = record { nanos = start * second; zone = 0 };
  finished_at = noon;
  reactions = no_reactions;
  reviews = no_reviews;
}

abbrev four : List EventData
four =
    sample_event "1" "Jazz" 30
    ∷ sample_event "2" "Rock" 20
    ∷ sample_event "3" "Jazz" 10
    ∷ sample_event "4" "Opera" 40
    ∷ []

abbrev scores : List RecommendedEvent
scores =
    record { id = "1"; title = "Jazz"; score = 2 }
    ∷ record { id = "2"; title = "Rock"; score = 4 }
    ∷ record { id = "3"; title = "Jazz"; score = 1 }
    ∷ record { id = "4"; title = "Opera"; score = 9 }
    ∷ []

deduplicate_by_title-IsDeduplicated_example :
    (result : List EventData) × (deduplicate_by_title four ≡ some result)
    × IsDeduplicated four result
deduplicate_by_title-IsDeduplicated_example = deduplicate_by_title-IsDeduplicated four

rank_lem_example :
    IsSorted (event_key scores) (rank scores four)
    × ((k : ℕ)
        → with_key (event_key scores) k (rank scores four) ≡ with_key (event_key scores) k four)
rank_lem_example = rank_lem scores four
