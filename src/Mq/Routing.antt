-- ===== src/Mq/Routing.antt =====
-- server-go/internal/mq/routing.go and the topics of server-go/internal/mq/topics.go.
use vparser.Prelude.{ℕ, Bool, List, [], ◌∷◌, ltb, leb, if◌then◌else◌}
use vparser.Go.Bytes.{Bytes, lit}

pub data Topic : Type 0 where
  analysis retry_10s retry_60s dlq : Topic

unfoldable pub topic_name : Topic → Bytes
topic_name Topic.analysis = lit "video.analysis"
topic_name Topic.retry_10s = lit "video.analysis.retry.10s"
topic_name Topic.retry_60s = lit "video.analysis.retry.60s"
topic_name Topic.dlq = lit "video.analysis.dlq"

-- The partition counts of `Topics`.
unfoldable pub partitions : Topic → ℕ
partitions Topic.analysis = 6
partitions Topic.retry_10s = 3
partitions Topic.retry_60s = 3
partitions Topic.dlq = 1

-- `ConsumedTopics`.
abbrev pub consumed_topics : List Topic
consumed_topics = Topic.analysis ∷ Topic.retry_10s ∷ Topic.retry_60s ∷ []

abbrev pub max_attempts : ℕ
max_attempts = 3

pub data Reason : Type 0 where
  permanent exhausted poison : Reason

unfoldable pub reason_name : Reason → Bytes
reason_name Reason.permanent = lit "permanent"
reason_name Reason.exhausted = lit "exhausted"
reason_name Reason.poison = lit "poison"

-- Where a failed attempt goes next: a retry topic with its delay in milliseconds, or the dead
-- letters with a reason.
pub data Route : Type 0 where
  retry : Topic → ℕ → Route
  dead : Reason → Route

-- `RetryDelays`.
unfoldable pub retry_delay : Topic → ℕ
retry_delay Topic.retry_10s = 10000
retry_delay Topic.retry_60s = 60000
retry_delay t = 0

unfoldable pub route_failure : Bool → ℕ → Route
unfolding retry_delay
route_failure lasting attempt =
    if lasting
    then dead Reason.permanent
    else if leb attempt 1
    then retry Topic.retry_10s (retry_delay Topic.retry_10s)
    else if ltb attempt max_attempts
    then retry Topic.retry_60s (retry_delay Topic.retry_60s)
    else dead Reason.exhausted
