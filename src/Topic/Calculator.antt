-- ===== src/Topic/Calculator.antt =====
-- The calculator over all topics (src/common/topic_hz_calculator.{h,cc}): the table is filled once, by
-- `Initialize`, and every call looks its topic up there.
pub mod Calls
pub mod Silent
use aimrt_comm.Base.{
  ℕ, String, Bool, true, false, ◌&&◌, Option, none, some, List, [], ◌∷◌, if◌then◌else◌, str_eq,
}
use aimrt_comm.Topic.{TopicData, new_topic, feed, TopicFrequencyStats, no_stats, calculate}
use aimrt_comm.Topic.Arithmetic.{Double}

pub record TopicInfo : Type 0 where
  pub process_name : String
  pub topic_name : String
  pub msg_type : String

-- `operator==`
abbrev pub topic_eq : TopicInfo → TopicInfo → Bool
topic_eq a b =
    str_eq a.process_name b.process_name
    && str_eq a.topic_name b.topic_name
    && str_eq a.msg_type b.msg_type

pub data Stage : Type 0 where
  init running : Stage

abbrev pub is_running : Stage → Bool
is_running init = false
is_running running = true

abbrev pub Table : Type 0
Table = List (TopicInfo × TopicData)

pub record Calculator : Type 0 where
  pub stage : Stage
  pub window_size : ℕ
  pub topics : Table

abbrev pub new_calculator : Calculator
new_calculator = record { stage = init; window_size = 400; topics = [] }

abbrev pub new_topics : List TopicInfo → Table
new_topics [] = []
new_topics (t ∷ ts) = (t, new_topic) ∷ new_topics ts

-- whether it is accepted, and the calculator; the exchange of `step_` is done either way
unfoldable pub initialize : List TopicInfo → ℕ → Calculator → Bool × Calculator
initialize topic_list window_size c = elim c.stage [
  | init ↦
      (true, record { stage = running; window_size = window_size; topics = new_topics topic_list })
  | running ↦ (false, record c { stage = running })
]

-- `GetTopicData`
abbrev pub get_topic_data : TopicInfo → Table → Option TopicData
get_topic_data t [] = none
get_topic_data t ((k, d) ∷ es) =
    let rest = get_topic_data t es in if topic_eq k t then some d else rest

-- the data of a topic changed in place
abbrev pub change : TopicInfo → (TopicData → TopicData) → Table → Table
change t f [] = []
change t f ((k, d) ∷ es) = (k, if topic_eq k t then f d else d) ∷ change t f es

unfoldable pub feed_topic : ℕ → TopicInfo → Calculator → Calculator
feed_topic now t c =
    if is_running c.stage
    then record c { topics = change t (feed c.window_size now) c.topics }
    else c

module _ (f : Double) where
  abbrev pub stats_of : ℕ → ℕ → Option TopicData → TopicFrequencyStats f
  stats_of window now none = record (no_stats f) { max_window = window }
  stats_of window now (some d) = (calculate f window now d).0

  -- `Calculate`: the statistics, and the calculator after it
  unfoldable pub calculate_topic : ℕ → TopicInfo → Calculator → TopicFrequencyStats f × Calculator
  calculate_topic now t c =
      if is_running c.stage
      then (
        stats_of c.window_size now (get_topic_data t c.topics),
        record c { topics = change t (λ d. (calculate f c.window_size now d).1) c.topics },
      )
      else (no_stats f, c)

  -- the loop of `CalculateAll`; `clock` is the reading that each call takes
  unfoldable pub calculate_each :
      (TopicInfo → ℕ) → Table → Calculator → List (TopicInfo × TopicFrequencyStats f) × Calculator
  unfolding calculate_topic
  calculate_each clock [] c = ([], c)
  calculate_each clock ((t, d) ∷ es) c =
      let (s, c') = calculate_topic (clock t) t c in
      let (rest, c'') = calculate_each clock es c' in ((t, s) ∷ rest, c'')

  unfoldable pub calculate_all :
      (TopicInfo → ℕ) → Calculator → List (TopicInfo × TopicFrequencyStats f) × Calculator
  calculate_all clock c =
      let each = calculate_each clock c.topics c in if is_running c.stage then each else ([], c)
