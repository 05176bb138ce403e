-- ===== src/Topic.antt =====
-- `common::TopicHzCalculator` (src/common/topic_hz_calculator.{h,cc}): how often messages come. A
-- time is its distance from `TimePoint::min()` in nanoseconds, so that `min()` is 0; a difference is
-- an `int64_t`, of which this is the bit pattern. Each function runs under the topic's mutex.
pub mod Arithmetic
pub mod Window
pub mod Calculator
pub mod Examples
use aimrt_comm.Base.{
  ℕ, ◌+◌, ◌-◌, ◌%◌, ◌^◌, Bool, true, false, ◌==◌, ◌||◌, ltb, if◌then◌else◌, List, [], ◌∷◌, ◌++◌,
  length, erase_idx,
}
use aimrt_comm.Topic.Arithmetic.{Double, sum, maximum, minimum, squares}

pub record TopicData : Type 0 where
  pub msg_t0 : ℕ
  pub msg_tn : ℕ
  pub times : List ℕ
  pub is_active : Bool

abbrev pub new_topic : TopicData
new_topic = record { msg_t0 = 0; msg_tn = 0; times = []; is_active = false }

-- `curr - data->msgTn`
unfoldable pub delta : ℕ → ℕ → ℕ
delta curr msg_tn = (curr + 2 ^ 64 - msg_tn) % 2 ^ 64

-- `if (data->times.size() > windowSize_)` the oldest goes
unfoldable pub trim : ℕ → List ℕ → List ℕ
trim window_size times = if ltb window_size (length times) then erase_idx times 0 else times

-- `FeedTopic` on the data of a topic, at a reading of the clock
unfoldable pub feed : ℕ → ℕ → TopicData → TopicData
unfolding delta trim
feed window_size curr topic =
    let active = record topic { is_active = true } in
    let started : TopicData = record {
      msg_t0 = curr;
      msg_tn = curr;
      times = trim window_size [];
      is_active = true;
    } in
    let times' = trim window_size (topic.times ++ delta curr topic.msg_tn ∷ []) in
    if curr == 0
    then record active { times = [] }
    else if topic.msg_t0 == 0 || ltb curr topic.msg_t0
    then started
    else record active { msg_tn = curr; times = times' }

module _ (f : Double) where
  open f use {D, zero, five, two_e9, e9, e_minus9, of_int, div, mul, add, one_over, sqrt, less}

  pub record TopicFrequencyStats : Type 0 where
    pub rate : D
    pub min_delta : D
    pub max_delta : D
    pub std_dev : D
    pub max_window : ℕ
    pub window_size : ℕ
    pub timeout_threshold : D
    pub is_active : Bool

  abbrev pub no_stats : TopicFrequencyStats
  no_stats = record {
    rate = zero;
    min_delta = zero;
    max_delta = zero;
    std_dev = zero;
    max_window = 0;
    window_size = 0;
    timeout_threshold = zero;
    is_active = false;
  }

  unfoldable pub mean_of : List ℕ → D
  mean_of times = div (sum f times) (of_int (length times))

  unfoldable pub deviation_of : D → List ℕ → D
  deviation_of mean times = sqrt (div (squares f mean times) (of_int (length times)))

  -- `std::max(mean + 5 * stats.stdDev, 2e9)`
  unfoldable pub threshold : D → D → D
  threshold mean std_dev =
      let t = add mean (mul five std_dev) in if less t two_e9 then two_e9 else t

  -- the statistics in nanoseconds
  unfoldable pub raw_stats : ℕ → ℕ → List ℕ → Bool → TopicFrequencyStats
  unfolding mean_of deviation_of threshold
  raw_stats window first rest active =
      let times = first ∷ rest in
      let mean = mean_of times in
      let std_dev = deviation_of mean times in
      record {
        rate = if less zero mean then one_over mean else zero;
        min_delta = minimum f (of_int first) rest;
        max_delta = maximum f (of_int first) rest;
        std_dev = std_dev;
        max_window = window;
        window_size = length times;
        timeout_threshold = threshold mean std_dev;
        is_active = active;
      }

  -- the change of units at the end
  unfoldable pub to_seconds : TopicFrequencyStats → TopicFrequencyStats
  to_seconds s = record s {
    rate = mul s.rate e9;
    std_dev = mul s.std_dev e_minus9;
    min_delta = mul s.min_delta e_minus9;
    max_delta = mul s.max_delta e_minus9;
    timeout_threshold = mul s.timeout_threshold e_minus9;
  }

  -- `Calculate` on the data of a topic: the statistics and the data after it
  unfoldable pub calculate : ℕ → ℕ → TopicData → TopicFrequencyStats × TopicData
  calculate window now topic = elim topic.times [
    | [] ↦ (record no_stats { max_window = window; is_active = topic.is_active }, topic)
    | first ∷ rest ↦
        let s = raw_stats window first rest topic.is_active in
        if less s.timeout_threshold (of_int (delta now topic.msg_tn))
        then (record s { rate = zero }, record topic { times = []; msg_t0 = 0; msg_tn = 0 })
        else (to_seconds s, topic)
  ]
