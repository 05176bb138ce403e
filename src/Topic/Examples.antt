-- ===== src/Topic/Examples.antt =====
-- Runs of the frequency calculator (src/common/topic_hz_calculator.cc) over whole numbers.
use aimrt_comm.Base.{ℕ, ◌+◌, ◌-◌, ◌*◌, ◌/◌, ◌≡◌, refl, true, some, map, List, [], ◌∷◌, ltb, arith}
use aimrt_comm.Topic.{
  TopicData, new_topic, delta, feed, no_stats, raw_stats, mean_of, deviation_of, threshold,
}
use aimrt_comm.Topic.Arithmetic.{Double, sum, squares}
use aimrt_comm.Topic.Window.{Newest, feed_all, Newest-intervals}
use aimrt_comm.Topic.Calculator.{
  TopicInfo, running, Calculator, new_calculator, get_topic_data, feed_topic, calculate_topic,
}
use aimrt_comm.Topic.Calculator.Calls.{
  Call, initializes, feeds, calculates, IsBounded, run_all, run_all-IsBounded,
}
use aimrt_comm.Topic.Calculator.Silent.{calculate_timeout}

abbrev whole : Double
whole = record {
  D = ℕ;
  zero = 0;
  five = 5;
  two_e9 = 2000000000;
  e9 = 1000000000;
  e_minus9 = 1;
  of_int = λ n. n;
  add = λ a b. a + b;
  sub = λ a b. a - b;
  mul = λ a b. a * b;
  div = λ a b. a / b;
  one_over = λ a. 1 / a;
  square = λ a. a * a;
  sqrt = λ a. a;
  less = ltb;
}

Newest-intervals_example :
    Newest 2 (10 ∷ 30 ∷ 60 ∷ []) (feed_all 2 (110 ∷ 140 ∷ 200 ∷ []) (feed 2 100 new_topic)).times
Newest-intervals_example =
    Newest-intervals 2 100 (110 ∷ 140 ∷ 200 ∷ []) (omega arith)
      (omega arith, omega arith, (omega arith, omega arith, (omega arith, omega arith, tt)))

abbrev pose : TopicInfo
pose = record { process_name = "mc"; topic_name = "/pose"; msg_type = "Pose" }

abbrev joint : TopicInfo
joint = record { process_name = "mc"; topic_name = "/joint"; msg_type = "Joint" }

abbrev two_topics : Calculator
two_topics = record {
  stage = running;
  window_size = 2;
  topics = (pose, new_topic) ∷ (joint, new_topic) ∷ [];
}

nothing_yet : IsBounded new_calculator.window_size new_calculator.topics
unfolding IsBounded
nothing_yet = tt

abbrev script : List Call
script =
    initializes (pose ∷ []) 1
    ∷ feeds 100 pose
    ∷ feeds 110 pose
    ∷ feeds 130 pose
    ∷ calculates 140 pose
    ∷ []

run_all-IsBounded_example :
    IsBounded
      (run_all whole script new_calculator).window_size
      (run_all whole script new_calculator).topics
run_all-IsBounded_example = run_all-IsBounded whole script new_calculator nothing_yet

abbrev silent : TopicData
silent = record { msg_t0 = 100; msg_tn = 110; times = 10 ∷ []; is_active = true }

is_late : ltb (raw_stats whole 2 10 [] true).timeout_threshold (delta 9000000000 110) ≡ true
unfolding raw_stats mean_of deviation_of threshold delta sum squares
is_late = refl

abbrev pose_topic : TopicInfo
pose_topic = record { process_name = "nav"; topic_name = "/pose"; msg_type = "Pose" }

abbrev with_silent : Calculator
with_silent = record { stage = running; window_size = 2; topics = (pose_topic, silent) ∷ [] }

calculate_timeout_example :
    let (stats, c') = calculate_topic whole 9000000000 pose_topic with_silent in
    let c'' = run_all whole (map (λ now. calculates now pose_topic) (9000000100 ∷ [])) c' in
    (stats.rate ≡ 0)
    × ((calculate_topic whole 9000000200 pose_topic c'').0
        ≡ record (no_stats whole) { max_window = 2; is_active = true })
    × (get_topic_data pose_topic (feed_topic 9000000500 pose_topic c'').topics
        ≡ some (feed 2 9000000500 new_topic))
calculate_timeout_example =
    calculate_timeout whole 9000000000 9000000200 9000000500 10 [] (9000000100 ∷ []) pose_topic
      silent with_silent refl refl refl is_late
