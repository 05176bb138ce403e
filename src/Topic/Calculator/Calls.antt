-- ===== src/Topic/Calculator/Calls.antt =====
-- What any calls leave of the table of topics.
use aimrt_comm.Base.{
  ℕ, ◌≤◌, ◌≡◌, refl, ◌∙◌, Bool, true, false, ◌&&◌, Option, none, some, List, [], ◌∷◌, ◌++◌,
  if◌then◌else◌, str_eq, str_eq_comm, str_eq→eq, length, ltb, ◌||◌, ◌==◌, arith, Bool-cases, inl,
  inr,
}
use aimrt_comm.Topic.{TopicData, delta, trim, feed, calculate, raw_stats}
use aimrt_comm.Topic.Arithmetic.{Double}
use aimrt_comm.Topic.Window.{trim-Newest}
use aimrt_comm.Topic.Calculator.{
  TopicInfo, topic_eq, Stage, init, running, is_running, Table, Calculator, new_topics, initialize,
  get_topic_data, change, feed_topic, calculate_topic, calculate_each, calculate_all,
}

-- a call, with the readings of the clock that it takes
pub data Call : Type 0 where
  initializes : List TopicInfo → ℕ → Call
  feeds calculates : ℕ → TopicInfo → Call
  calculates_all : (TopicInfo → ℕ) → Call

abbrev pub option_map : (TopicData → TopicData) → Option TopicData → Option TopicData
option_map f none = none
option_map f (some d) = some (f d)

topic_eq_comm : (a b : TopicInfo) → topic_eq a b ≡ topic_eq b a
topic_eq_comm a b =
    rw
      (
        str_eq_comm a.process_name b.process_name,
        str_eq_comm a.topic_name b.topic_name,
        str_eq_comm a.msg_type b.msg_type,
      )
      refl

topic_eq-cong : (k t j : TopicInfo) → topic_eq k t ≡ true → topic_eq k j ≡ topic_eq t j
topic_eq-cong k t j h =
    let (p, q, r) =
      parts (str_eq k.process_name t.process_name) (str_eq k.topic_name t.topic_name)
        (str_eq k.msg_type t.msg_type) h in
    rw
      (
        str_eq→eq k.process_name t.process_name p,
        str_eq→eq k.topic_name t.topic_name q,
        str_eq→eq k.msg_type t.msg_type r,
      )
      refl
  where
    parts : (a b c : Bool) → (a && b && c) ≡ true → (a ≡ true) × (b ≡ true) × (c ≡ true)
    parts a b c h = (ground arith, ground arith, ground arith)

-- Changing a topic changes what its key finds, and what no other key finds.
pub get_topic_data-change :
    (j t : TopicInfo) (f : TopicData → TopicData) (es : Table)
    → get_topic_data j (change t f es)
      ≡ (if topic_eq t j then option_map f (get_topic_data j es) else get_topic_data j es)
get_topic_data-change j t f [] = same (topic_eq t j)
  where
    same : (b : Bool) → ◌≡◌ {A = Option TopicData} none (if b then none else none)
    same b = ground arith
get_topic_data-change j t f ((k, d) ∷ es) = elim (Bool-cases (topic_eq k j)) [
  | inl found ↦
      let agree : topic_eq k t ≡ topic_eq t j = topic_eq-cong k j t found ∙ topic_eq_comm j t in
      rw (found, agree) (both (topic_eq t j))
  | inr other ↦ rw other (get_topic_data-change j t f es)
]
  where
    both : (b : Bool) → some (if b then f d else d) ≡ (if b then some (f d) else some d)
    both b = ground arith

-- Feeding a topic of a calculator that runs feeds the data of exactly that topic; the calculator goes
-- on with the same window, and before `Initialize` nothing is changed.
pub feed_topic_lem :
    (now : ℕ) (t j : TopicInfo) (c : Calculator)
    → get_topic_data j (feed_topic now t c).topics ≡ (
        if is_running c.stage && topic_eq t j
        then option_map (feed c.window_size now) (get_topic_data j c.topics)
        else get_topic_data j c.topics)
unfolding feed_topic
feed_topic_lem now t j c = elim (Bool-cases (is_running c.stage)) [
  | inl up ↦ rw (up, get_topic_data-change j t (feed c.window_size now) c.topics) refl
  | inr down ↦ rw down refl
]

-- every topic keeps to the window
unfoldable pub IsBounded : ℕ → Table → Type 0
IsBounded window [] = Unit
IsBounded window ((t, d) ∷ es) = (length d.times ≤ window) × IsBounded window es

trim-bounded : (w x : ℕ) (xs : List ℕ) → length xs ≤ w → length (trim w (xs ++ x ∷ [])) ≤ w
trim-bounded w x xs h =
    (trim-Newest w x xs xs (record { older = []; split = refl; few = h; full = inl refl })).few

feed-bounded : (w now : ℕ) (d : TopicData) → length d.times ≤ w → length (feed w now d).times ≤ w
unfolding feed
feed-bounded w now d h = elim (Bool-cases (now == 0)) [
  | inl unset ↦ rw unset (omega arith)
  | inr given ↦ rw given (elim (Bool-cases (d.msg_t0 == 0 || ltb now d.msg_t0)) [
    | inl anew ↦ rw anew (no_times (ltb w 0))
    | inr on ↦ rw on (trim-bounded w (delta now d.msg_tn) d.times h)
  ])
]
  where
    no_times : (b : Bool) → length {A = ℕ} (trim w []) ≤ w
    no_times b = unfold trim in ground arith

change-IsBounded :
    (w : ℕ) (t : TopicInfo) (f : TopicData → TopicData) (es : Table)
    → ((d : TopicData) → length d.times ≤ w → length (f d).times ≤ w)
    → IsBounded w es
    → IsBounded w (change t f es)
unfolding IsBounded
change-IsBounded w t f [] keeps h = tt
change-IsBounded w t f ((k, d) ∷ es) keeps (h, hs) = elim (Bool-cases (topic_eq k t)) [
  | inl found ↦ rw found (keeps d h, change-IsBounded w t f es keeps hs)
  | inr other ↦ rw other (h, change-IsBounded w t f es keeps hs)
]

new_topics-IsBounded : (w : ℕ) (ts : List TopicInfo) → IsBounded w (new_topics ts)
unfolding IsBounded
new_topics-IsBounded w [] = tt
new_topics-IsBounded w (t ∷ ts) = (omega arith, new_topics-IsBounded w ts)

module _ (f : Double) where
  unfoldable pub run : Call → Calculator → Calculator
  run (initializes ts w) c = (initialize ts w c).1
  run (feeds now t) c = feed_topic now t c
  run (calculates now t) c = (calculate_topic f now t c).1
  run (calculates_all clock) c = (calculate_all f clock c).1

  unfoldable pub run_all : List Call → Calculator → Calculator
  unfolding run
  run_all [] c = c
  run_all (call ∷ calls) c = run_all calls (run call c)

  calculate-bounded :
      (w now : ℕ) (d : TopicData) → length d.times ≤ w → length (calculate f w now d).1.times ≤ w
  calculate-bounded w now d h = by_times d.times refl
    where
      by_times : (l : List ℕ) → d.times ≡ l → length (calculate f w now d).1.times ≤ w
      by_times [] e = unfold calculate in rw e (omega arith)
      by_times (x ∷ xs) e =
          elim (Bool-cases (
            f.less (raw_stats f w x xs d.is_active).timeout_threshold
              (f.of_int (delta now d.msg_tn)))) [
                | inl late ↦ unfold calculate in rw (e, late) (omega arith)
                | inr in_time ↦ unfold calculate in rw (e, in_time) (rw e at h)
              ]

  calculate_topic-IsBounded :
      (now : ℕ) (t : TopicInfo) (c : Calculator)
      → IsBounded c.window_size c.topics
      → IsBounded (calculate_topic f now t c).1.window_size (calculate_topic f now t c).1.topics
  unfolding calculate_topic
  calculate_topic-IsBounded now t c h = elim (Bool-cases (is_running c.stage)) [
    | inl up ↦
        rw up (change-IsBounded c.window_size t _ c.topics (calculate-bounded c.window_size now) h)
    | inr down ↦ rw down h
  ]

  calculate_each-IsBounded :
      (clock : TopicInfo → ℕ) (es : Table) (c : Calculator)
      → IsBounded c.window_size c.topics
      → IsBounded (calculate_each f clock es c).1.window_size (calculate_each f clock es c).1.topics
  unfolding calculate_each
  calculate_each-IsBounded clock [] c h = h
  calculate_each-IsBounded clock ((t, d) ∷ es) c h =
      calculate_each-IsBounded clock es (calculate_topic f (clock t) t c).1
        (calculate_topic-IsBounded (clock t) t c h)

  calculate_all-IsBounded :
      (clock : TopicInfo → ℕ) (c : Calculator)
      → IsBounded c.window_size c.topics
      → IsBounded (calculate_all f clock c).1.window_size (calculate_all f clock c).1.topics
  unfolding calculate_all
  calculate_all-IsBounded clock c h = by_stage (is_running c.stage)
    where
      by_stage :
          (b : Bool)
          → let c' = (if b then calculate_each f clock c.topics c else ([], c)).1 in
            IsBounded c'.window_size c'.topics
      by_stage true = calculate_each-IsBounded clock c.topics c h
      by_stage false = h

  run-IsBounded :
      (call : Call) (c : Calculator)
      → IsBounded c.window_size c.topics
      → IsBounded (run call c).window_size (run call c).topics
  unfolding run initialize feed_topic calculate_all
  run-IsBounded (initializes ts w) c h = by_stage c.stage refl
    where
      by_stage :
          (s : Stage)
          → c.stage ≡ s
          → IsBounded (initialize ts w c).1.window_size (initialize ts w c).1.topics
      by_stage init e = unfold initialize in rw e (new_topics-IsBounded w ts)
      by_stage running e = unfold initialize in rw e h
  run-IsBounded (feeds now t) c h = elim (Bool-cases (is_running c.stage)) [
    | inl up ↦
        rw up (change-IsBounded c.window_size t _ c.topics (feed-bounded c.window_size now) h)
    | inr down ↦ rw down h
  ]
  run-IsBounded (calculates now t) c h = calculate_topic-IsBounded now t c h
  run-IsBounded (calculates_all clock) c h = calculate_all-IsBounded clock c h

  -- Whatever calls are made, `Initialize` a second time included: no topic ever has more intervals
  -- than the window of the calculator.
  pub run_all-IsBounded :
      (calls : List Call) (c : Calculator)
      → IsBounded c.window_size c.topics
      → IsBounded (run_all calls c).window_size (run_all calls c).topics
  unfolding run_all
  run_all-IsBounded [] c h = h
  run_all-IsBounded (call ∷ calls) c h =
      run_all-IsBounded calls (run call c) (run-IsBounded call c h)
