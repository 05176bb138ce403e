-- ===== src/Topic/Calculator/Silent.antt =====
-- A topic that falls silent, and comes back.
use aimrt_comm.Base.{ℕ, ◌≡◌, refl, ap, ◌∙◌, true, some, List, [], ◌∷◌, str_eq_refl, map}
use mathlib.Core.Path.{subst}
use aimrt_comm.Topic.{TopicData, new_topic, delta, feed, calculate, raw_stats, no_stats}
use aimrt_comm.Topic.Arithmetic.{Double}
use aimrt_comm.Topic.Calculator.{
  TopicInfo, topic_eq, is_running, Calculator, get_topic_data, feed_topic, calculate_topic,
}
use aimrt_comm.Topic.Calculator.Calls.{
  calculates, run, run_all, get_topic_data-change, feed_topic_lem,
}

topic_eq_refl : (t : TopicInfo) → topic_eq t t ≡ true
topic_eq_refl t =
    rw (str_eq_refl t.process_name, str_eq_refl t.topic_name, str_eq_refl t.msg_type) refl

-- the data of a topic whose window was cleared
abbrev cleared : TopicData → TopicData
cleared d = record d { times = []; msg_t0 = 0; msg_tn = 0 }

-- a running calculator with this window, at which a topic has these data
record Has (t : TopicInfo) (w : ℕ) (d : TopicData) (c : Calculator) : Type 0 where
  runs : is_running c.stage ≡ true
  window : c.window_size ≡ w
  found : get_topic_data t c.topics ≡ some d

module _ (f : Double) where
  calculate-Has :
      (now w : ℕ) (t : TopicInfo) (d : TopicData) (c : Calculator)
      → Has t w d c
      → Has t w (calculate f w now d).1 (calculate_topic f now t c).1
  unfolding calculate_topic
  calculate-Has now w t d c h = record {
    runs = rw (h.runs) h.runs;
    window = rw (h.runs) h.window;
    found = rw (h.runs) (
        get_topic_data-change t t (λ d. (calculate f c.window_size now d).1) c.topics
        ∙ rw (topic_eq_refl t, h.found, h.window) refl);
  }

  cleared-Has :
      (w : ℕ) (t : TopicInfo) (d : TopicData) (laters : List ℕ) (c : Calculator)
      → Has t w (cleared d) c
      → Has t w (cleared d) (run_all f (map (λ now. calculates now t) laters) c)
  unfolding run_all run
  cleared-Has w t d [] c h = h
  cleared-Has w t d (now ∷ laters) c h =
      cleared-Has w t d laters (calculate_topic f now t c).1
        (unfold calculate in calculate-Has now w t (cleared d) c h)

  late_is_cleared :
      (w now first : ℕ) (rest : List ℕ) (d : TopicData)
      → d.times ≡ first ∷ rest
      → f.less
          (raw_stats f w first rest d.is_active).timeout_threshold
          (f.of_int (delta now d.msg_tn))
        ≡ true
      → (calculate f w now d).1 ≡ cleared d
  unfolding calculate
  late_is_cleared w now first rest d has late = rw (has, late) refl

  late_rate :
      (w now first : ℕ) (rest : List ℕ) (d : TopicData)
      → d.times ≡ first ∷ rest
      → f.less
          (raw_stats f w first rest d.is_active).timeout_threshold
          (f.of_int (delta now d.msg_tn))
        ≡ true
      → (calculate f w now d).0.rate ≡ f.zero
  unfolding calculate
  late_rate w now first rest d has late = rw (has, late) refl

  found_stats :
      (now : ℕ) (t : TopicInfo) (d : TopicData) (c : Calculator)
      → Has t c.window_size d c
      → (calculate_topic f now t c).0 ≡ (calculate f c.window_size now d).0
  unfolding calculate_topic
  found_stats now t d c h = rw (h.runs, h.found) refl

  cleared_stats :
      (now w : ℕ) (t : TopicInfo) (d : TopicData) (c : Calculator)
      → Has t w (cleared d) c
      → (calculate_topic f now t c).0
        ≡ record (no_stats f) { max_window = w; is_active = d.is_active }
  unfolding calculate_topic calculate
  cleared_stats now w t d c h = rw (h.runs, h.found, h.window) refl

  cleared_starts :
      (now w : ℕ) (t : TopicInfo) (d : TopicData) (c : Calculator)
      → Has t w (cleared d) c
      → get_topic_data t (feed_topic now t c).topics ≡ some (feed w now new_topic)
  cleared_starts now w t d c h =
      feed_topic_lem now t t c
      ∙ rw (h.runs, topic_eq_refl t, h.found, h.window) (ap (λ e. some e) (unfold feed in refl))

  -- When `Calculate` finds a topic of a running calculator silent for longer than the threshold, the
  -- rate is zero. From then on, after any number of calls of `Calculate` for the topic, the next one
  -- gives the statistics of no intervals, and the next message makes of the topic what it makes of a
  -- new one.
  pub calculate_timeout :
      (now last again first : ℕ) (rest laters : List ℕ) (t : TopicInfo) (d : TopicData)
      (c : Calculator)
      → is_running c.stage ≡ true
      → get_topic_data t c.topics ≡ some d
      → d.times ≡ first ∷ rest
      → f.less
          (raw_stats f c.window_size first rest d.is_active).timeout_threshold
          (f.of_int (delta now d.msg_tn))
        ≡ true
      → let (stats, c') = calculate_topic f now t c in
        let c'' = run_all f (map (λ now. calculates now t) laters) c' in
        (stats.rate ≡ f.zero)
        × ((calculate_topic f last t c'').0
            ≡ record (no_stats f) { max_window = c.window_size; is_active = d.is_active })
        × (get_topic_data t (feed_topic again t c'').topics
            ≡ some (feed c.window_size again new_topic))
  calculate_timeout now last again first rest laters t d c up at_topic has late =
      let before : Has t c.window_size d c = record {
        runs = up;
        window = refl;
        found = at_topic;
      } in
      let quiet = late_is_cleared c.window_size now first rest d has late in
      let after =
        subst (λ e. Has t c.window_size e (calculate_topic f now t c).1) quiet
          (calculate-Has now c.window_size t d c before) in
      let still = cleared-Has c.window_size t d laters (calculate_topic f now t c).1 after in
      (
        ap (λ r. r.rate) (found_stats now t d c before)
            ∙ late_rate c.window_size now first rest d has late,
        cleared_stats last c.window_size t d _ still,
        cleared_starts again c.window_size t d _ still,
      )
