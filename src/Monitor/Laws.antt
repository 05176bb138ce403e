-- ===== src/Monitor/Laws.antt =====
-- Which rule decides, and which topic a message counts for.
use aimrt_comm.Base.{
  ℕ, String, ◌≡◌, ◌≢◌, refl, ◌∙◌, Bool, true, false, some, none, List, [], ◌∷◌, ◌++◌, if◌then◌else◌,
  str_eq_refl, Bool-cases, inl, inr,
}
use aimrt_comm.Topic.{new_topic, feed}
use aimrt_comm.Topic.Calculator.{topic_eq, init, new_topics, initialize, get_topic_data}
use aimrt_comm.Topic.Calculator.Calls.{feed_topic_lem, option_map}
use aimrt_comm.Monitor.{
  MatchResult, matches, differs, throws, Rules, get_backends_by_rules, MonitoredTopic, DataManager,
  hz_topic, hz_topics, set_pub_topic_info_list, on_publish_filter,
}

-- no rule of the list matches: each differs or throws
abbrev pub NoneMatches : (String → String → MatchResult) → String → Rules → Type 0
NoneMatches regex_match name [] = Unit
NoneMatches regex_match name ((expr, bs) ∷ rules) =
    (regex_match name expr ≢ matches) × NoneMatches regex_match name rules

-- The first rule that matches decides, whatever the rules before it throw; without one there are no
-- backends.
pub first_match_decides :
    (regex_match : String → String → MatchResult) (name expr : String) (bs : List String)
    (before after : Rules)
    → NoneMatches regex_match name before
    → regex_match name expr ≡ matches
    → (get_backends_by_rules regex_match name (before ++ (expr, bs) ∷ after) ≡ bs)
      × (get_backends_by_rules regex_match name before ≡ [])
unfolding get_backends_by_rules
first_match_decides regex_match name expr bs [] after h e = (rw e refl, refl)
first_match_decides regex_match name expr bs ((r, cs) ∷ before) after (other, h) e =
    let (p, q) = first_match_decides regex_match name expr bs before after h e in
    by_result (regex_match name r) refl p q
  where
    by_result :
        (m : MatchResult)
        → regex_match name r ≡ m
        → get_backends_by_rules regex_match name (before ++ (expr, bs) ∷ after) ≡ bs
        → get_backends_by_rules regex_match name before ≡ []
        → (get_backends_by_rules regex_match name ((r, cs) ∷ before ++ (expr, bs) ∷ after) ≡ bs)
          × (get_backends_by_rules regex_match name ((r, cs) ∷ before) ≡ [])
    by_result matches f p q = absurd (other f)
    by_result differs f p q =
        unfold get_backends_by_rules in (rw f p, rw (f, get_backends_by_rules) q)
    by_result throws f p q =
        unfold get_backends_by_rules in (rw f p, rw (f, get_backends_by_rules) q)

abbrev pub is_listed_topic : String → String → List MonitoredTopic → Bool
is_listed_topic name type [] = false
is_listed_topic name type (t ∷ ts) =
    let rest = is_listed_topic name type ts in
    if topic_eq (hz_topic t.topic_name t.msg_type) (hz_topic name type) then true else rest

listed_is_new :
    (name type : String) (ts : List MonitoredTopic)
    → get_topic_data (hz_topic name type) (new_topics (hz_topics ts))
      ≡ (if is_listed_topic name type ts then some new_topic else none)
listed_is_new name type [] = refl
listed_is_new name type (t ∷ ts) =
    elim (Bool-cases (topic_eq (hz_topic t.topic_name t.msg_type) (hz_topic name type))) [
      | inl found ↦ rw found refl
      | inr other ↦ rw other (listed_is_new name type ts)
    ]

-- The first message that is published after the list of topics is set counts for its topic, if the
-- list has it, and for none otherwise.
pub publish_counts :
    (now : ℕ) (name type : String) (ts : List MonitoredTopic) (m : DataManager)
    → m.pub_topic_hz.stage ≡ init
    → get_topic_data
        (hz_topic name type)
        (on_publish_filter now name type (set_pub_topic_info_list ts m)).pub_topic_hz.topics
      ≡ (if is_listed_topic name type ts then some (feed 5000 now new_topic) else none)
unfolding on_publish_filter set_pub_topic_info_list initialize
publish_counts now name type ts m fresh = rw fresh (
    feed_topic_lem now (hz_topic name type) (hz_topic name type) _
    ∙ rw (str_eq_refl name, str_eq_refl type, listed_is_new name type ts)
        (fed (is_listed_topic name type ts)))
  where
    fed :
        (b : Bool)
        → option_map (feed 5000 now) (if b then some new_topic else none)
          ≡ (if b then some (feed 5000 now new_topic) else none)
    fed true = refl
    fed false = refl
