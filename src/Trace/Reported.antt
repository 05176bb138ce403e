-- ===== src/Trace/Reported.antt =====
-- What the traces publish.
use aimrt_comm.Base.{
  ℕ, String, ◌≡◌, refl, ap, ◌∙◌, true, false, Option, none, some, List, [], ◌∷◌, if◌then◌else◌, ltb,
  ◌==◌, arith, Bool-cases, inl, inr,
}
use aimrt_comm.Trace.{starting, success, Event, EventCode, Tracer, report, tracer}
use aimrt_comm.Trace.Kinds.{
  long_event_with, update_event_content, finish, compared, less_than, greater_than, equal_to,
  value_for,
}

-- a call on a long event
pub data Call : Type 0 where
  updates : String → Call
  ends : ℕ → Call

-- the time of the first end, with the content that it has then
abbrev pub first_end : List Call → String → Option (ℕ × String)
first_end [] content = none
first_end (updates c ∷ calls) content = first_end calls c
first_end (ends now ∷ calls) content = some (now, content)

module _ {L : Type 0} where
  unfoldable pub run_all : List Call → Tracer L → Tracer L
  unfolding update_event_content finish
  run_all [] t = t
  run_all (updates c ∷ calls) t = run_all calls (update_event_content c t)
  run_all (ends now ∷ calls) t = run_all calls (finish now t)

  -- the event as the end publishes it
  abbrev pub ended : Event → L → Option (ℕ × String) → List (Event × L) → List (Event × L)
  ended e loc none before = before
  ended e loc (some (now, content)) before =
      (record e { timestamp = now; status = success; event_content = content }, loc) ∷ before

  after_end :
      (calls : List Call) (t : Tracer L)
      → t.is_reported ≡ true
      → (run_all calls t).reports ≡ t.reports
  unfolding run_all
  after_end [] t h = refl
  after_end (updates c ∷ calls) t h =
      after_end calls (update_event_content c t) (unfold update_event_content in h)
  after_end (ends now ∷ calls) t h =
      ap (λ u. (run_all calls u).reports) (unfold finish in rw h refl) ∙ after_end calls t h

  until_end :
      (calls : List Call) (t : Tracer L)
      → t.is_reported ≡ false
      → (run_all calls t).reports
        ≡ ended t.event t.call_loc (first_end calls t.event.event_content) t.reports
  unfolding run_all finish report
  until_end [] t h = refl
  until_end (updates c ∷ calls) t h =
      until_end calls (update_event_content c t) (unfold update_event_content in h)
  until_end (ends now ∷ calls) t h = rw h (
      after_end calls
        (record t {
          event = record t.event { timestamp = now; status = success };
          is_reported = true;
          reports = (record t.event { timestamp = now; status = success }, t.call_loc) ∷ t.reports;
        })
        refl)

  -- Whatever is called on a long event: its start is published once, and then its first end, with the
  -- time of that end and the content of the last update before it; later ends and updates publish
  -- nothing.
  pub long_event_reports :
      (c : EventCode) (attribute : List (String × String)) (content : String) (loc : L)
      (new : Event) (calls : List Call)
      → let e = (long_event_with c attribute content loc new).event in
        ((run_all calls (long_event_with c attribute content loc new)).reports
          ≡ ended e loc (first_end calls content) ((e, loc) ∷ []))
        × (e.status ≡ starting)
  unfolding long_event_with report tracer
  long_event_reports c attribute content loc new calls =
      (until_end calls (long_event_with c attribute content loc new) refl, refl)

  -- One value compared with one threshold in all three ways, in any state of the gauge: exactly one
  -- report is added, that of the comparison that holds.
  pub gauge_reports_once :
      (to_string : ℕ → String) (value threshold : ℕ) (content : String) (t : Tracer L)
      → equal_to ltb ◌==◌ to_string value threshold content (
          greater_than ltb ◌==◌ to_string value threshold content
            (less_than ltb ◌==◌ to_string value threshold content t))
        ≡ compared
            (if ltb value threshold
              then "less_than"
              else if ltb threshold value
              then "greater_than"
              else "equal_to")
            (to_string value)
            (to_string threshold)
            content
            t
  unfolding less_than greater_than equal_to
  gauge_reports_once to_string value threshold content t = elim (Bool-cases (ltb value threshold)) [
    | inl less ↦
        let not_more : ltb threshold value ≡ false = ground arith in
        let not_same : value == threshold ≡ false = ground arith in
        rw (less, not_more, not_same) refl
    | inr other ↦ elim (Bool-cases (ltb threshold value)) [
      | inl more ↦
          let not_same : value == threshold ≡ false = ground arith in
          rw (other, more, not_same) refl
      | inr no_more ↦
          let same : value == threshold ≡ true = ground arith in rw (other, no_more, same) refl
    ]
  ]

  -- A value that is published after a comparison was: the report still has the threshold of that
  -- comparison, and its content.
  pub value_for_keeps_threshold :
      (comparison first threshold content value : String) (t : Tracer L)
      → let t' = value_for value (compared comparison first threshold content t) in
        (t'.event.attributes "threshold" ≡ some threshold)
        × (t'.event.attributes "value" ≡ some value)
        × (t'.event.event_content ≡ content)
        × (t'.reports
            ≡ (t'.event, t.call_loc) ∷ (compared comparison first threshold content t).reports)
  unfolding value_for compared report
  value_for_keeps_threshold comparison first threshold content value t = (refl, refl, refl, refl)
