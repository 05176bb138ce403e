-- ===== src/Trace/Kinds.antt =====
-- The kinds of traces, each by its constructors and members (src/trace/*.h).
use aimrt_comm.Base.{ℕ, String, Bool, true, List, if◌then◌else◌}
use aimrt_comm.Trace.{
  starting, success, put, put_all, Event, EventCode, describe, Tracer, report, tracer,
}

module _ {Location : Type 0} where
  -- `Event`, the two constructors
  unfoldable pub event_with :
      EventCode → List (String × String) → String → ℕ → Location → Event → Tracer Location
  unfolding describe put_all report tracer
  event_with c attribute content now loc new =
      let e = describe c "Event" (record new { timestamp = now }) in
      report (
        tracer (record e { attributes = put_all attribute e.attributes; event_content = content })
          loc)

  unfoldable pub event_plain : EventCode → ℕ → Location → Event → Tracer Location
  unfolding describe report tracer
  event_plain c now loc new =
      let e = describe c "Event" (record new { timestamp = now }) in
      report (tracer (record e { event_content = "" }) loc)

  -- `LongEvent`, the two constructors, which `Event::Start` calls
  unfoldable pub long_event : EventCode → Location → Event → Tracer Location
  unfolding describe report tracer
  long_event c loc new =
      let e = describe c "LongEvent" new in
      report (tracer (record e { status = starting; event_content = "" }) loc)

  -- the second does not store its `call_loc`, so the location is the default one
  unfoldable pub long_event_with :
      EventCode → List (String × String) → String → Location → Event → Tracer Location
  unfolding describe put_all report tracer
  long_event_with c attribute content default_loc new =
      let e = describe c "LongEvent" new in
      report (
        tracer
          (record e {
            attributes = put_all attribute e.attributes;
            status = starting;
            event_content = content;
          })
          default_loc)

  -- `Event::UpdateExtra`
  unfoldable pub update_event_content : String → Tracer Location → Tracer Location
  update_event_content content t = record t { event = record t.event { event_content = content } }

  -- `Event::End`, at a reading of the clock
  unfoldable pub finish : ℕ → Tracer Location → Tracer Location
  unfolding report
  finish now t =
      let ended : Tracer Location = record t {
        event = record t.event { timestamp = now; status = success };
      } in
      if t.is_reported then t else record (report ended) { is_reported = true }

  -- `Gauge`, the two constructors
  unfoldable pub gauge : EventCode → Location → Event → Tracer Location
  unfolding describe tracer
  gauge c loc new = let e = describe c "Gauge" new in tracer (record e { event_content = "" }) loc

  unfoldable pub gauge_with :
      EventCode → List (String × String) → String → Location → Event → Tracer Location
  unfolding describe put_all tracer
  gauge_with c attribute content loc new =
      let e = describe c "Gauge" new in
      tracer (record e { attributes = put_all attribute e.attributes; event_content = content }) loc

  -- the body of the three comparisons, on the texts of the value and the threshold
  unfoldable pub compared : String → String → String → String → Tracer Location → Tracer Location
  unfolding report
  compared comparison value threshold content t =
      let attributes =
        put "comparison" comparison
          (put "threshold" threshold (put "value" value t.event.attributes)) in
      report
        (record t { event = record t.event { attributes = attributes; event_content = content } })

  module _ {V : Type 0} (less equal : V → V → Bool) (to_string : V → String) where
    unfoldable pub less_than : V → V → String → Tracer Location → Tracer Location
    unfolding compared
    less_than value threshold content t =
        if less value threshold
        then compared "less_than" (to_string value) (to_string threshold) content t
        else t

    unfoldable pub greater_than : V → V → String → Tracer Location → Tracer Location
    unfolding compared
    greater_than value threshold content t =
        if less threshold value
        then compared "greater_than" (to_string value) (to_string threshold) content t
        else t

    unfoldable pub equal_to : V → V → String → Tracer Location → Tracer Location
    unfolding compared
    equal_to value threshold content t =
        if equal value threshold
        then compared "equal_to" (to_string value) (to_string threshold) content t
        else t

  -- `Gauge::Value`
  unfoldable pub value_for : String → Tracer Location → Tracer Location
  unfolding report
  value_for value t = report (record t {
    event = record t.event {
      attributes = put "comparison" "value_for" (put "value" value t.event.attributes);
    };
  })

  -- `Counter` and `Boolean`, the two constructors each: the member `call_loc_` keeps its default
  unfoldable pub single : EventCode → String → String → String → Location → Event → Tracer Location
  unfolding describe report tracer
  single c type value content default_loc new =
      let e = describe c type new in
      report (
        tracer (record e { attributes = put "value" value e.attributes; event_content = content })
          default_loc)

  unfoldable pub single_with :
      EventCode
      → String
      → List (String × String)
      → String
      → String
      → Location
      → Event
      → Tracer Location
  unfolding describe put_all report tracer
  single_with c type attribute value content default_loc new =
      let e = describe c type new in
      report (
        tracer
          (record e {
            attributes = put_all attribute (put "value" value e.attributes);
            event_content = content;
          })
          default_loc)

  unfoldable pub counter : EventCode → String → String → Location → Event → Tracer Location
  unfolding single
  counter c value content default_loc new = single c "Counter" value content default_loc new

  unfoldable pub counter_with :
      EventCode → List (String × String) → String → String → Location → Event → Tracer Location
  unfolding single_with
  counter_with c attribute value content default_loc new =
      single_with c "Counter" attribute value content default_loc new

  unfoldable pub boolean : EventCode → String → String → Location → Event → Tracer Location
  unfolding single
  boolean c value content default_loc new = single c "Boolean" value content default_loc new

  unfoldable pub boolean_with :
      EventCode → List (String × String) → String → String → Location → Event → Tracer Location
  unfolding single_with
  boolean_with c attribute value content default_loc new =
      single_with c "Boolean" attribute value content default_loc new
