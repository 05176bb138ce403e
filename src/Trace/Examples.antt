-- ===== src/Trace/Examples.antt =====
-- Runs of the traces (src/trace).
use aimrt_comm.Base.{ℕ, ◌≡◌, some, none, List, [], ◌∷◌}
use aimrt_comm.Trace.{success, starting, Event, EventCode, Tracer}
use aimrt_comm.Trace.Kinds.{long_event_with}
use aimrt_comm.Trace.Reported.{Call, updates, ends, run_all, ended, long_event_reports}

abbrev new : Event
new = record {
  timestamp = 7;
  module_id = 0;
  code = 0;
  name = "";
  status = success;
  local_id = 1;
  attributes = λ k. none;
  event_content = "";
}

abbrev battery : EventCode
battery = record {
  value = 12;
  info_name = "Battery";
  description = "battery level";
  info_module_id = 3;
}

abbrev charging : Tracer ℕ
charging = long_event_with battery (("unit", "percent") ∷ []) "charging" 40 new

abbrev calls : List Call
calls = updates "full" ∷ ends 90 ∷ ends 95 ∷ []

long_event_reports_example :
    ((run_all calls charging).reports
      ≡ ended charging.event 40 (some (90, "full")) ((charging.event, 40) ∷ []))
    × (charging.event.status ≡ starting)
long_event_reports_example =
    long_event_reports battery (("unit", "percent") ∷ []) "charging" 40 new calls
