-- ===== src/Trace.antt =====
-- What is reported of a program's events: src/trace/{event,long_event,gauge,counter,boolean}.h over
-- src/trace/internal. A report is what is published, and where the call stands. The texts of values
-- and the readings of the clock are arguments.
pub mod Kinds
pub mod Reported
pub mod Examples
use aimrt_comm.Base.{
  ℕ, String, Bool, true, false, Option, none, some, List, [], ◌∷◌, if◌then◌else◌, str_eq,
}

pub data Status : Type 0 where
  undefined starting success failed canceled : Status

-- `attributes`
abbrev pub Attributes : Type 0
Attributes = String → Option String

abbrev pub put : String → String → Attributes → Attributes
put key value attributes j = if str_eq key j then some value else attributes j

-- the loop over `attribute.GetAttribute()`
unfoldable pub put_all : List (String × String) → Attributes → Attributes
put_all [] attributes = attributes
put_all ((k, v) ∷ es) attributes = put_all es (put k v attributes)

pub record Event : Type 0 where
  pub timestamp : ℕ
  pub module_id : ℕ
  pub code : ℕ
  pub name : String
  pub status : Status
  pub local_id : ℕ
  pub attributes : Attributes
  pub event_content : String

-- what is generated of an event code: its value and `GetInfo()`
pub record EventCode : Type 0 where
  pub value : ℕ
  pub info_name : String
  pub description : String
  pub info_module_id : ℕ

-- the part that all constructors share, on a new event
unfoldable pub describe : EventCode → String → Event → Event
describe c type new = record new {
  name = c.description;
  code = c.value;
  module_id = c.info_module_id;
  attributes = put "type" type (put "enum_name" c.info_name new.attributes);
}

module _ (Location : Type 0) where
  -- an object with what it has published, the newest first
  pub record Tracer : Type 0 where
    pub event : Event
    pub call_loc : Location
    pub is_reported : Bool
    pub reports : List (Event × Location)

module _ {Location : Type 0} where
  -- `internal::Report` of the object's event
  unfoldable pub report : Tracer Location → Tracer Location
  report t = record t { reports = (t.event, t.call_loc) ∷ t.reports }

  unfoldable pub tracer : Event → Location → Tracer Location
  tracer e loc = record { event = e; call_loc = loc; is_reported = false; reports = [] }
