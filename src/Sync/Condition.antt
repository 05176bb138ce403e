-- ===== src/Sync/Condition.antt =====
-- `sync::Condition` (src/sync/condition.{h,cpp}). Each function runs under the object's mutex, so
-- it is one step; the loop of `Wait` is left exactly when its test fails under the mutex.
use aimrt_comm.Base.{
  ◌≡◌, refl, Bool, true, false, not, ◌&&◌, Option, none, some, List, [], ◌∷◌, if◌then◌else◌, arith,
}

pub record Condition : Type 0 where
  pub value : Bool
  pub failed : Bool

abbrev pub create : Bool → Condition
create value = record { value = value; failed = false }

-- the functions that change the object
pub data Call : Type 0 where
  init : Bool → Call
  satisfy fail : Call

unfoldable pub run : Call → Condition → Condition
run (init value) c = record { value = value; failed = false }
run satisfy c = record { value = true; failed = false }
run fail c = record { value = false; failed = true }

unfoldable pub run_all : List Call → Condition → Condition
unfolding run
run_all [] c = c
run_all (call ∷ calls) c = run_all calls (run call c)

-- `Wait`, whenever it holds the mutex: goes on sleeping, or returns its result
unfoldable pub wait : Condition → Option Bool
wait c = if not c.failed && not c.value then none else some c.value

-- whether a call wakes the threads that sleep
abbrev pub notifies : Call → Bool
notifies (init value) = false
notifies satisfy = true
notifies fail = true

-- what the last call has said: that the condition holds, that it was failed, or neither yet
abbrev pub said : Call → Option Bool
said (init value) = if value then some true else none
said satisfy = some true
said fail = some false

abbrev pub last_call : Call → List Call → Call
last_call call [] = call
last_call call (next ∷ calls) = last_call next calls

wait-run : (call : Call) (c : Condition) → wait (run call c) ≡ said call
unfolding wait run
wait-run (init value) c = ground arith
wait-run satisfy c = refl
wait-run fail c = refl

after_calls :
    (call : Call) (calls : List Call) (c : Condition)
    → wait (run_all calls (run call c)) ≡ said (last_call call calls)
unfolding run_all
after_calls call [] c = wait-run call c
after_calls call (next ∷ calls) c = after_calls next calls (run call c)

-- After any calls on a new condition, `Wait` does what the last call alone has said, the creation
-- counting as an `Init`: it returns true after `Satisfy` and after an `Init` with true, false after
-- `Fail`, and sleeps after an `Init` with false.
pub wait_result :
    (start : Bool) (calls : List Call)
    → wait (run_all calls (create start)) ≡ said (last_call (init start) calls)
unfolding run
wait_result start calls = after_calls (init start) calls (create start)
