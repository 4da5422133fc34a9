-- ===== src/Events/Tests.antt =====
-- The theorems of Events at concrete inputs, and tests.
use mcsm.Common.{◌≡◌, some, List, [], ◌∷◌}
use mcsm.Events.Bus.{
  Event, Bus, new_bus, Call, subscribe_call, close_call, cancel_call, publish_call, calls,
}
use mcsm.Events.Bus.Safety.{IsSound, calls-IsSound}

abbrev event : Event
event = record { kind = "state"; at = 0; fields = "" }

abbrev script : List Call
script =
    subscribe_call
    ∷ subscribe_call
    ∷ publish_call 7 event
    ∷ cancel_call 0
    ∷ cancel_call 0
    ∷ close_call
    ∷ close_call
    ∷ []

calls-IsSound_example : (b : Bus) × (calls script new_bus ≡ some b) × IsSound b
calls-IsSound_example = calls-IsSound script
