-- ===== src/EvData/Tests.antt =====
-- Runs of the map of registrations.
use goev.Prelude.{◌==◌, arith, none, some, if◌then◌else◌}
use goev.Prelude.Int.{pos}
use goev.Mask.{ev_in}
use goev.EvData.{EvData, EvDataMap, blank}
use goev.EvData.Laws.{IsValid}

-- Descriptor 5 is registered, of 8 in the array.
abbrev pub one_held : EvDataMap
one_held = record {
  arr_size = 8;
  arr = λ i. if i == 5 then (record { events = ev_in; fd = pos 5; eh = some 1 }) else blank;
  s_map = λ _. none;
  cells = λ _. blank;
  next = 0;
}

pub one_held-IsValid : IsValid one_held
one_held-IsValid = record {
  owned = λ i l e. absurd (ground arith);
  apart = λ i j l e f. absurd (ground arith);
  live = λ i l e. absurd (ground arith);
}

abbrev other : EvData
other = record { events = ev_in; fd = pos 20; eh = some 2 }
