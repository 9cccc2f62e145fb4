-- ===== src/EvData.antt =====
-- ev_data.go: the registered handlers by descriptor, in an array for the descriptors below `arrSize`
-- and in a map of pointers for the others. The lock of the map makes each access atomic.
-- A descriptor is not negative here; the field `fd` is -1 after a release.
pub mod Laws
pub mod Tests
use goev.Prelude.{
  ℕ, zero, suc, ◌/◌, ◌<◌, ◌≡◌, Bool, true, false, Option, none, some, ltb, ◌==◌, if◌then◌else◌, Run,
  ok, panic,
}
use goev.Prelude.Int.{ℤ, pos, negsuc}
use goev.Mask.{Mask}

-- evData. A handler is a number, and `none` is a nil `eh`.
pub record EvData : Type 0 where
  pub events : Mask
  pub fd : ℤ
  pub eh : Option ℕ

-- A `*evData`: an element of the array, or an allocated cell.
pub data Loc : Type 0 where
  slot : ℕ → Loc
  cell : ℕ → Loc

-- evDataMap, with the memory of the allocated cells, of which `next` is not in use yet.
pub record EvDataMap : Type 0 where
  pub arr_size : ℕ
  pub arr : ℕ → EvData
  pub s_map : ℕ → Option Loc
  pub cells : ℕ → EvData
  pub next : ℕ

abbrev pub update {ℓ} : {B : Type ℓ} → (ℕ → B) → ℕ → B → ℕ → B
update f a v b = if a == b then v else f b

-- `evData{}`
abbrev pub blank : EvData
blank = record { events = λ _. false; fd = pos 0; eh = none }

-- `fd > 0`; its negation is `fd < 1`.
abbrev pub is_pos : ℤ → Bool
is_pos (pos n) = ltb 0 n
is_pos (negsuc n) = false

unfoldable pub new_ev_data_map : ℕ → Run EvDataMap
new_ev_data_map arr_size =
    if ltb arr_size 1
    then panic
    else ok (record {
      arr_size = arr_size;
      arr = λ _. blank;
      s_map = λ _. none;
      cells = λ _. blank;
      next = 0;
    })

-- `*p` and `*p = d`
abbrev pub read : Loc → EvDataMap → EvData
read (slot i) m = m.arr i
read (cell a) m = m.cells a

abbrev pub write : Loc → EvData → EvDataMap → EvDataMap
write (slot i) d m = record m { arr = update m.arr i d }
write (cell a) d m = record m { cells = update m.cells a d }

unfoldable pub new_one : ℕ → EvDataMap → Run (Loc × EvDataMap)
new_one i m =
    if ltb i m.arr_size
    then (if is_pos (m.arr i).fd then panic else ok (slot i, m))
    else ok (cell m.next, record m { cells = update m.cells m.next blank; next = suc m.next })

unfoldable pub load : ℕ → EvDataMap → Option Loc
load i m =
    if ltb i m.arr_size then (if is_pos (m.arr i).fd then some (slot i) else none) else m.s_map i

unfoldable pub store : ℕ → Loc → EvDataMap → EvDataMap
store i l m = if ltb i m.arr_size then m else record m { s_map = update m.s_map i (some l) }

unfoldable pub del : ℕ → EvDataMap → EvDataMap
del i m =
    if ltb i m.arr_size
    then record m {
      arr = update m.arr i (record { events = λ _. false; fd = negsuc 0; eh = none });
    }
    else record m { s_map = update m.s_map i none }
