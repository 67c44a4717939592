-- ===== src/DisplayManager/Manager.antt =====
-- The state and the operations of src/display-manager.c. A seat is known by a number, its address.
use lightdm.Base.{ℕ, Bool, true, false, List, [], ◌∷◌, ◌++◌, ◌&&◌, ◌||◌, not, ◌==◌, if◌then◌else◌}

pub record DisplayManager : Type 0 where
  pub seats : List ℕ
  pub stopping : Bool
  pub stopped : Bool

-- The signals of the display manager.
pub data Signal : Type 0 where
  seat_added : ℕ → Signal
  seat_removed : ℕ → Signal
  all_stopped : Signal

abbrev pub Act : Type 0
Act = DisplayManager → DisplayManager × List Signal

infixl 5 ◌>>◌
abbrev pub ◌>>◌ : Act → Act → Act
◌>>◌ f g manager =
    let (manager', done) = f manager in
    let (manager'', then_done) = g manager' in (manager'', done ++ then_done)

abbrev pub do_nothing : Act
do_nothing manager = (manager, [])

abbrev pub is_empty : List ℕ → Bool
is_empty [] = true
is_empty (seat ∷ seats) = false

unfoldable pub has_seat : ℕ → List ℕ → Bool
has_seat seat [] = false
has_seat seat (s ∷ seats) = s == seat || has_seat seat seats

-- `g_list_remove`.
unfoldable pub remove_seat : ℕ → List ℕ → List ℕ
remove_seat seat [] = []
remove_seat seat (s ∷ seats) =
    let rest = remove_seat seat seats in if s == seat then seats else s ∷ rest

unfoldable pub check_stopped : Act
check_stopped manager =
    if manager.stopping && not manager.stopped && is_empty manager.seats
    then (record manager { stopped = true }, all_stopped ∷ [])
    else (manager, [])

abbrev pub drop_seat : ℕ → Act
drop_seat seat manager = (
  record manager { seats = remove_seat seat manager.seats },
  if manager.stopping then [] else seat_removed seat ∷ [],
)

-- The handler of a seat's signal STOPPED, which is connected while the seat is in the list.
unfoldable pub seat_stopped_cb : ℕ → Act
seat_stopped_cb seat manager =
    if has_seat seat manager.seats
    then (do drop_seat seat; check_stopped) manager
    else (manager, [])

-- `starts` is the result of `seat_start`.
unfoldable pub display_manager_add_seat : Bool → ℕ → Act
display_manager_add_seat starts seat manager =
    if manager.stopping || not starts
    then (manager, [])
    else (record manager { seats = manager.seats ++ seat ∷ [] }, seat_added seat ∷ [])

-- The loop over the copy of the list: `at_once` tells whether `seat_stop` emits STOPPED before it
-- returns.
unfoldable pub stop_seats : (ℕ → Bool) → List ℕ → Act
stop_seats at_once [] = do_nothing
stop_seats at_once (seat ∷ seats) = do
  if at_once seat then seat_stopped_cb seat else do_nothing
  stop_seats at_once seats

abbrev pub begin_stop : Act
begin_stop manager = (record manager { stopping = true }, [])

unfoldable pub display_manager_stop : (ℕ → Bool) → Act
display_manager_stop at_once manager =
    if manager.stopping
    then (manager, [])
    else (do begin_stop; stop_seats at_once manager.seats; check_stopped) manager

abbrev pub new_manager : DisplayManager
new_manager = record { seats = []; stopping = false; stopped = false }

-- What happens to a display manager: a seat is added, a seat stops, it is told to stop.
pub data Event : Type 0 where
  adds : Bool → ℕ → Event
  seat_stops : ℕ → Event
  stops : (ℕ → Bool) → Event

unfoldable pub step : Event → Act
step (adds starts seat) = display_manager_add_seat starts seat
step (seat_stops seat) = seat_stopped_cb seat
step (stops at_once) = display_manager_stop at_once

unfoldable pub run : List Event → Act
run [] = do_nothing
run (event ∷ events) = do step event; run events
