-- ===== src/DisplayManager/Tests.antt =====
-- Runs of src/display-manager.c.
use lightdm.Base.{◌≡◌, refl, true, List, [], ◌∷◌, ◌==◌, ◌&&◌, if◌then◌else◌}
use lightdm.DisplayManager.Manager.{
  seat_added, all_stopped, is_empty, new_manager, Event, adds, seat_stops, stops, step, run,
  display_manager_add_seat, display_manager_stop, seat_stopped_cb, stop_seats, check_stopped,
  has_seat, remove_seat,
}
use lightdm.DisplayManager.Stopping.{times_stopped, stopped_once}

-- Two seats; the first stops at once.
abbrev two_seats : List Event
two_seats = adds true 1 ∷ adds true 2 ∷ stops (λ seat. seat == 1) ∷ seat_stops 2 ∷ seat_stops 2 ∷ []

two_seats_signals : (run two_seats new_manager).1 ≡ seat_added 1 ∷ seat_added 2 ∷ all_stopped ∷ []
unfolding run step display_manager_add_seat display_manager_stop seat_stopped_cb stop_seats
    check_stopped has_seat remove_seat
two_seats_signals = refl

stopped_once_example :
    let (manager, signals) = run two_seats new_manager in
    times_stopped signals ≡ (if manager.stopping && is_empty manager.seats then 1 else 0)
stopped_once_example = stopped_once two_seats
