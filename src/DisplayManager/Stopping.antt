-- ===== src/DisplayManager/Stopping.antt =====
-- When src/display-manager.c says that it has stopped.
use lightdm.Base.{
  ℕ, ◌+◌, ◌≡◌, refl, sym, ap, subst, Bool, true, false, List, [], ◌∷◌, ◌++◌, ◌&&◌, ◌||◌, not, arith,
  if◌then◌else◌, if-either,
}
use lightdm.DisplayManager.Manager.{
  DisplayManager, Signal, seat_added, seat_removed, all_stopped, Act, ◌>>◌, do_nothing, is_empty,
  has_seat, remove_seat, check_stopped, drop_seat, seat_stopped_cb, display_manager_add_seat,
  stop_seats, display_manager_stop, new_manager, Event, adds, seat_stops, stops, step, run,
}

-- How often the signal STOPPED is among the signals.
unfoldable pub times_stopped : List Signal → ℕ
times_stopped [] = 0
times_stopped (all_stopped ∷ signals) = 1 + times_stopped signals
times_stopped (seat_added seat ∷ signals) = times_stopped signals
times_stopped (seat_removed seat ∷ signals) = times_stopped signals

times_stopped-append :
    (xs ys : List Signal) → times_stopped (xs ++ ys) ≡ times_stopped xs + times_stopped ys
unfolding times_stopped
times_stopped-append [] ys = omega arith
times_stopped-append (all_stopped ∷ xs) ys = omega (arith, times_stopped-append xs ys)
times_stopped-append (seat_added seat ∷ xs) ys = times_stopped-append xs ys
times_stopped-append (seat_removed seat ∷ xs) ys = times_stopped-append xs ys

abbrev once : Bool → ℕ
once b = if b then 1 else 0

-- Stopping, with all seats gone.
abbrev pub is_done : DisplayManager → Bool
is_done manager = manager.stopping && is_empty manager.seats

-- It has stopped only if it is done; and exactly then.
record MayBeLate (manager : DisplayManager) : Type 0 where
  sound : (not manager.stopped || is_done manager) ≡ true

record InTime (manager : DisplayManager) : Type 0 where
  exact : manager.stopped ≡ is_done manager

-- An act that leads from `P` to `Q` and says STOPPED when the flag is set, and only then.
record Says (P Q : DisplayManager → Type 0) (act : Act) : Type 0 where
  says :
      (manager : DisplayManager)
      → P manager
      → let (manager', signals) = act manager in
        Q manager' × (times_stopped signals + once manager.stopped ≡ once manager'.stopped)

Says->> :
    {P Q R : DisplayManager → Type 0} {f g : Act} → Says P Q f → Says Q R g → Says P R (f >> g)
Says->> {f} {g} p q = record {
  says = λ manager h.
      let (h', e) = p.says manager h in
      let (h'', e') = q.says (f manager).0 h' in
      (h'', omega (arith, e, e', times_stopped-append (f manager).1 (g (f manager).0).1));
}

no_way : (false ≡ true) → ⊥
no_way e = cc

check_lem :
    (seats : List ℕ) (stopping stopped : Bool)
    → MayBeLate (record { seats = seats; stopping = stopping; stopped = stopped })
    → let (manager', signals) =
        check_stopped (record { seats = seats; stopping = stopping; stopped = stopped }) in
      InTime manager' × (times_stopped signals + once stopped ≡ once manager'.stopped)
unfolding check_stopped times_stopped
check_lem [] true true h = (record { exact = refl }, refl)
check_lem [] true false h = (record { exact = refl }, refl)
check_lem [] false true h = absurd (no_way h.sound)
check_lem [] false false h = (record { exact = refl }, refl)
check_lem (s ∷ seats) true true h = absurd (no_way h.sound)
check_lem (s ∷ seats) true false h = (record { exact = refl }, refl)
check_lem (s ∷ seats) false true h = absurd (no_way h.sound)
check_lem (s ∷ seats) false false h = (record { exact = refl }, refl)

Says-check : Says MayBeLate InTime check_stopped
Says-check = record {
  says = λ manager h. check_lem manager.seats manager.stopping manager.stopped h;
}

in_time : (b : Bool) → (not b || b) ≡ true
in_time true = refl
in_time false = refl

-- What is in time is not late.
not_late : (manager : DisplayManager) → InTime manager → MayBeLate manager
not_late manager h = record {
  sound = subst (λ b. (not manager.stopped || b) ≡ true) h.exact (in_time manager.stopped);
}

drop_lem :
    (seat : ℕ) (seats : List ℕ) (stopping stopped : Bool)
    → MayBeLate (record { seats = seats; stopping = stopping; stopped = stopped })
    → let (manager', signals) =
        drop_seat seat (record { seats = seats; stopping = stopping; stopped = stopped }) in
      MayBeLate manager' × (times_stopped signals + once stopped ≡ once manager'.stopped)
unfolding times_stopped remove_seat
drop_lem seat [] true true h = (record { sound = refl }, refl)
drop_lem seat [] true false h = (record { sound = refl }, refl)
drop_lem seat [] false true h = absurd (no_way h.sound)
drop_lem seat [] false false h = (record { sound = refl }, refl)
drop_lem seat (s ∷ seats) true true h = absurd (no_way h.sound)
drop_lem seat (s ∷ seats) true false h = (record { sound = refl }, refl)
drop_lem seat (s ∷ seats) false true h = absurd (no_way h.sound)
drop_lem seat (s ∷ seats) false false h = (record { sound = refl }, refl)

Says-drop : (seat : ℕ) → Says MayBeLate MayBeLate (drop_seat seat)
Says-drop seat = record {
  says = λ manager h. drop_lem seat manager.seats manager.stopping manager.stopped h;
}

-- With nothing done, nothing is said.
silent :
    (P : DisplayManager → Type 0) (manager : DisplayManager)
    → P manager
    → P manager × (times_stopped [] + once manager.stopped ≡ once manager.stopped)
unfolding times_stopped
silent P manager h = (h, omega arith)

Said : (DisplayManager → Type 0) → DisplayManager → DisplayManager × List Signal → Type 0
Said Q manager (manager', signals) =
    Q manager' × (times_stopped signals + once manager.stopped ≡ once manager'.stopped)

Says-seat_stopped : (seat : ℕ) → Says InTime InTime (seat_stopped_cb seat)
unfolding seat_stopped_cb Said
Says-seat_stopped seat = record {
  says = λ manager h.
      let act = Says->> (Says-drop seat) Says-check in
      if-either (Said InTime manager) (has_seat seat manager.seats)
        (act.says manager (not_late manager h)) (silent InTime manager h);
}

Says-seat_in_loop : (seat : ℕ) → Says MayBeLate MayBeLate (seat_stopped_cb seat)
unfolding seat_stopped_cb Said
Says-seat_in_loop seat = record {
  says = λ manager h.
      let act = Says->> (Says-drop seat) Says-check in
      let (done, e) = act.says manager h in
      if-either (Said MayBeLate manager) (has_seat seat manager.seats) (not_late _ done, e)
        (silent MayBeLate manager h);
}

Says-nothing : (P : DisplayManager → Type 0) → Says P P do_nothing
Says-nothing P = record { says = silent P }

Says-loop :
    (at_once : ℕ → Bool) (seats : List ℕ) → Says MayBeLate MayBeLate (stop_seats at_once seats)
unfolding stop_seats
Says-loop at_once [] = Says-nothing MayBeLate
Says-loop at_once (seat ∷ seats) =
    Says->>
      (if-either (Says MayBeLate MayBeLate) (at_once seat) (Says-seat_in_loop seat)
        (Says-nothing MayBeLate))
      (Says-loop at_once seats)

add_lem :
    (starts : Bool) (seat : ℕ) (seats : List ℕ) (stopping stopped : Bool)
    → InTime (record { seats = seats; stopping = stopping; stopped = stopped })
    → let (manager', signals) =
        display_manager_add_seat starts seat
          (record { seats = seats; stopping = stopping; stopped = stopped }) in
      InTime manager' × (times_stopped signals + once stopped ≡ once manager'.stopped)
unfolding display_manager_add_seat times_stopped
add_lem starts seat seats true stopped h = (h, omega arith)
add_lem true seat seats false stopped h = (record { exact = h.exact }, omega arith)
add_lem false seat seats false stopped h = (h, omega arith)

begin_lem :
    (seats : List ℕ) (stopped : Bool)
    → InTime (record { seats = seats; stopping = false; stopped = stopped })
    → MayBeLate (record { seats = seats; stopping = true; stopped = stopped })
begin_lem seats true h = absurd (no_way (sym h.exact))
begin_lem seats false h = record { sound = refl }

stop_lem :
    (at_once : ℕ → Bool) (seats : List ℕ) (stopping stopped : Bool)
    → InTime (record { seats = seats; stopping = stopping; stopped = stopped })
    → let (manager', signals) =
        display_manager_stop at_once
          (record { seats = seats; stopping = stopping; stopped = stopped }) in
      InTime manager' × (times_stopped signals + once stopped ≡ once manager'.stopped)
unfolding display_manager_stop times_stopped
stop_lem at_once seats true stopped h = (h, omega arith)
stop_lem at_once seats false stopped h =
    let act = Says->> (Says-loop at_once seats) Says-check in
    act.says (record { seats = seats; stopping = true; stopped = stopped })
      (begin_lem seats stopped h)

Says-step : (event : Event) → Says InTime InTime (step event)
unfolding step
Says-step (adds starts seat) = record {
  says = λ manager h. add_lem starts seat manager.seats manager.stopping manager.stopped h;
}
Says-step (seat_stops seat) = Says-seat_stopped seat
Says-step (stops at_once) = record {
  says = λ manager h. stop_lem at_once manager.seats manager.stopping manager.stopped h;
}

Says-run : (events : List Event) → Says InTime InTime (run events)
unfolding run
Says-run [] = Says-nothing InTime
Says-run (event ∷ events) = Says->> (Says-step event) (Says-run events)

-- After any history of a new display manager, seats that stop while they are told to included, the
-- signal STOPPED has been emitted exactly once if the display manager is stopping and has no seat
-- left, and not at all otherwise.
pub stopped_once :
    (events : List Event)
    → let (manager, signals) = run events new_manager in
      times_stopped signals ≡ (if manager.stopping && is_empty manager.seats then 1 else 0)
stopped_once events =
    let act = Says-run events in
    let (h, e) = act.says new_manager (record { exact = refl }) in omega (arith, e, ap once h.exact)
