-- ===== src/Seat/Stopping.antt =====
-- When a seat says that it has stopped (src/seat.c).
use lightdm.Base.{
  ℕ, ◌+◌, Bool, true, false, List, [], ◌∷◌, ◌&&◌, ◌||◌, not, if◌then◌else◌, ◌≡◌, refl, arith, ap,
}
use lightdm.Seat.State.{
  Seat, SeatOutput, did, seat_stopped, SeatAction, SeatSession, DisplayServer, Answers, Environment,
  gets,
}
use lightdm.Seat.Objects.{
  modify, put_out, update_session, update_server, ask, session_at, server_at,
}
use lightdm.Seat.Stop.{is_empty, is_done, check_stopped}
use lightdm.Seat.Keeps.{
  Leads, Keeps, Leads-Keeps, Keeps-Leads, Leads->>=, Keeps-modify, keeps_rules,
}

-- How often the signal STOPPED is among what was seen.
unfoldable pub times_stopped : List SeatOutput → ℕ
times_stopped [] = 0
times_stopped (seat_stopped ∷ outputs) = 1 + times_stopped outputs
times_stopped (did action ∷ outputs) = times_stopped outputs

abbrev pub once : Bool → ℕ
once b = if b then 1 else 0

-- STOPPED was said once if the flag is set, and else never; and the flag is set only while the seat
-- is stopping.
pub record Late (seat : Seat) : Type 0 where
  pub count : times_stopped seat.done ≡ once seat.stopped
  pub sound : (not seat.stopped || seat.stopping) ≡ true

-- And the flag is set where nothing is left to wait for.
pub record InTime (seat : Seat) : Type 0 where
  pub late : Late seat
  pub exact : is_done seat ≡ false

over_lem :
    (stopping stopped rest : Bool)
    → (stopping && (not stopped && rest)) ≡ true
    → (stopping ≡ true) × (stopped ≡ false)
over_lem true true rest h = cc
over_lem true false rest h = (refl, refl)
over_lem false stopped rest h = cc

not_over : (stopping rest : Bool) → (stopping && (not true && rest)) ≡ false
not_over true rest = refl
not_over false rest = refl

check_lem :
    (seat : Seat) (b : Bool)
    → is_done seat ≡ b
    → Late seat
    → InTime (if b then record seat { stopped = true; done = seat_stopped ∷ seat.done } else seat)
unfolding is_done times_stopped
check_lem seat false e h = record { late = h; exact = e }
check_lem seat true e h =
    let (stopping, stopped) =
      over_lem seat.stopping seat.stopped (is_empty seat.display_servers && is_empty seat.sessions)
        e in
    record {
      late = record { count = omega (arith, h.count, ap once stopped); sound = stopping };
      exact = not_over seat.stopping (is_empty seat.display_servers && is_empty seat.sessions);
    }

pub Leads-check : Leads Late InTime check_stopped
unfolding check_stopped modify
Leads-check = record { leads = λ seat h. check_lem seat (is_done seat) refl h }

pub Late-put_out : (action : SeatAction) → Keeps Late (put_out action)
unfolding put_out modify times_stopped
Late-put_out action = record { keeps = λ seat h. record { count = h.count; sound = h.sound } }

pub Keeps-put_out : (action : SeatAction) → Keeps InTime (put_out action)
unfolding put_out modify times_stopped is_done
Keeps-put_out action = record {
  keeps = λ seat h. record {
    late = record { count = h.late.count; sound = h.late.sound };
    exact = h.exact;
  };
}

pub Late-ask : {A : Type 0} (env : Environment) (f : Answers → A) → Keeps Late (ask env f)
unfolding ask
Late-ask env f = record { keeps = λ seat h. record { count = h.count; sound = h.sound } }

pub Keeps-ask : {A : Type 0} (env : Environment) (f : Answers → A) → Keeps InTime (ask env f)
unfolding ask is_done
Keeps-ask env f = record {
  keeps = λ seat h. record {
    late = record { count = h.late.count; sound = h.late.sound };
    exact = h.exact;
  };
}

pub Keeps-update_session :
    (n : ℕ) (f : SeatSession → SeatSession) → Keeps InTime (update_session n f)
unfolding update_session modify is_done
Keeps-update_session n f = record {
  keeps = λ seat h. record {
    late = record { count = h.late.count; sound = h.late.sound };
    exact = h.exact;
  };
}

pub Keeps-update_server :
    (d : ℕ) (f : DisplayServer → DisplayServer) → Keeps InTime (update_server d f)
unfolding update_server modify is_done
Keeps-update_server d f = record {
  keeps = λ seat h. record {
    late = record { count = h.late.count; sound = h.late.sound };
    exact = h.exact;
  };
}

pub Keeps-session_at : (n : ℕ) → Keeps InTime (session_at n)
unfolding session_at gets
Keeps-session_at n = record { keeps = λ seat h. h }

pub Keeps-server_at : (n : ℕ) → Keeps InTime (server_at n)
unfolding server_at gets
Keeps-server_at n = record { keeps = λ seat h. h }

pub ruleset in_time_rules = (
  keeps_rules, Keeps-put_out, Keeps-ask, Keeps-update_session, Keeps-update_server,
  Keeps-session_at, Keeps-server_at,
)
