-- ===== src/Seat/Halting.antt =====
-- The stop of a seat (src/seat.c) comes to an end: what a stopping seat goes through.
use lightdm.Base.{
  ℕ, Bool, true, false, List, Option, none, some, ◌==◌, if◌then◌else◌, ◌≡◌, if-either,
}
use lightdm.Seat.State.{
  Seat, SeatAction, SeatOutput, Environment, Answers, SeatSession, DisplayServer, Outcome, returned,
  crashed, too_deep, Act, ◌>>=◌, pure, gets, if_null, continue,
}
use lightdm.Seat.Objects.{
  modify, set, put_out, update_session, update_server, ask, session_at, server_at,
}
use lightdm.Seat.Stop.{is_done, check_stopped}
use lightdm.Seat.Create.{has}

-- A session, and a display server, that has been told to stop.
abbrev pub told_session : Seat → ℕ → Bool
told_session seat n = (seat.session_of n).session.stopping

abbrev pub told_server : Seat → ℕ → Bool
told_server seat d = (seat.server_of d).stopping

-- How a stopping seat may go on: nothing is added, and what was told to stop stays so.
pub record Below (seat later : Seat) : Type 0 where
  pub flag : seat.stopping ≡ true → later.stopping ≡ true
  pub sessions : (n : ℕ) → has n later.sessions ≡ true → has n seat.sessions ≡ true
  pub servers : (d : ℕ) → has d later.display_servers ≡ true → has d seat.display_servers ≡ true
  pub session_told : (n : ℕ) → told_session seat n ≡ true → told_session later n ≡ true
  pub server_told : (d : ℕ) → told_server seat d ≡ true → told_server later d ≡ true

pub Below-refl : (seat : Seat) → Below seat seat
Below-refl seat = record {
  flag = λ h. h;
  sessions = λ n h. h;
  servers = λ d h. h;
  session_told = λ n h. h;
  server_told = λ d h. h;
}

pub Below-trans : {a b c : Seat} → Below a b → Below b c → Below a c
Below-trans p q = record {
  flag = λ h. q.flag (p.flag h);
  sessions = λ n h. p.sessions n (q.sessions n h);
  servers = λ d h. p.servers d (q.servers d h);
  session_told = λ n h. q.session_told n (p.session_told n h);
  server_told = λ d h. q.server_told d (p.server_told d h);
}

abbrev pub Done : {A : Type 0} → (Seat → Type 0) → Outcome A → Type 0
Done Q (returned a seat) = Q seat
Done Q crashed = ⊥
Done Q too_deep = ⊥

-- An action that returns from a stopping seat, below it and in `R`.
pub record HaltsIn {A : Type 0} (R : Seat → Type 0) (act : Act A) : Type 0 where
  pub halts_in :
      (seat : Seat) → seat.stopping ≡ true → Done (λ later. Below seat later × R later) (act seat)

pub record Halts {A : Type 0} (act : Act A) : Type 0 where
  pub halts : (seat : Seat) → seat.stopping ≡ true → Done (Below seat) (act seat)

-- What stays true below.
pub record Stays (R : Seat → Type 0) : Type 0 where
  pub stays : (seat later : Seat) → Below seat later → R seat → R later

pub Done-continue :
    {A B : Type 0} {P : Seat → Type 0} (Q : Seat → Type 0) (o : Outcome A) (f : A → Act B)
    → Done P o
    → ((a : A) (seat : Seat) → P seat → Done Q (f a seat))
    → Done Q (continue o f)
Done-continue Q (returned a seat) f h k = k a seat h
Done-continue Q crashed f h k = elim h [ ]
Done-continue Q too_deep f h k = elim h [ ]

pub Done-map :
    {A : Type 0} {P Q : Seat → Type 0} (o : Outcome A)
    → Done P o
    → ((seat : Seat) → P seat → Q seat)
    → Done Q o
Done-map (returned a seat) h k = k seat h
Done-map crashed h k = h
Done-map too_deep h k = h

module _ {A B : Type 0} where
  pub Halts->>= : (m : Act A) (f : A → Act B) → Halts m → ((a : A) → Halts (f a)) → Halts (m >>= f)
  unfolding ◌>>=◌
  Halts->>= m f h k = record {
    halts = λ seat e. Done-continue (Below seat) (m seat) f (h.halts seat e) λ a seat' below.
        Done-map (f a seat') ((k a).halts seat' (below.flag e)) (λ later b. Below-trans below b);
  }

  -- What the first action brings about, and what the second does.
  pub HaltsIn-first :
      {R : Seat → Type 0} (m : Act A) (f : A → Act B)
      → Stays R
      → HaltsIn R m
      → ((a : A) → Halts (f a))
      → HaltsIn R (m >>= f)
  unfolding ◌>>=◌
  HaltsIn-first {R} m f stay h k = record {
    halts_in = λ seat e.
        Done-continue (λ later. Below seat later × R later) (m seat) f (h.halts_in seat e)
          λ a seat' (below, r).
            Done-map (f a seat') ((k a).halts seat' (below.flag e))
              (λ later b. (Below-trans below b, stay.stays seat' later b r));
  }

  pub HaltsIn-second :
      {R : Seat → Type 0} (m : Act A) (f : A → Act B)
      → Halts m
      → ((a : A) → HaltsIn R (f a))
      → HaltsIn R (m >>= f)
  unfolding ◌>>=◌
  HaltsIn-second {R} m f h k = record {
    halts_in = λ seat e.
        Done-continue (λ later. Below seat later × R later) (m seat) f (h.halts seat e)
          λ a seat' below.
            Done-map (f a seat') ((k a).halts_in seat' (below.flag e))
              (λ later (b, r). (Below-trans below b, r));
  }

  pub HaltsIn-both :
      {R S : Seat → Type 0} (m : Act A) (f : A → Act B)
      → Stays R
      → HaltsIn R m
      → ((a : A) → HaltsIn S (f a))
      → HaltsIn (λ seat. R seat × S seat) (m >>= f)
  unfolding ◌>>=◌
  HaltsIn-both {R} {S} m f stay h k = record {
    halts_in = λ seat e.
        Done-continue (λ later. Below seat later × (R later × S later)) (m seat) f
          (h.halts_in seat e)
          λ a seat' (below, r).
            Done-map (f a seat') ((k a).halts_in seat' (below.flag e))
              (λ later (b, s). (Below-trans below b, (stay.stays seat' later b r, s)));
  }

  pub Halts-if_null :
      (o : Option A) (m : Act B) (f : A → Act B)
      → Halts m
      → ((a : A) → Halts (f a))
      → Halts (if_null o m f)
  Halts-if_null none m f h g = h
  Halts-if_null (some a) m f h g = g a

pub HaltsIn-map :
    {A : Type 0} {R S : Seat → Type 0} {act : Act A}
    → HaltsIn R act
    → ((seat : Seat) → R seat → S seat)
    → HaltsIn S act
HaltsIn-map {act} h k = record {
  halts_in = λ seat e. Done-map (act seat) (h.halts_in seat e) (λ later (b, r). (b, k later r));
}

module _ {A : Type 0} where
  pub Halts-pure : (a : A) → Halts (pure a)
  unfolding pure
  Halts-pure a = record { halts = λ seat e. Below-refl seat }

  pub Halts-gets : (f : Seat → A) → Halts (gets f)
  unfolding gets
  Halts-gets f = record { halts = λ seat e. Below-refl seat }

  pub Halts-if : (b : Bool) (m n : Act A) → Halts m → Halts n → Halts (if b then m else n)
  Halts-if true m n h k = h
  Halts-if false m n h k = k

  pub Halts-ask : (env : Environment) (f : Answers → A) → Halts (ask env f)
  unfolding ask
  Halts-ask env f = record {
    halts = λ seat e. record {
      flag = λ h. h;
      sessions = λ n h. h;
      servers = λ d h. h;
      session_told = λ n h. h;
      server_told = λ d h. h;
    };
  }

pub Halts-put_out : (action : SeatAction) → Halts (put_out action)
unfolding put_out modify
Halts-put_out action = record {
  halts = λ seat e. record {
    flag = λ h. h;
    sessions = λ n h. h;
    servers = λ d h. h;
    session_told = λ n h. h;
    server_told = λ d h. h;
  };
}

pub Halts-session_at : (n : ℕ) → Halts (session_at n)
unfolding session_at gets
Halts-session_at n = record { halts = λ seat e. Below-refl seat }

pub Halts-server_at : (d : ℕ) → Halts (server_at d)
unfolding server_at gets
Halts-server_at d = record { halts = λ seat e. Below-refl seat }

-- What every change of an object keeps, the change of one object does.
set_lem :
    {A : Type 0} (P : A → Bool) (n m : ℕ) (f : A → A) (objects : ℕ → A)
    → ((a : A) → P a ≡ true → P (f a) ≡ true)
    → P (objects m) ≡ true
    → P (set n f objects m) ≡ true
set_lem P n m f objects keep h = if-either (λ a. P a ≡ true) (m == n) (keep (objects m) h) h

pub Halts-update_session :
    (n : ℕ) (f : SeatSession → SeatSession)
    → ((s : SeatSession) → s.session.stopping ≡ true → (f s).session.stopping ≡ true)
    → Halts (update_session n f)
unfolding update_session modify
Halts-update_session n f keep = record {
  halts = λ seat e. record {
    flag = λ h. h;
    sessions = λ m h. h;
    servers = λ d h. h;
    session_told =
        λ m h. set_lem (λ (s : SeatSession). s.session.stopping) n m f seat.session_of keep h;
    server_told = λ d h. h;
  };
}

pub Halts-update_server :
    (d : ℕ) (f : DisplayServer → DisplayServer)
    → ((s : DisplayServer) → s.stopping ≡ true → (f s).stopping ≡ true)
    → Halts (update_server d f)
unfolding update_server modify
Halts-update_server d f keep = record {
  halts = λ seat e. record {
    flag = λ h. h;
    sessions = λ n h. h;
    servers = λ c h. h;
    session_told = λ n h. h;
    server_told = λ c h. set_lem (λ (s : DisplayServer). s.stopping) d c f seat.server_of keep h;
  };
}

check_lem :
    (seat : Seat) (b : Bool) (done : List SeatOutput)
    → Below seat (if b then record seat { stopped = true; done = done } else seat)
check_lem seat true done = record {
  flag = λ h. h;
  sessions = λ n h. h;
  servers = λ d h. h;
  session_told = λ n h. h;
  server_told = λ d h. h;
}
check_lem seat false done = Below-refl seat

pub Halts-check : Halts check_stopped
unfolding check_stopped modify
Halts-check = record { halts = λ seat e. check_lem seat (is_done seat) _ }

pub ruleset halts_rules = (
  Halts-pure, Halts-gets, Halts-if, Halts->>=, Halts-if_null, Halts-ask, Halts-put_out,
  Halts-session_at, Halts-server_at, Halts-check,
)
