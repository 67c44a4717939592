-- ===== src/Seat/Find.antt =====
-- The searches among the sessions of a seat (src/seat.c).
use lightdm.Base.{
  ℕ, Bool, true, false, List, [], ◌∷◌, Option, none, some, ◌&&◌, ◌||◌, not, ◌==◌, if◌then◌else◌,
  is_some, str_eq,
}
use lightdm.Session.Authentication.{Str}
use lightdm.Seat.State.{Pointer, SeatSession, Seat, if_null}
use lightdm.Seat.Objects.{is_greeter, same}

-- `g_strcmp0 (s, t) == 0`.
abbrev pub strcmp0_eq : Option Str → Option Str → Bool
strcmp0_eq none none = true
strcmp0_eq none (some t) = false
strcmp0_eq (some s) none = false
strcmp0_eq (some s) (some t) = str_eq s t

-- The first of the sessions that passes a test.
unfoldable pub first : (ℕ → Bool) → List ℕ → Pointer
first test [] = none
first test (n ∷ ns) = if test n then some n else first test ns

abbrev pub is_resettable : SeatSession → Bool
is_resettable s = if_null s.greeter false (λ greeter. greeter.resettable)

module _ (seat : Seat) where
  unfoldable pub find_greeter_session : Pointer
  unfolding first
  find_greeter_session =
      first (λ n. let s = seat.session_of n in not s.session.stopping && is_greeter s) seat.sessions

  unfoldable pub find_resettable_greeter : Pointer
  unfolding first
  find_resettable_greeter =
      first
        (λ n.
          let s = seat.session_of n in not s.session.stopping && is_greeter s && is_resettable s)
        seat.sessions

  unfoldable pub find_user_session : Option Str → Pointer → Pointer
  unfolding first
  find_user_session username ignore_session = if_null username none λ name.
      first
        (λ n.
          let s = seat.session_of n in
          not (same (some n) ignore_session)
          && (not s.session.stopping && strcmp0_eq s.session.username (some name)))
        seat.sessions

  unfoldable pub find_guest_session : Pointer
  unfolding first
  find_guest_session =
      first (λ n. let s = seat.session_of n in not s.session.stopping && s.session.is_guest)
        seat.sessions

  unfoldable pub find_session_for_display_server : ℕ → Pointer
  unfolding first
  find_session_for_display_server d =
      first
        (λ n.
          let s = seat.session_of n in
          same s.display_server (some d) && not s.session.stopping && not s.session.command_run)
        seat.sessions

  unfoldable pub seat_find_session_by_login1_id : Option Str → Pointer
  unfolding first
  seat_find_session_by_login1_id id =
      first (λ n. strcmp0_eq id (seat.session_of n).session.login1_session_id) seat.sessions

  -- Every greeter session has a greeter, so the first one is it.
  unfoldable pub get_greeter_session : Pointer
  unfolding first
  get_greeter_session = first (λ n. is_greeter (seat.session_of n)) seat.sessions

  unfoldable pub seat_real_display_server_is_used : ℕ → Bool
  unfolding first
  seat_real_display_server_is_used d = is_some (
      first
        (λ n.
          if_null (seat.session_of n).display_server false
            λ d'. d' == d || same (seat.server_of d').parent (some d))
        seat.sessions)
