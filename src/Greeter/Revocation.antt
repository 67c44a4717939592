-- ===== src/Greeter/Revocation.antt =====
-- A new authentication drops the old one (src/greeter.c).
use lightdm.Base.{ℕ, ◌≡◌, refl, false, List, Option, none, some, All}
use lightdm.Session.Authentication.{Str, Session}
use lightdm.Greeter.State.{Greeter, World, Act, ◌>>◌, modify, if_null}
use lightdm.Greeter.Handlers.{
  handle_authenticate, handle_authenticate_remote, drop_session, reset, reset_session,
  authenticated,
}
use lightdm.Greeter.Dispatch.{Event, run}
use lightdm.Greeter.Locked.{any_start-append, Locked, any_start, is_start, StaysLocked, IsFresh}
use lightdm.Greeter.LockedHandlers.{Locked-begin_login, Locked-begin_remote}
use lightdm.Greeter.Safety.{IsUnsuccessful, Locked-run}

drop_locks :
    (greeter : Greeter) (o : Option Session)
    → greeter.allow_guest ≡ false
    → StaysLocked (if_null o (modify reset) drop_session greeter)
unfolding drop_session any_start is_start authenticated
drop_locks greeter none e =
    (record { no_guest = e; not_guest = refl; not_authenticated = refl }, refl)
drop_locks greeter (some session) e =
    (record { no_guest = e; not_guest = refl; not_authenticated = refl }, refl)

reset_locks :
    (greeter : Greeter) → greeter.allow_guest ≡ false → StaysLocked (reset_session greeter)
unfolding reset_session
reset_locks greeter = drop_locks greeter greeter.authentication_session

-- A reset at the head locks any greeter without guests.
reset_first :
    {f g : Act} (greeter : Greeter)
    → Locked f
    → Locked g
    → greeter.allow_guest ≡ false
    → any_start (((reset_session >> f) >> g) greeter).1 ≡ false
reset_first {f} {g} greeter p q e =
    let (l, none_started) = reset_locks greeter e in
    let (l', none_started') = p.locked (reset_session greeter).0 l in
    let (_, none_started'') = q.locked ((reset_session >> f) greeter).0 l' in
    any_start-append ((reset_session >> f) greeter).1 (g ((reset_session >> f) greeter).0).1
      (any_start-append (reset_session greeter).1 (f (reset_session greeter).0).1 none_started
        none_started')
      none_started''

-- Where guests are not allowed, a request to authenticate, local or remote, revokes every success
-- before it: whoever was logged in, no START_SESSION is emitted from then on in a run in which no
-- session child reports PAM's success and sessions are created unauthenticated.
pub authenticate_revokes :
    (world : World) (n : ℕ) (name session_name : Str) (events : List (World × Event))
    (greeter : Greeter)
    → greeter.allow_guest ≡ false
    → IsFresh world.created
    → All IsUnsuccessful events
    → (any_start ((handle_authenticate world n name >> run events) greeter).1 ≡ false)
      × (any_start ((handle_authenticate_remote world session_name name n >> run events) greeter).1
          ≡ false)
unfolding handle_authenticate handle_authenticate_remote
authenticate_revokes world n name session_name events greeter e fresh h = (
  reset_first greeter (Locked-begin_login world n name fresh) (Locked-run events h) e,
  reset_first greeter (Locked-begin_remote world session_name name n fresh) (Locked-run events h) e,
)
