-- ===== src/Greeter/Locked.antt =====
-- The acts of src/greeter.c that keep a greeter that nobody logged into from starting a session.
use lightdm.Base.{
  ℕ, ◌≡◌, refl, Bool, true, false, List, [], ◌∷◌, ◌++◌, Option, none, some, arith, if◌then◌else◌,
  ◌||◌,
}
use lightdm.Session.Authentication.{
  Str, Session, StartResults, session_get_is_authenticated, session_start, start_child,
  pam_user_unknown,
}
use lightdm.Greeter.State.{
  Greeter, GreeterOutput, emitted_create_session, emitted_start_session, World, Act, ◌>>◌,
  do_nothing, put_out, modify, if_null,
}
use lightdm.Greeter.Handlers.{
  drop_session, reset, reset_session, send_end_authentication, start_authentication, login,
  no_session, start_pam, authenticated, forget_session, set_up_login,
}

-- Nobody may start a session.
pub record IsLocked (greeter : Greeter) : Type 0 where
  pub no_guest : greeter.allow_guest ≡ false
  pub not_guest : greeter.guest_account_authenticated ≡ false
  pub not_authenticated : authenticated greeter.authentication_session ≡ false

unfoldable pub is_start : GreeterOutput → Bool
is_start (emitted_start_session type session) = true
is_start output = false

-- Whether the signal START_SESSION is among what was done.
unfoldable pub any_start : List GreeterOutput → Bool
any_start [] = false
any_start (output ∷ outputs) = is_start output || any_start outputs

pub any_start-append :
    (xs ys : List GreeterOutput)
    → any_start xs ≡ false
    → any_start ys ≡ false
    → any_start (xs ++ ys) ≡ false
unfolding any_start
any_start-append [] ys p q = q
any_start-append (x ∷ xs) ys p q = ground (arith, any_start-append xs ys)

-- A locked greeter, and no session started.
abbrev pub StaysLocked : Greeter × List GreeterOutput → Type 0
StaysLocked (greeter, outputs) = IsLocked greeter × (any_start outputs ≡ false)

pub record Locked (act : Act) : Type 0 where
  pub locked : (greeter : Greeter) → IsLocked greeter → StaysLocked (act greeter)

pub Locked->> : {f g : Act} → Locked f → Locked g → Locked (f >> g)
Locked->> {f} {g} p q = record {
  locked = λ greeter l.
      let (l', n) = p.locked greeter l in
      let (l'', n') = q.locked (f greeter).0 l' in
      (l'', any_start-append (f greeter).1 (g (f greeter).0).1 n n');
}

pub Locked-send :
    (n : ℕ) (username : Option Str) (r : ℕ) → Locked (send_end_authentication n username r)
unfolding send_end_authentication any_start is_start
Locked-send n username r = record { locked = λ greeter l. (l, refl) }

pub Locked-put : (output : GreeterOutput) → is_start output ≡ false → Locked (put_out output)
unfolding any_start
Locked-put output n = record { locked = λ greeter l. (l, rw n refl) }

pub Locked-nothing : Locked do_nothing
unfolding any_start
Locked-nothing = record { locked = λ greeter l. (l, refl) }

pub Locked-if_null :
    {A : Type 0} (o : Option A) {f : Act} {g : A → Act}
    → Locked f
    → ((a : A) → Locked (g a))
    → Locked (if_null o f g)
Locked-if_null none p q = p
Locked-if_null (some a) p q = q a

pub Locked-drop : (session : Session) → Locked (drop_session session)
unfolding drop_session any_start is_start authenticated
Locked-drop session = record {
  locked = λ greeter l.
      (record { no_guest = l.no_guest; not_guest = refl; not_authenticated = refl }, refl);
}

pub Locked-modify-reset : Locked (modify reset)
unfolding any_start authenticated
Locked-modify-reset = record {
  locked = λ greeter l.
      (record { no_guest = l.no_guest; not_guest = refl; not_authenticated = refl }, refl);
}

pub Locked-reset : Locked reset_session
unfolding reset_session
Locked-reset = record {
  locked = λ greeter.
      let step = Locked-if_null greeter.authentication_session Locked-modify-reset Locked-drop in
      step.locked greeter;
}

-- A session that PAM has not passed.
abbrev pub IsFresh : Option Session → Type 0
IsFresh none = Unit
IsFresh (some session) = session.authentication_complete ≡ false

pub session_start_complete :
    (results : StartResults) (session : Session)
    → session.authentication_complete ≡ false
    → let (session', done) = session_start results session in
      session'.authentication_complete ≡ false
unfolding session_start start_child
session_start_complete results session = ground arith

-- A greeter whose change leaves the three fields alone.
pub Locked-modify :
    (f : Greeter → Greeter)
    → ((greeter : Greeter) → IsLocked greeter → IsLocked (f greeter))
    → Locked (modify f)
unfolding any_start
Locked-modify f keeps = record { locked = λ greeter l. (keeps greeter l, refl) }

-- The authentication session becomes one that is not authenticated.
pub set-session :
    (greeter : Greeter) (session : Session) (l : Bool)
    → IsLocked greeter
    → session_get_is_authenticated session ≡ false
    → IsLocked (record greeter { authentication_session = some session; listening = l })
unfolding authenticated
set-session greeter session l lock passed = record {
  no_guest = lock.no_guest;
  not_guest = lock.not_guest;
  not_authenticated = passed;
}

pub incomplete :
    (session : Session)
    → session.authentication_complete ≡ false
    → session_get_is_authenticated session ≡ false
unfolding session_get_is_authenticated
incomplete session e = rw e refl

-- `set_up` does not make the session complete.
abbrev pub KeepsFresh : (Session → Session) → Type 0
KeepsFresh set_up =
    (session : Session)
    → session.authentication_complete ≡ false
    → (set_up session).authentication_complete ≡ false

pub Locked-no_session : (n : ℕ) → Locked (no_session n)
unfolding no_session authenticated
Locked-no_session n =
    Locked->>
      (Locked-modify forget_session λ greeter l. record {
        no_guest = l.no_guest;
        not_guest = l.not_guest;
        not_authenticated = refl;
      })
      (Locked-send n (some []) pam_user_unknown)

pub Locked-start_pam :
    (world : World) (set_up : Session → Session) (session : Session)
    → KeepsFresh set_up
    → session.authentication_complete ≡ false
    → Locked (start_pam world set_up session)
unfolding start_pam any_start is_start
Locked-start_pam world set_up session keeps fresh = record {
  locked = λ greeter l. (
    set-session greeter (session_start world.start_results (set_up session)).0 true l (
        incomplete _
          (session_start_complete world.start_results (set_up session) (keeps session fresh))),
    refl,
  );
}

pub Locked-create :
    (world : World) (n : ℕ) (set_up : Session → Session) (created : Option Session)
    → KeepsFresh set_up
    → IsFresh created
    → Locked (if_null created (no_session n) (start_pam world set_up))
Locked-create world n set_up none keeps fresh = Locked-no_session n
Locked-create world n set_up (some session) keeps fresh =
    Locked-start_pam world set_up session keeps fresh

pub Locked-start_authentication :
    (world : World) (n : ℕ) (set_up : Session → Session)
    → IsFresh world.created
    → KeepsFresh set_up
    → Locked (start_authentication world n set_up)
unfolding start_authentication is_start
Locked-start_authentication world n set_up fresh keeps =
    Locked->> (Locked-put emitted_create_session refl)
      (Locked-create world n set_up world.created keeps fresh)

pub Locked-login :
    (world : World) (n : ℕ) (username : Option Str)
    → IsFresh world.created
    → Locked (login world n username)
unfolding login set_up_login
Locked-login world n username fresh = record {
  locked = λ greeter.
      let step =
        Locked-start_authentication world n (set_up_login greeter username) fresh (λ s e. e) in
      step.locked greeter;
}

pub locked-if_false :
    (b : Bool) (x y : Greeter × List GreeterOutput)
    → b ≡ false
    → StaysLocked y
    → StaysLocked (if b then x else y)
locked-if_false true x y e l = cc
locked-if_false false x y e l = l

pub locked-if_true :
    (b : Bool) (x y : Greeter × List GreeterOutput)
    → b ≡ true
    → StaysLocked x
    → StaysLocked (if b then x else y)
locked-if_true true x y e l = l
locked-if_true false x y e l = cc

pub act-if_either :
    (b : Bool) (f g : Act) {greeter : Greeter}
    → StaysLocked (f greeter)
    → StaysLocked (g greeter)
    → StaysLocked (if◌then◌else◌ {A = Act} b f g greeter)
act-if_either true f g p q = p
act-if_either false f g p q = q

-- An act on the authentication session, which is not authenticated.
pub on-session :
    {f : Act} (g : Session → Act) (greeter : Greeter) (o : Option Session)
    → IsLocked greeter
    → authenticated o ≡ false
    → Locked f
    → ((session : Session)
        → session_get_is_authenticated session ≡ false
        → StaysLocked (g session greeter))
    → StaysLocked (if_null o f g greeter)
unfolding authenticated
on-session g greeter none l e p q = p.locked greeter l
on-session g greeter (some session) l e p q = q session e
