-- ===== src/Seat/Keeps.antt =====
-- What actions on a seat keep, one rule for each way to build an action.
use lightdm.Base.{Bool, true, false, Option, none, some, if◌then◌else◌}
use lightdm.Seat.State.{
  Seat, Outcome, returned, crashed, too_deep, Act, ◌>>=◌, pure, crash, gets, if_null, continue,
}
use lightdm.Seat.Objects.{modify}

abbrev pub Ends : {A : Type 0} → (Seat → Type 0) → Outcome A → Type 0
Ends Q (returned a seat) = Q seat
Ends Q crashed = Unit
Ends Q too_deep = Unit

-- An action that returns in `Q`, if it returns, where it starts in `P`.
pub record Leads {A : Type 0} (P Q : Seat → Type 0) (act : Act A) : Type 0 where
  pub leads : (seat : Seat) → P seat → Ends Q (act seat)

-- An action that keeps `P`.
pub record Keeps {A : Type 0} (P : Seat → Type 0) (act : Act A) : Type 0 where
  pub keeps : (seat : Seat) → P seat → Ends P (act seat)

pub Leads-Keeps : {A : Type 0} {P : Seat → Type 0} {act : Act A} → Keeps P act → Leads P P act
Leads-Keeps k = record { leads = k.keeps }

pub Keeps-Leads : {A : Type 0} {P : Seat → Type 0} {act : Act A} → Leads P P act → Keeps P act
Keeps-Leads k = record { keeps = k.leads }

Ends-continue :
    {A B : Type 0} {Q R : Seat → Type 0} (o : Outcome A) (f : A → Act B)
    → Ends Q o
    → ((a : A) → Leads Q R (f a))
    → Ends R (continue o f)
Ends-continue (returned a seat) f e g = (g a).leads seat e
Ends-continue crashed f e g = tt
Ends-continue too_deep f e g = tt

pub Leads->>= :
    {A B : Type 0} {P Q R : Seat → Type 0} (m : Act A) (f : A → Act B)
    → Leads P Q m
    → ((a : A) → Leads Q R (f a))
    → Leads P R (m >>= f)
unfolding ◌>>=◌
Leads->>= m f h g = record { leads = λ seat p. Ends-continue (m seat) f (h.leads seat p) g }

module _ {A : Type 0} {P : Seat → Type 0} where
  pub Keeps-pure : (a : A) → Keeps P (pure a)
  unfolding pure
  Keeps-pure a = record { keeps = λ seat p. p }

  pub Keeps-crash : Keeps P (crash {A = A})
  unfolding crash
  Keeps-crash = record { keeps = λ seat p. tt }

  pub Keeps-gets : (f : Seat → A) → Keeps P (gets f)
  unfolding gets
  Keeps-gets f = record { keeps = λ seat p. p }

  pub Keeps-if : (b : Bool) (m n : Act A) → Keeps P m → Keeps P n → Keeps P (if b then m else n)
  Keeps-if true m n h k = h
  Keeps-if false m n h k = k

module _ {A B : Type 0} {P : Seat → Type 0} where
  pub Keeps->>= :
      (m : Act A) (f : A → Act B) → Keeps P m → ((a : A) → Keeps P (f a)) → Keeps P (m >>= f)
  Keeps->>= m f h g = Keeps-Leads (Leads->>= m f (Leads-Keeps h) (λ a. Leads-Keeps (g a)))

  pub Keeps-if_null :
      (o : Option A) (m : Act B) (f : A → Act B)
      → Keeps P m
      → ((a : A) → Keeps P (f a))
      → Keeps P (if_null o m f)
  Keeps-if_null none m f h g = h
  Keeps-if_null (some a) m f h g = g a

pub Keeps-modify :
    {P : Seat → Type 0} (f : Seat → Seat)
    → ((seat : Seat) → P seat → P (f seat))
    → Keeps P (modify f)
unfolding modify
Keeps-modify f h = record { keeps = h }

pub ruleset keeps_rules = (Keeps-pure, Keeps-crash, Keeps-gets, Keeps-if, Keeps->>=, Keeps-if_null)
