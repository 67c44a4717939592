-- ===== src/SessionChild/Fields.antt =====
-- What the readers of src/session-child.c make of what the writers of src/session.c wrote.
use lightdm.Base.{
  ℕ, zero, suc, ◌/◌, ◌<◌, ◌≢◌, ◌≡◌, refl, sym, ap, ap₂, ◌∙◌, List, [], ◌∷◌, ◌++◌, append_assoc,
  Option, none, some, leb, ltb, length, length-append, All, arith, if-false, le→ltb-false,
}
use lightdm.Greeter.Fields.{take_prefix, drop_prefix, c_string-text}
use lightdm.Session.Authentication.{
  Str, SessionOutput, wrote_number, wrote_size, wrote_short, wrote_data, wrote_string, killed,
  terminated_login1, signalled_stopped,
}
use lightdm.XAuthorityFile.Records.{Read, ◌>>=◌, pure}
use lightdm.SessionChild.Pipe.{number_octets, string_octets, pipe_octets}
use lightdm.SessionChild.Reader.{octets_value, read_octets, read_number, read_line, pipe_string}

-- A number of `size` octets.
abbrev pub Fits : ℕ → ℕ → Type 0
Fits zero value = value ≡ 0
Fits (suc size) value = Fits size (value / 256)

octets_value-number_octets :
    (size value : ℕ) → Fits size value → octets_value (number_octets size value) ≡ value
unfolding octets_value number_octets
octets_value-number_octets zero value h = cc
octets_value-number_octets (suc size) value h =
    omega (arith, octets_value-number_octets size (value / 256) h)

length-number_octets : (size value : ℕ) → length (number_octets size value) ≡ size
unfolding number_octets
length-number_octets zero value = refl
length-number_octets (suc size) value = omega (arith, length-number_octets size (value / 256))

-- As many octets as asked for are read.
pub read_octets-append :
    (octets rest : List ℕ) → read_octets (length octets) (octets ++ rest) ≡ some (octets, rest)
unfolding read_octets
read_octets-append octets rest =
    if-false (ltb (length (octets ++ rest)) (length octets)) _ _
      (le→ltb-false _ _ (omega (arith, length-append octets rest)))
    ∙ ap some (
        ap₂ {C = List ℕ × List ℕ} (λ a b. (a, b)) (take_prefix octets rest)
          (drop_prefix octets rest))

read_length :
    (n : ℕ) (octets rest : List ℕ)
    → length octets ≡ n
    → read_octets n (octets ++ rest) ≡ some (octets, rest)
read_length n octets rest e = rw (sym e) (read_octets-append octets rest)

pub read_number-octets :
    (size value : ℕ) (rest : List ℕ)
    → Fits size value
    → read_number size (number_octets size value ++ rest) ≡ some (value, rest)
unfolding read_number
read_number-octets size value rest h = rw (
  read_length size (number_octets size value) rest (length-number_octets size value),
  octets_value-number_octets size value h,
)

-- A text that the pipe can carry.
abbrev pub IsLine : Str → Type 0
IsLine text = All (λ c. c ≢ 0) text × (length text < 65536)

abbrev pub IsLineOrNull : Option Str → Type 0
IsLineOrNull none = Unit
IsLineOrNull (some text) = IsLine text

read_line-append :
    (text rest : List ℕ)
    → IsLine text
    → read_line (length text) (text ++ rest) ≡ some (some text, rest)
unfolding read_line
read_line-append text rest (h, short) =
    if-false (leb 2147483648 (length text)) _ _ (ground arith)
    ∙ (if-false (ltb 65535 (length text)) _ _ (le→ltb-false _ _ (omega (arith, short)))
        ∙ rw (read_octets-append text rest, c_string-text text h) refl)

pub pipe_string-octets :
    (value : Option Str) (rest : List ℕ)
    → IsLineOrNull value
    → pipe_string (string_octets value ++ rest) ≡ some (value, rest)
unfolding pipe_string string_octets number_octets read_line
pipe_string-octets none rest h = rw (read_number-octets 4 4294967295 rest (omega arith))
pipe_string-octets (some text) rest (h, short) =
    rw
      (
        append_assoc (number_octets 4 (length text)) text rest,
        read_number-octets 4 (length text) (text ++ rest) (omega (arith, short)),
      )
      (read_line-append text rest (h, short))

further :
    (front : List ℕ) (xs ys : List SessionOutput)
    → pipe_octets (xs ++ ys) ≡ pipe_octets xs ++ pipe_octets ys
    → front ++ pipe_octets (xs ++ ys) ≡ (front ++ pipe_octets xs) ++ pipe_octets ys
further front xs ys e =
    ap (λ bs. front ++ bs) e ∙ sym (append_assoc front (pipe_octets xs) (pipe_octets ys))

pub pipe_octets-append :
    (xs ys : List SessionOutput) → pipe_octets (xs ++ ys) ≡ pipe_octets xs ++ pipe_octets ys
unfolding pipe_octets
pipe_octets-append [] ys = refl
pipe_octets-append (wrote_number value ∷ xs) ys =
    further (number_octets 4 value) xs ys (pipe_octets-append xs ys)
pipe_octets-append (wrote_size value ∷ xs) ys =
    further (number_octets 8 value) xs ys (pipe_octets-append xs ys)
pipe_octets-append (wrote_short value ∷ xs) ys =
    further (number_octets 2 value) xs ys (pipe_octets-append xs ys)
pipe_octets-append (wrote_data octets ∷ xs) ys = further octets xs ys (pipe_octets-append xs ys)
pipe_octets-append (wrote_string value ∷ xs) ys =
    further (string_octets value) xs ys (pipe_octets-append xs ys)
pipe_octets-append (killed pid ∷ xs) ys = pipe_octets-append xs ys
pipe_octets-append (terminated_login1 id ∷ xs) ys = pipe_octets-append xs ys
pipe_octets-append (signalled_stopped ∷ xs) ys = pipe_octets-append xs ys

-- A chain of reads makes `value` of the outputs of a session, and leaves what stands behind them.
pub record Reads {ℓ} {A : Type ℓ} (outputs : List SessionOutput) (read : Read A) (value : A)
    : Type ℓ where
  pub reads : (rest : List ℕ) → read (pipe_octets outputs ++ rest) ≡ some (value, rest)

module _ {ℓ κ} {A : Type ℓ} {B : Type κ} where
  pub Reads-front :
      {o : SessionOutput} {outputs : List SessionOutput} {a : A} {b : B} (front : List ℕ)
      (m : Read A) (f : A → Read B)
      → (whole : pipe_octets (o ∷ outputs) ≡ front ++ pipe_octets outputs)
      → ((rest : List ℕ) → m (front ++ rest) ≡ some (a, rest))
      → Reads outputs (f a) b
      → Reads (o ∷ outputs) (m >>= f) b
  Reads-front {o} {outputs} {a} {b} front m f whole h k = record {
    reads = λ rest.
        rw (whole, append_assoc front (pipe_octets outputs) rest, h (pipe_octets outputs ++ rest))
          (k.reads rest);
  }

module _ {ℓ} {B : Type ℓ} where
  pub Reads-number :
      {outputs : List SessionOutput} {b : B} (f : ℕ → Read B) (value : ℕ)
      → Fits 4 value
      → Reads outputs (f value) b
      → Reads (wrote_number value ∷ outputs) (read_number 4 >>= f) b
  unfolding pipe_octets
  Reads-number f value h =
      Reads-front (number_octets 4 value) (read_number 4) f refl
        (λ rest. read_number-octets 4 value rest h)

  pub Reads-size :
      {outputs : List SessionOutput} {b : B} (f : ℕ → Read B) (value : ℕ)
      → Fits 8 value
      → Reads outputs (f value) b
      → Reads (wrote_size value ∷ outputs) (read_number 8 >>= f) b
  unfolding pipe_octets
  Reads-size f value h =
      Reads-front (number_octets 8 value) (read_number 8) f refl
        (λ rest. read_number-octets 8 value rest h)

  pub Reads-short :
      {outputs : List SessionOutput} {b : B} (f : ℕ → Read B) (value : ℕ)
      → Fits 2 value
      → Reads outputs (f value) b
      → Reads (wrote_short value ∷ outputs) (read_number 2 >>= f) b
  unfolding pipe_octets
  Reads-short f value h =
      Reads-front (number_octets 2 value) (read_number 2) f refl
        (λ rest. read_number-octets 2 value rest h)

  pub Reads-data :
      {outputs : List SessionOutput} {b : B} (f : List ℕ → Read B) (octets : List ℕ)
      → Reads outputs (f octets) b
      → Reads (wrote_data octets ∷ outputs) (read_octets (length octets) >>= f) b
  unfolding pipe_octets
  Reads-data f octets =
      Reads-front octets (read_octets (length octets)) f refl (read_octets-append octets)

  pub Reads-string :
      {outputs : List SessionOutput} {b : B} (f : Option Str → Read B) (value : Option Str)
      → IsLineOrNull value
      → Reads outputs (f value) b
      → Reads (wrote_string value ∷ outputs) (pipe_string >>= f) b
  unfolding pipe_octets
  Reads-string f value h =
      Reads-front (string_octets value) pipe_string f refl (λ rest. pipe_string-octets value rest h)

  pub Reads-pure : (b : B) → Reads [] (pure b) b
  unfolding pipe_octets
  Reads-pure b = record { reads = λ rest. refl }

  pub Reads->>= {κ} :
      {A : Type κ} {xs ys : List SessionOutput} {a : A} {b : B} (m : Read A) (f : A → Read B)
      → Reads xs m a
      → Reads ys (f a) b
      → Reads (xs ++ ys) (m >>= f) b
  Reads->>= {xs = xs} {ys = ys} m f h k = record {
    reads = λ rest.
        rw
          (
            pipe_octets-append xs ys,
            append_assoc (pipe_octets xs) (pipe_octets ys) rest,
            h.reads (pipe_octets ys ++ rest),
          )
          (k.reads rest);
  }

  pub Reads-last {κ} :
      {A : Type κ} {xs : List SessionOutput} {a : A} (m : Read A) (g : A → B)
      → Reads xs m a
      → Reads xs (m >>= λ a. pure (g a)) (g a)
  Reads-last m g h = record { reads = λ rest. rw (h.reads rest) }
