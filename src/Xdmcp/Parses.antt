-- ===== src/Xdmcp/Parses.antt =====
-- When a reader of src/xdmcp-protocol.c reads a value from given octets, and that it runs over on
-- any shorter input.
use mathlib.Core.Path.{subst}
use native.Mathlib.Nat.{zero-add}
use lightdm.Base.{
  add_assoc, ℕ, ◌+◌, ◌-◌, ◌≤◌, ◌<◌, ◌≡◌, refl, sym, ap, Bool, true, inl, inr, List, [], ◌∷◌, ◌++◌,
  append_assoc, append-nil, length, length-append, take, take-append, take-all, arith, ltb,
  Bool-cases, ltb→lt, ltb-false→le,
}
use lightdm.Xdmcp.Reader.{PacketReader, Read, ◌>>=◌, pure, read_card8}

abbrev pub reader : List ℕ → ℕ → Bool → PacketReader
reader rest k o = record { rest = rest; remaining = k; overflow = o }

take_sub : (k n : ℕ) (cs : List ℕ) → k < n → take (k - n) cs ≡ []
take_sub k n cs h = rw (none_left k n h)
  where
    none_left : (i j : ℕ) → i < j → i - j ≡ 0
    none_left i j lt = omega arith

-- An overflow is never forgotten.
pub record Keeps {ℓ} {A : Type ℓ} (m : Read A) : Type 0 where
  pub keeps : (r : PacketReader) → r.overflow ≡ true → (m r).1.overflow ≡ true

-- From octets that begin with `bs` the reader takes just these and returns `a`; from a proper
-- prefix of `bs` it runs over.
pub record Parses {ℓ} {A : Type ℓ} (m : Read A) (a : A) (bs : List ℕ) : Type ℓ where
  pub reads :
      (more : List ℕ) (k : ℕ) (o : Bool)
      → m (reader (bs ++ more) (length bs + k) o) ≡ (a, reader more k o)
  pub starves : (k : ℕ) (o : Bool) → k < length bs → (m (reader (take k bs) k o)).1.overflow ≡ true

pub Keeps-pure {ℓ} : {A : Type ℓ} (a : A) → Keeps (pure a)
Keeps-pure a = record { keeps = λ r h. h }

module _ {ℓ κ} {A : Type ℓ} {B : Type κ} where
  pub Keeps->>= :
      {m : Read A} {f : A → Read B} → Keeps m → ((a : A) → Keeps (f a)) → Keeps (m >>= f)
  Keeps->>= {m} p q = record { keeps = λ r o. (q (m r).0).keeps (m r).1 (p.keeps r o) }

  reads->>= :
      {m : Read A} (f : A → Read B) {a : A} {b : B} {bs cs : List ℕ}
      → Parses m a bs
      → Parses (f a) b cs
      → (more : List ℕ) (k : ℕ) (o : Bool)
      → (m >>= f) (reader ((bs ++ cs) ++ more) (length (bs ++ cs) + k) o) ≡ (b, reader more k o)
  reads->>= {m} f {a} {b} {bs} {cs} p q more k o =
      rw
        (
          append_assoc bs cs more,
          length-append bs cs,
          add_assoc (length bs) (length cs) k,
          p.reads (cs ++ more) (length cs + k) o,
          q.reads more k o,
        )
        refl

  starves->>= :
      {m : Read A} {f : A → Read B} {a : A} {b : B} {bs cs : List ℕ}
      → Parses m a bs
      → Parses (f a) b cs
      → ((x : A) → Keeps (f x))
      → (k : ℕ) (o : Bool) → k < length (bs ++ cs)
      → ((m >>= f) (reader (take k (bs ++ cs)) k o)).1.overflow ≡ true
  starves->>= {m} {f} {a} {b} {bs} {cs} p q keep k o h = elim (Bool-cases (ltb k (length bs))) [
    | inl short ↦
        let lt : k < length bs = ltb→lt k (length bs) short in
        rw (take-append k bs cs, take_sub k (length bs) cs lt, append-nil (take k bs))
          ((keep (m (reader (take k bs) k o)).0).keeps (m (reader (take k bs) k o)).1
            (p.starves k o lt))
    | inr long ↦
        let le : length bs ≤ k = ltb-false→le k (length bs) long in
        let j : ℕ = k - length bs in
        let e : k ≡ length bs + j = omega arith in
        rw (take-append k bs cs, take-all k bs le)
          (subst (λ n. ((m >>= f) (reader (bs ++ take j cs) n o)).1.overflow ≡ true) (sym e)
            (subst (λ (z : A × PacketReader). (f z.0 z.1).1.overflow ≡ true)
              (sym (p.reads (take j cs) j o)) (q.starves j o (omega (arith, length-append bs cs)))))
  ]

  pub Parses->>= :
      {m : Read A} {f : A → Read B} {a : A} {b : B} {bs cs : List ℕ}
      → Parses m a bs
      → ((x : A) → Keeps (f x))
      → Parses (f a) b cs
      → Parses (m >>= f) b (bs ++ cs)
  Parses->>= {f} p keep q = record { reads = reads->>= f p q; starves = starves->>= p q keep }

  -- The last read of a block.
  pub Parses-last :
      {m : Read A} {f : A → Read B} {a : A} {b : B} {bs : List ℕ}
      → Parses m a bs
      → ((x : A) → Keeps (f x))
      → f a ≡ pure b
      → Parses (m >>= f) b bs
  Parses-last {m} {f} {a} {b} {bs} p keep e = record {
    reads = λ more k o. rw (p.reads more k o) (ap (λ g. g (reader more k o)) e);
    starves = λ k o h.
        (keep (m (reader (take k bs) k o)).0).keeps (m (reader (take k bs) k o)).1
          (p.starves k o h);
  }

-- A reader that takes nothing.
pub Parses-pure {ℓ} : {A : Type ℓ} (a : A) → Parses (pure a) a []
Parses-pure a = record { reads = λ more k o. rw zero-add; starves = λ k o h. absurd (omega arith) }

pub Keeps-card8 : Keeps read_card8
unfolding read_card8
Keeps-card8 = record { keeps = λ r o. ground arith }

reads-card8 :
    (n : ℕ) (more : List ℕ) (k : ℕ) (o : Bool)
    → read_card8 (reader (n ∷ more) (1 + k) o) ≡ (n, reader more k o)
unfolding read_card8
reads-card8 n more k o = ground arith

starves-card8 :
    (n k : ℕ) (o : Bool) → k < 1 → (read_card8 (reader (take k (n ∷ [])) k o)).1.overflow ≡ true
unfolding read_card8
starves-card8 n k o h = ground arith

pub Parses-card8 : (n : ℕ) → Parses read_card8 n (n ∷ [])
Parses-card8 n = record { reads = reads-card8 n; starves = starves-card8 n }
