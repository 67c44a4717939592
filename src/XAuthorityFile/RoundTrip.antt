-- ===== src/XAuthorityFile/RoundTrip.antt =====
-- Reading back the records of an authority file (src/x-authority.c).
use lightdm.Base.{
  ℕ, zero, suc, ◌+◌, ◌*◌, ◌%◌, ◌/◌, ◌≤◌, ◌<◌, ◌≡◌, ◌≢◌, refl, ap, subst, if-true, lt→ltb, ◌∙◌, List,
  [], ◌∷◌, ◌++◌, append_assoc, All, some, ltb, length, length-append, take, drop, arith,
  if◌then◌else◌, ne→==-false,
}
use lightdm.Xdmcp.Packet.{Str}
use lightdm.Xdmcp.Reader.{c_string}
use lightdm.XdmcpServer.State.{XAuthority}
use lightdm.XAuthorityFile.Records.{
  Read, ◌>>=◌, pure, read_uint16, read_data, read_string, read_record, read_records, write_uint16,
  write_string, write_record, write_records,
}

-- A number that `read_uint16` reads as it was written: one whose low octet is below 128.
abbrev pub IsPlain : ℕ → Type 0
IsPlain n = (n < 65536) × (n % 256 < 128)

-- A text without a terminator in it.
abbrev pub IsText : List ℕ → Type 0
IsText text = All (λ c. c ≢ 0) text

-- A record whose numbers are plain and whose texts are texts.
pub record IsPlainRecord (a : XAuthority) : Type 0 where
  pub family_plain : IsPlain a.family
  pub address_plain : IsPlain (length a.address)
  pub number_plain : IsPlain (length a.number)
  pub number_text : IsText a.number
  pub name_plain : IsPlain (length a.authorization_name)
  pub name_text : IsText a.authorization_name
  pub data_plain : IsPlain (length a.authorization_data)

-- The reader takes `bs` for `a`, and nothing more.
record Reads {A : Type 0} (read : Read A) (bs : List ℕ) (a : A) : Type 0 where
  reads : (rest : List ℕ) → read (bs ++ rest) ≡ some (a, rest)

Reads->>= :
    {A B : Type 0} {m : Read A} (f : A → Read B) {bs cs : List ℕ} {a : A} {b : B}
    → Reads m bs a
    → Reads (f a) cs b
    → Reads (m >>= f) (bs ++ cs) b
Reads->>= f {bs} {cs} p q = record {
  reads = λ rest. rw (append_assoc bs cs rest, p.reads (cs ++ rest)) (q.reads rest);
}

Reads-map :
    {A B : Type 0} {m : Read A} (g : A → B) {bs : List ℕ} {a : A}
    → Reads m bs a
    → Reads (m >>= λ x. pure (g x)) bs (g a)
Reads-map g p = record { reads = λ rest. rw (p.reads rest) refl }

uint16_value :
    (n : ℕ)
    → IsPlain n
    → (if ltb (n % 256) 128 then n % 65536 / 256 * 256 + n % 256 else 65280 + n % 256) ≡ n
uint16_value n (small, plain) =
    if-true (ltb (n % 256) 128) _ _ (lt→ltb (n % 256) 128 plain) ∙ whole n small
  where
    whole : (k : ℕ) → k < 65536 → k % 65536 / 256 * 256 + k % 256 ≡ k
    whole k h = omega arith

Reads-uint16 : (n : ℕ) → IsPlain n → Reads read_uint16 (write_uint16 n) n
unfolding read_uint16 write_uint16
Reads-uint16 n plain = record { reads = λ rest. ap (λ v. some (v, rest)) (uint16_value n plain) }

take-length_append : (xs ys : List ℕ) → take (length xs) (xs ++ ys) ≡ xs
take-length_append [] ys = refl
take-length_append (x ∷ xs) ys = ap (◌∷◌ x) (take-length_append xs ys)

drop-length_append : (xs ys : List ℕ) → drop (length xs) (xs ++ ys) ≡ ys
drop-length_append [] ys = refl
drop-length_append (x ∷ xs) ys = drop-length_append xs ys

Reads-data : (xs : List ℕ) → Reads (read_data (length xs)) xs xs
unfolding read_data
Reads-data xs = record {
  reads = λ rest.
      ground (arith, take-length_append xs rest, drop-length_append xs rest, length-append xs rest);
}

c_string_text : (text : List ℕ) → IsText text → c_string text ≡ text
unfolding c_string
c_string_text [] h = refl
c_string_text (c ∷ text) (nonzero, h) =
    rw (ne→==-false c 0 nonzero) (ap (◌∷◌ c) (c_string_text text h))

Reads-text :
    (text : Str)
    → IsText text
    → Reads (read_data (length text) >>= λ x. pure (c_string x)) text text
Reads-text text ok =
    subst (Reads (read_data (length text) >>= λ x. pure (c_string x)) text) (c_string_text text ok)
      (Reads-map c_string (Reads-data text))

Reads-string :
    (text : Str) → IsPlain (length text) → IsText text → Reads read_string (write_string text) text
unfolding read_string write_string
Reads-string text plain ok = Reads->>= _ (Reads-uint16 (length text) plain) (Reads-text text ok)

Reads-record : (a : XAuthority) → IsPlainRecord a → Reads read_record (write_record a) a
unfolding read_record write_record
Reads-record a p = Reads->>= _ (Reads-uint16 a.family p.family_plain) (
    Reads->>= _ (Reads-uint16 (length a.address) p.address_plain) (
      Reads->>= _ (Reads-data a.address) (
        Reads->>= _ (Reads-string a.number p.number_plain p.number_text) (
          Reads->>= _ (Reads-string a.authorization_name p.name_plain p.name_text) (
            Reads->>= _ (Reads-uint16 (length a.authorization_data) p.data_plain)
              (Reads-map _ (Reads-data a.authorization_data)))))))

length-write_record : (a : XAuthority) → 1 < length (write_record a)
unfolding write_record write_uint16
length-write_record a = omega arith

pub read_more :
    (fuel : ℕ) (a : XAuthority) (bs rest : List ℕ)
    → 0 < length bs
    → read_record bs ≡ some (a, rest)
    → read_records (suc fuel) bs ≡ a ∷ read_records fuel rest
unfolding read_records
read_more fuel a [] rest h e = absurd (omega arith)
read_more fuel a (b ∷ bs) rest h e = rw (e, read_records) refl

-- The records that are written are read back, all of them and in order, whatever the fuel above
-- their number; they are plain: texts have no terminator in them, and the low octet of the family and
-- of every length is below 128.
pub read-write_records :
    (records : List XAuthority) (fuel : ℕ)
    → All IsPlainRecord records
    → length records < fuel
    → read_records fuel (write_records records) ≡ records
unfolding read_records write_records
read-write_records records zero h enough = absurd (omega arith)
read-write_records [] (suc fuel) h enough = refl
read-write_records (a ∷ records) (suc fuel) (plain, h) enough =
    let r = Reads-record a plain in
    read_more fuel a (write_record a ++ write_records records) (write_records records)
      (omega (arith, length-write_record a, length-append (write_record a) (write_records records)))
      (r.reads (write_records records))
    ∙ ap (◌∷◌ a) (read-write_records records fuel h (omega arith))

count : (records : List XAuthority) → length records ≤ length (write_records records)
unfolding write_records
count [] = omega arith
count (a ∷ records) = omega (
  arith,
  count records,
  length-write_record a,
  length-append (write_record a) (write_records records),
)

-- The same with the length of the file as fuel.
pub read-written :
    (records : List XAuthority)
    → All IsPlainRecord records
    → read_records (length (write_records records)) (write_records records) ≡ records
unfolding read_records write_records
read-written [] h = refl
read-written (a ∷ records) h =
    let bs = write_record a ++ write_records records in
    elim (length bs) as (λ n. length bs ≡ n → read_records n bs ≡ a ∷ records) [
      | zero ↦ λ e. absurd (
          omega (
            arith,
            e,
            length-write_record a,
            length-append (write_record a) (write_records records),
          ))
      | suc n ↦ λ e. read-write_records (a ∷ records) (suc n) h (
          omega (
            arith,
            e,
            count records,
            length-write_record a,
            length-append (write_record a) (write_records records),
          ))
    ]
      refl
