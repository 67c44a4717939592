-- ===== src/XAuthorityFile/Effects.antt =====
-- What `x_authority_write` of src/x-authority.c does to a file of records.
use lightdm.Base.{
  ℕ, zero, suc, ◌≤◌, ◌≡◌, refl, ap, ◌∙◌, Bool, true, false, List, [], ◌∷◌, ◌++◌, append-nil, All,
  Option, none, some, leb, ==_refl, length, length-append, take, take-all, take-nil, length-drop,
  drop, arith, if◌then◌else◌, if-either, str_eq_refl, Bool-cases, inl, inr,
}
use lightdm.XdmcpServer.State.{XAuthority}
use lightdm.XAuthorityFile.Records.{read_records, write_records}
use lightdm.XAuthorityFile.Write.{
  XAuthWriteMode, mode_replace, mode_remove, matches, with_data, update, existing, overwrite,
  x_authority_write,
}
use lightdm.XAuthorityFile.RoundTrip.{IsPlainRecord, read-written}

-- The first record for the display of `auth`, by family, address and number, and the records of
-- other displays.
unfoldable pub record_for : XAuthority → List XAuthority → Option XAuthority
record_for auth [] = none
record_for auth (a ∷ records) = if matches auth a then some a else record_for auth records

-- What is to stand there: the data of `auth`, under the name that the record had before.
abbrev pub renewed : XAuthority → Option XAuthority → XAuthority
renewed auth none = auth
renewed auth (some a) = record a { authorization_data = auth.authorization_data }

unfoldable pub others : XAuthority → List XAuthority → List XAuthority
others auth [] = []
others auth (a ∷ records) = if matches auth a then others auth records else a ∷ others auth records

matches_self : (auth : XAuthority) → matches auth auth ≡ true
unfolding matches
matches_self auth = rw (==_refl auth.family, str_eq_refl auth.address, str_eq_refl auth.number) refl

matches-with_data : (auth a : XAuthority) → matches auth (with_data auth a) ≡ matches auth a
unfolding matches
matches-with_data auth a = refl

record_for-update :
    (auth : XAuthority) (records : List XAuthority)
    → record_for auth (update mode_replace auth records)
      ≡ some (renewed auth (record_for auth records))
unfolding record_for update
record_for-update auth [] = rw (matches_self auth) refl
record_for-update auth (a ∷ records) = elim (Bool-cases (matches auth a)) [
  | inl e ↦ rw (e, matches-with_data auth a, e) refl
  | inr e ↦ rw (e, e) (record_for-update auth records)
]

others-update :
    (auth : XAuthority) (records : List XAuthority)
    → others auth (update mode_replace auth records) ≡ others auth records
unfolding others update
others-update auth [] = rw (matches_self auth) refl
others-update auth (a ∷ records) = elim (Bool-cases (matches auth a)) [
  | inl e ↦ rw (e, matches-with_data auth a, e) refl
  | inr e ↦ rw (e, e) (ap (◌∷◌ a) (others-update auth records))
]

IsPlainRecord-with_data :
    (auth a : XAuthority) → IsPlainRecord auth → IsPlainRecord a → IsPlainRecord (with_data auth a)
IsPlainRecord-with_data auth a p q = record {
  family_plain = q.family_plain;
  address_plain = q.address_plain;
  number_plain = q.number_plain;
  number_text = q.number_text;
  name_plain = q.name_plain;
  name_text = q.name_text;
  data_plain = p.data_plain;
}

update-IsPlainRecord :
    (auth : XAuthority) (records : List XAuthority)
    → IsPlainRecord auth
    → All IsPlainRecord records
    → All IsPlainRecord (update mode_replace auth records)
unfolding update
update-IsPlainRecord auth [] p h = (p, tt)
update-IsPlainRecord auth (a ∷ records) p (q, h) =
    if-either (All IsPlainRecord) (matches auth a) (IsPlainRecord-with_data auth a p q, h)
      (q, update-IsPlainRecord auth records p h)

drop-nothing : (n : ℕ) (xs : List ℕ) → length xs ≤ n → drop n xs ≡ []
drop-nothing zero [] h = refl
drop-nothing (suc n) [] h = refl
drop-nothing zero (x ∷ xs) h = absurd (omega arith)
drop-nothing (suc n) (x ∷ xs) h = drop-nothing n xs (omega arith)

le→leb : (m n : ℕ) → m ≤ n → leb m n ≡ true
le→leb m n h = ground arith

overwritten :
    (output content : List ℕ) (room : ℕ)
    → length output ≤ room
    → length content ≤ length output
    → ◌≡◌ {A = Option (List ℕ) × Bool}
        (some (overwrite (take room output) (some content)), leb (length output) room)
        (some output, true)
unfolding overwrite
overwritten output content room enough longer =
    rw
      (
        take-all room output enough,
        drop-nothing (length output) content longer,
        append-nil output,
        le→leb (length output) room enough,
      )
      refl

cleared :
    (output content : List ℕ) (room : ℕ)
    → output ≡ []
    → ◌≡◌ {A = Option (List ℕ) × Bool}
        (some (overwrite (take room output) (some content)), leb (length output) room)
        (some content, true)
unfolding overwrite
cleared output content room e = rw (e, take-nil {A = ℕ} room, le→leb 0 room (omega arith)) refl

written_over :
    (output content : List ℕ) → length content ≤ length (output ++ drop (length output) content)
written_over output content = omega (
  arith,
  length-append output (drop (length output) content),
  length-drop (length output) content,
)

update_last :
    (auth a : XAuthority)
    → matches auth a ≡ true
    → write_records (update mode_remove auth (a ∷ [])) ≡ []
unfolding update write_records
update_last auth a e = rw e refl

-- Updating a file of plain records with a plain record, where the file opens, the disk has room and
-- the file does not become shorter: the call succeeds, and the daemon's reader finds in the file, for
-- the display of `auth`, the new data under the authorization name that its first record had before,
-- or the whole of `auth` where there was none; and the records of all other displays as they were, in
-- their order. In a plain record no octet is misread: the family and the lengths have a low octet
-- below 128 and 16 bits, and the texts have no NUL.
pub replace_lem :
    (auth : XAuthority) (records : List XAuthority) (room : ℕ)
    → IsPlainRecord auth
    → All IsPlainRecord records
    → length (write_records (update mode_replace auth records)) ≤ room
    → length (write_records records) ≤ length (write_records (update mode_replace auth records))
    → (output : List ℕ) × (x_authority_write true room auth mode_replace
          (some (write_records records))
        ≡ (some output, true))
      × (record_for auth (read_records (length output) output)
          ≡ some (renewed auth (record_for auth records)))
      × (others auth (read_records (length output) output) ≡ others auth records)
unfolding x_authority_write existing
replace_lem auth records room p h enough longer =
    let output = write_records (update mode_replace auth records) in
    let again =
      read-written (update mode_replace auth records) (update-IsPlainRecord auth records p h) in
    (
      output,
      rw (read-written records h) (overwritten output (write_records records) room enough longer),
      ap (record_for auth) again ∙ record_for-update auth records,
      ap (others auth) again ∙ others-update auth records,
    )

-- The file never becomes shorter, in any mode and whether or not the call succeeds, whatever it
-- removes.
pub never_shrinks :
    (opens : Bool) (room : ℕ) (auth : XAuthority) (mode : XAuthWriteMode) (content : List ℕ)
    → (output : List ℕ) × ((x_authority_write opens room auth mode (some content)).0 ≡ some output)
      × (length content ≤ length output)
unfolding x_authority_write overwrite
never_shrinks true room auth mode content =
    let output = take room (write_records (update mode auth (existing mode (some content)))) in
    (output ++ drop (length output) content, refl, written_over output content)
never_shrinks false room auth mode content = (content, refl, omega arith)

-- Removing the record of a display from a file that has no other record leaves the file as it is, and
-- reports success, where the file opens: the data stay there. The record in the file is plain, so that
-- it is read as it was written, and is for the display that is asked for.
pub remove_last :
    (auth a : XAuthority) (room : ℕ)
    → IsPlainRecord a
    → matches auth a ≡ true
    → x_authority_write true room auth mode_remove (some (write_records (a ∷ [])))
      ≡ (some (write_records (a ∷ [])), true)
unfolding x_authority_write existing
remove_last auth a room p e = rw (read-written (a ∷ []) (p, tt)) (
    cleared (write_records (update mode_remove auth (a ∷ []))) (write_records (a ∷ [])) room
      (update_last auth a e))
