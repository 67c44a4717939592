-- ===== src/XAuthorityFile/Tests.antt =====
-- Runs of src/x-authority.c.
use lightdm.Base.{
  ℕ, zero, suc, ◌≤◌, ◌<◌, ◌≡◌, refl, Bool, true, false, List, [], ◌∷◌, some, length, codes, arith,
  str_eq,
}
use lightdm.XdmcpServer.State.{XAuthority, mit_magic_cookie}
use lightdm.XAuthorityFile.Records.{
  read_uint16, read_records, write_records, write_record, write_string, write_uint16,
}
use lightdm.XAuthorityFile.Write.{mode_replace, mode_remove, matches, update, x_authority_write}
use lightdm.XAuthorityFile.RoundTrip.{IsPlain, IsPlainRecord, IsText, read-write_records}
use lightdm.XAuthorityFile.Termination.{read_records_ends}
use lightdm.XAuthorityFile.Effects.{
  record_for, renewed, others, replace_lem, never_shrinks, remove_last,
}

abbrev old : XAuthority
old = record {
  family = 256;
  address = codes "host";
  number = codes "0";
  authorization_name = mit_magic_cookie;
  authorization_data = 1 ∷ 2 ∷ 3 ∷ [];
}

abbrev new : XAuthority
new = record old { authorization_data = 4 ∷ 5 ∷ 6 ∷ [] }

abbrev elsewhere : XAuthority
elsewhere = record old { number = codes "1" }

abbrev no_zero : List ℕ → Bool
no_zero [] = true
no_zero (zero ∷ cs) = false
no_zero (suc c ∷ cs) = no_zero cs

IsText-no_zero : (text : List ℕ) → no_zero text ≡ true → IsText text
IsText-no_zero [] h = tt
IsText-no_zero (zero ∷ cs) h = cc
IsText-no_zero (suc c ∷ cs) h = (λ e. absurd (omega (arith, e)), IsText-no_zero cs h)

plain_with :
    (number octets : List ℕ)
    → IsPlain (length number)
    → no_zero number ≡ true
    → IsPlain (length octets)
    → IsPlainRecord (record old { number = number; authorization_data = octets })
plain_with number octets short ok short_data = record {
  family_plain = (omega arith, omega arith);
  address_plain = (omega arith, omega arith);
  number_plain = short;
  number_text = IsText-no_zero number ok;
  name_plain = (omega arith, omega arith);
  name_text = IsText-no_zero mit_magic_cookie refl;
  data_plain = short_data;
}

small : (n : ℕ) → n < 128 → IsPlain n
small n h = (omega arith, omega arith)

plain_old : IsPlainRecord old
plain_old =
    plain_with (codes "0") (1 ∷ 2 ∷ 3 ∷ []) (small 1 (omega arith)) refl (small 3 (omega arith))

plain_new : IsPlainRecord new
plain_new =
    plain_with (codes "0") (4 ∷ 5 ∷ 6 ∷ []) (small 1 (omega arith)) refl (small 3 (omega arith))

plain_elsewhere : IsPlainRecord elsewhere
plain_elsewhere =
    plain_with (codes "1") (1 ∷ 2 ∷ 3 ∷ []) (small 1 (omega arith)) refl (small 3 (omega arith))

-- A length from 128 to 255 is read wrong.
misread : read_uint16 (write_uint16 200) ≡ some (65480, [])
unfolding read_uint16 write_uint16
misread = refl

read-write_records_example :
    read_records 3 (write_records (old ∷ elsewhere ∷ [])) ≡ old ∷ elsewhere ∷ []
read-write_records_example =
    read-write_records (old ∷ elsewhere ∷ []) 3 (plain_old, (plain_elsewhere, tt)) (omega arith)

replace_lem_example :
    (output : List ℕ) × (x_authority_write true 1000 new mode_replace
        (some (write_records (old ∷ elsewhere ∷ [])))
      ≡ (some output, true))
    × (record_for new (read_records (length output) output)
        ≡ some (renewed new (record_for new (old ∷ elsewhere ∷ []))))
    × (others new (read_records (length output) output) ≡ others new (old ∷ elsewhere ∷ []))
unfolding update matches write_records write_record write_string write_uint16 str_eq
replace_lem_example =
    replace_lem new (old ∷ elsewhere ∷ []) 1000 plain_new (plain_old, (plain_elsewhere, tt))
      (omega arith) (omega arith)

never_shrinks_example :
    (output : List ℕ) × ((x_authority_write true 1000 new mode_remove (some (7 ∷ 8 ∷ []))).0
      ≡ some output)
    × (2 ≤ length output)
never_shrinks_example = never_shrinks true 1000 new mode_remove (7 ∷ 8 ∷ [])

remove_last_example :
    x_authority_write true 1000 new mode_remove (some (write_records (old ∷ [])))
    ≡ (some (write_records (old ∷ [])), true)
unfolding matches str_eq
remove_last_example = remove_last new old 1000 plain_old refl

read_records_ends_example : read_records 9 (0 ∷ 1 ∷ 0 ∷ []) ≡ read_records 3 (0 ∷ 1 ∷ 0 ∷ [])
read_records_ends_example = read_records_ends (0 ∷ 1 ∷ 0 ∷ []) 9 (omega arith)
