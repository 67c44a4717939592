-- ===== src/XAuthorityFile/Write.antt =====
-- `x_authority_write` of src/x-authority.c.
use lightdm.Base.{
  ℕ, Bool, false, List, [], ◌∷◌, ◌++◌, Option, none, some, ◌&&◌, ◌==◌, leb, length, take, drop,
  if◌then◌else◌, str_eq,
}
use lightdm.XdmcpServer.State.{XAuthority}
use lightdm.XAuthorityFile.Records.{read_records, write_records}

-- `XAuthWriteMode`.
pub data XAuthWriteMode : Type 0 where
  mode_replace : XAuthWriteMode
  mode_remove : XAuthWriteMode
  mode_set : XAuthWriteMode

-- The addresses are compared octet by octet, when they are of one length.
unfoldable pub matches : XAuthority → XAuthority → Bool
matches auth a =
    auth.family == a.family && str_eq auth.address a.address && str_eq auth.number a.number

abbrev pub with_data : XAuthority → XAuthority → XAuthority
with_data auth a = record a { authorization_data = auth.authorization_data }

-- What the loop makes of the records: the first that matches is updated or left out. Without a match
-- the record is added at the end, in every mode.
unfoldable pub update : XAuthWriteMode → XAuthority → List XAuthority → List XAuthority
update mode auth [] = auth ∷ []
update mode_remove auth (a ∷ records) =
    let rest = update mode_remove auth records in if matches auth a then records else a ∷ rest
update mode_replace auth (a ∷ records) =
    let rest = update mode_replace auth records in
    if matches auth a then with_data auth a ∷ records else a ∷ rest
update mode_set auth (a ∷ records) =
    let rest = update mode_set auth records in
    if matches auth a then with_data auth a ∷ records else a ∷ rest

-- The content of a file, if there is one that can be read. In mode SET it is not read.
unfoldable pub existing : XAuthWriteMode → Option (List ℕ) → List XAuthority
existing mode_set content = []
existing mode_replace none = []
existing mode_replace (some input) = read_records (length input) input
existing mode_remove none = []
existing mode_remove (some input) = read_records (length input) input

abbrev pub octets_of : Option (List ℕ) → List ℕ
octets_of none = []
octets_of (some content) = content

-- The file is opened without O_TRUNC, so what stands behind the octets that are written stays.
unfoldable pub overwrite : List ℕ → Option (List ℕ) → List ℕ
overwrite output content = output ++ drop (length output) (octets_of content)

-- The file and the result. `opens` tells whether `g_open` succeeds, `room` how many octets can be
-- written before `write` fails.
unfoldable pub x_authority_write :
    Bool → ℕ → XAuthority → XAuthWriteMode → Option (List ℕ) → Option (List ℕ) × Bool
x_authority_write opens room auth mode content =
    let output = write_records (update mode auth (existing mode content)) in
    if opens
    then (some (overwrite (take room output) content), leb (length output) room)
    else (content, false)
