-- ===== src/Greeter/Fuel.antt =====
-- The recursion of `read_cb` in src/greeter.c is one call deep.
use lightdm.Base.{
  ℕ, suc, ◌<◌, ◌≡◌, refl, ap, Bool, true, false, not, ◌&&◌, List, [], ◌∷◌, ◌++◌, Option, none, some,
  length, ltb, leb, ◌==◌, arith, if◌then◌else◌,
}
use lightdm.Greeter.State.{Greeter, World}
use lightdm.Greeter.Reader.{get_message_length}
use lightdm.Greeter.Dispatch.{
  ReadChars, chars, eof, not_normal, ReadResult, result, octets_to_read, with_length, append_chars,
  received, go_on, read_cb, dispatch,
}

-- A complete header, of a message with a payload.
abbrev pub IsHeader : List ℕ → Type 0
IsHeader b = (length b ≡ 8) × (8 < get_message_length b)

asked_header :
    (k g : ℕ)
    → k ≡ 8
    → 8 < g
    → (if leb 8 k then (if leb g 8 then none else some g) else some 8) ≡ some g
asked_header k g e h = ground arith

module _ {A : Type 0} (k n g : ℕ) (x y z d : A) where
  -- Where more than a header is asked for, the recursive call does not matter.
  no_second :
      8 < n
      → (if not (k == n) then x else if k == 8 && ltb 8 g then y else d)
        ≡ (if not (k == n) then x else if k == 8 && ltb 8 g then z else d)
  no_second h = ground arith

pub only_header :
    {A : Type 0} (b c : Bool) (x y z d : A)
    → (c ≡ true → y ≡ z)
    → (if b then x else if c then y else d) ≡ (if b then x else if c then z else d)
only_header true c x y z d h = refl
only_header false true x y z d h = h refl
only_header false false x y z d h = refl

full_header : (k g : ℕ) → (k == 8 && ltb 8 g) ≡ true → (k ≡ 8) × (8 < g)
full_header k g h = ground arith

pub inner_fuel :
    (fuel : ℕ) (world : World) (reads : List ReadChars) (greeter : Greeter)
    → IsHeader greeter.read_buffer
    → read_cb (suc fuel) world reads greeter ≡ read_cb 1 world reads greeter
unfolding read_cb octets_to_read received append_chars
inner_fuel fuel world [] greeter h = refl
inner_fuel fuel world (eof ∷ reads) greeter h = refl
inner_fuel fuel world (not_normal ∷ reads) greeter h = refl
inner_fuel fuel world (chars octets ∷ reads) greeter (full, long) =
    let b = greeter.read_buffer in
    rw (asked_header (length b) (get_message_length b) full long) (
      no_second (length (b ++ octets)) (get_message_length b) (get_message_length (b ++ octets))
        (result (append_chars octets greeter) [] true)
        (go_on (read_cb fuel world reads (append_chars octets greeter)))
        (go_on (result (append_chars octets greeter) [] true))
        (dispatch world (append_chars octets greeter)) long)

received_fuel :
    (fuel n : ℕ) (world : World) (reads : List ReadChars) (greeter : Greeter)
    → received world (read_cb (suc fuel) world reads) n greeter
      ≡ received world (read_cb 1 world reads) n greeter
unfolding received
received_fuel fuel n world reads greeter =
    let k = length greeter.read_buffer in
    let g = get_message_length greeter.read_buffer in
    only_header (not (k == n)) (k == 8 && ltb 8 g) (result greeter [] true)
      (go_on (read_cb (suc fuel) world reads greeter)) (go_on (read_cb 1 world reads greeter))
      (dispatch world greeter)
      (λ e. ap go_on (inner_fuel fuel world reads greeter (full_header k g e)))

pub with_same :
    (greeter : Greeter) (o : Option ℕ) (f g : ℕ → ReadResult)
    → ((n : ℕ) → f n ≡ g n)
    → with_length greeter o f ≡ with_length greeter o g
with_same greeter none f g h = refl
with_same greeter (some n) f g h = h n

-- The recursion is one call deep: from two on, the fuel makes no difference, whatever the reads give.
pub read_cb_ends :
    (fuel : ℕ) (world : World) (reads : List ReadChars) (greeter : Greeter)
    → read_cb (suc (suc fuel)) world reads greeter ≡ read_cb 2 world reads greeter
unfolding read_cb
read_cb_ends fuel world [] greeter = refl
read_cb_ends fuel world (eof ∷ reads) greeter = refl
read_cb_ends fuel world (not_normal ∷ reads) greeter = refl
read_cb_ends fuel world (chars octets ∷ reads) greeter =
    with_same greeter (octets_to_read greeter.read_buffer) _ _
      (λ n. received_fuel fuel n world reads (append_chars octets greeter))
