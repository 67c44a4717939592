-- ===== src/Greeter/Framing.antt =====
-- How `read_cb` of src/greeter.c puts messages together from what the channel gives.
use lightdm.Base.{
  ℕ, zero, suc, ◌+◌, ◌≤◌, ◌<◌, ◌≢◌, ◌≡◌, refl, sym, ap, ◌∙◌, true, false, not, ◌&&◌, List, [], ◌∷◌,
  ◌++◌, append_assoc, some, none, length, length-append, length-drop, drop, ltb, leb, ◌==◌, arith,
  if◌then◌else◌, if-false,
}
use lightdm.Greeter.State.{Greeter, World}
use lightdm.Greeter.Reader.{read_int, header_plus, sign_extend, get_message_length}
use lightdm.Greeter.Dispatch.{
  chars, ReadResult, result, octets_to_read, append_chars, received, read_cb, read_message,
  is_refused, handle_message, dispatch, clear_buffer, handled, readable, step,
}

-- The number of octets that a complete message has, by the length in its header: the sum, for a
-- payload of fewer than 2^31 - 8 octets; the header alone, so that the greeter is given up, for the
-- eight highest values; and for every value between them, which the check lets pass, more than
-- 2^63 octets.
pub get_message_length_lem :
    (buffer : List ℕ) (payload_length : ℕ) (rest : List ℕ)
    → read_int (drop 4 buffer) ≡ (payload_length, rest)
    → payload_length < 4294967296
    → (payload_length < 2147483640 → get_message_length buffer ≡ 8 + payload_length)
      × (4294967288 ≤ payload_length → get_message_length buffer ≡ 8)
      × (2147483640 ≤ payload_length
          → payload_length < 4294967288
          → 9223372036854775808 < get_message_length buffer)
unfolding get_message_length header_plus sign_extend
get_message_length_lem buffer p rest e small =
    rw e (λ h. ground arith, λ h. ground arith, λ h h'. ground arith)

drop-append : (n : ℕ) (xs ys : List ℕ) → n ≤ length xs → drop n (xs ++ ys) ≡ drop n xs ++ ys
drop-append zero xs ys h = refl
drop-append (suc n) [] ys h = absurd (omega arith)
drop-append (suc n) (x ∷ xs) ys h = drop-append n xs ys (omega arith)

read_int-append : (xs ys : List ℕ) → 4 ≤ length xs → (read_int (xs ++ ys)).0 ≡ (read_int xs).0
unfolding read_int
read_int-append [] ys h = absurd (omega arith)
read_int-append (a ∷ []) ys h = absurd (omega arith)
read_int-append (a ∷ b ∷ []) ys h = absurd (omega arith)
read_int-append (a ∷ b ∷ c ∷ []) ys h = absurd (omega arith)
read_int-append (a ∷ b ∷ c ∷ d ∷ xs) ys h = refl

-- The header alone tells the length.
message_length-append :
    (b x : List ℕ) → 8 ≤ length b → get_message_length (b ++ x) ≡ get_message_length b
unfolding get_message_length
message_length-append b x h =
    rw
      (
        drop-append 4 b x (omega arith),
        read_int-append (drop 4 b) x (omega (arith, h, length-drop 4 b)),
      )
      refl

-- A complete message.
pub record IsMessage (m : List ℕ) : Type 0 where
  pub has_payload : 8 < length m
  pub right_length : get_message_length m ≡ length m
  pub accepted : is_refused (read_message m) ≡ false

prefix-length : (b x m : List ℕ) → b ++ x ≡ m → length b + length x ≡ length m
prefix-length b x m e = omega (arith, length-append b x, ap length e)

pub prefix-message_length :
    (m b x : List ℕ) → IsMessage m → b ++ x ≡ m → 8 ≤ length b → get_message_length b ≡ length m
prefix-message_length m b x message e h =
    sym (message_length-append b x h) ∙ ap get_message_length e ∙ message.right_length

asked_branch :
    (k g n : ℕ)
    → 8 < n
    → (8 ≤ k → g ≡ n)
    → (if leb 8 k then (if leb g 8 then none else some g) else some 8)
      ≡ some (if leb 8 k then n else 8)
asked_branch k g n h e = ground arith

-- What `read_cb` asks for on the way.
octets_to_read_lem :
    (m b x : List ℕ)
    → IsMessage m
    → b ++ x ≡ m
    → octets_to_read b ≡ some (if leb 8 (length b) then length m else 8)
unfolding octets_to_read
octets_to_read_lem m b x message e =
    asked_branch (length b) (get_message_length b) (length m) message.has_payload
      (prefix-message_length m b x message e)

module _ {ℓ} {A : Type ℓ} (k n g : ℕ) (kept_on done : A) where
  branch_kept :
      (k ≡ n → (k ≡ 8) × (8 < g))
      → (if not (k == n) then kept_on else if k == 8 && ltb 8 g then kept_on else done) ≡ kept_on
  branch_kept h = ground arith

  branch_done :
      k ≡ n
      → k ≢ 8
      → (if not (k == n) then kept_on else if k == 8 && ltb 8 g then kept_on else done) ≡ done
  branch_done e h = ground arith

asked_for : (k l n : ℕ) → (k < 8 → l ≤ 8) → l < n → l ≡ (if leb 8 k then n else 8) → (l ≡ 8)
asked_for k l n asked h e = ground arith

-- The next octets do not complete the message: they are kept.
pub kept :
    (world : World) (m c x : List ℕ) (greeter : Greeter)
    → IsMessage m
    → (greeter.read_buffer ++ c) ++ x ≡ m
    → 0 < length x
    → (length greeter.read_buffer < 8 → length (greeter.read_buffer ++ c) ≤ 8)
    → step world (readable (chars c ∷ [])) greeter ≡ (append_chars c greeter, [])
unfolding step read_cb received append_chars
kept world m c x greeter message e more asked =
    let b = greeter.read_buffer in
    let left : b ++ (c ++ x) ≡ m = sym (append_assoc b c x) ∙ e in
    let n = if leb 8 (length b) then length m else 8 in
    rw (octets_to_read_lem m b (c ++ x) message left) (
      ap (λ (r : ReadResult). (r.greeter, r.outputs))
        (branch_kept (length (b ++ c)) n (get_message_length (b ++ c))
          (result (append_chars c greeter) [] true) (dispatch world (append_chars c greeter))
          (λ q.
            let eight =
              asked_for (length b) (length (b ++ c)) (length m) asked
                (omega (arith, more, prefix-length (b ++ c) x m e)) q in
            (
              eight,
              rw (prefix-message_length m (b ++ c) x message e (omega (arith, eight)))
                  message.has_payload,
            ))))

dispatch_lem :
    (world : World) (m : List ℕ) (greeter : Greeter)
    → is_refused (read_message m) ≡ false
    → greeter.read_buffer ≡ m
    → dispatch world greeter ≡ handled (handle_message world (read_message m) greeter)
unfolding dispatch
dispatch_lem world m greeter accepted e =
    ap
      (λ b.
        if is_refused (read_message b)
        then result greeter [] false
        else handled (handle_message world (read_message b) greeter))
      e
    ∙ if-false (is_refused (read_message m)) _ _ accepted

all_asked : (k l n : ℕ) → (k < 8 → l ≤ 8) → l ≡ n → 8 < n → l ≡ (if leb 8 k then n else 8)
all_asked k l n asked e h = ground arith

-- The last octets complete it: it is handled, and the buffer is empty again.
pub complete :
    (world : World) (m c : List ℕ) (greeter : Greeter)
    → IsMessage m
    → greeter.read_buffer ++ c ≡ m
    → (length greeter.read_buffer < 8 → length (greeter.read_buffer ++ c) ≤ 8)
    → step world (readable (chars c ∷ [])) greeter ≡ (
        let (greeter', outputs) = handle_message world (read_message m) (append_chars c greeter) in
        (clear_buffer greeter', outputs))
unfolding step read_cb received append_chars
complete world m c greeter message e asked =
    let b = greeter.read_buffer in
    let whole = ap length e in
    let n = if leb 8 (length b) then length m else 8 in
    rw (octets_to_read_lem m b c message e) (
      ap (λ (r : ReadResult). (r.greeter, r.outputs))
        (branch_done (length (b ++ c)) n (get_message_length (b ++ c))
            (result (append_chars c greeter) [] true) (dispatch world (append_chars c greeter))
            (all_asked (length b) (length (b ++ c)) (length m) asked whole message.has_payload)
            (λ q. omega (arith, q, whole, message.has_payload))
          ∙ dispatch_lem world m (append_chars c greeter) message.accepted e))
