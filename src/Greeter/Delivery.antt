-- ===== src/Greeter/Delivery.antt =====
-- The handling of a message that comes in pieces (src/greeter.c).
use lightdm.Base.{
  ℕ, ◌≤◌, ◌<◌, ◌≡◌, refl, sym, ap, ◌∙◌, true, false, not, ◌&&◌, List, [], ◌∷◌, ◌++◌, map,
  append_assoc, append-nil, Option, none, some, length, length-append, ltb, leb, ◌==◌,
  if◌then◌else◌, arith,
}
use lightdm.Greeter.State.{Greeter, GreeterOutput, World}
use lightdm.Greeter.Reader.{get_message_length}
use lightdm.Greeter.Dispatch.{
  ReadChars, chars, not_normal, ReadResult, result, with_length, octets_to_read, go_on, received,
  dispatch, read_cb, append_chars, read_message, is_refused, handle_message, clear_buffer, Event,
  readable, step, run,
}
use lightdm.Greeter.Framing.{IsMessage, kept, complete, prefix-message_length}
use lightdm.Greeter.Fuel.{IsHeader, only_header, inner_fuel, with_same}

-- A call of `read_cb` because the channel is readable: the octets of its read, and those of the read
-- behind a header that they complete, or `none` where there are no more yet.
abbrev pub Callback : Type 0
Callback = List ℕ × Option (List ℕ)

abbrev pub reads_of : Callback → List ReadChars
reads_of (c, none) = chars c ∷ not_normal ∷ []
reads_of (c, some d) = chars c ∷ chars d ∷ []

abbrev pub arrives : World → Callback → World × Event
arrives world callback = (world, readable (reads_of callback))

-- How the channel gives the octets of the message `m` to a greeter that has `b`: each read gives some,
-- and no more than `read_cb` asks for, which is the header first. There is a second read where the
-- first completes the header.
abbrev pub Delivers : List ℕ → List ℕ → List Callback → Type 0
Delivers m b [] = b ≡ m
Delivers m b ((c, none) ∷ cs) =
    (0 < length c) × (length b < 8 → length (b ++ c) ≤ 8) × Delivers m (b ++ c) cs
Delivers m b ((c, some d) ∷ cs) =
    (length b < 8) × (length (b ++ c) ≡ 8) × (0 < length d) × Delivers m ((b ++ c) ++ d) cs

what_is_left : (m b : List ℕ) (cs : List Callback) → Delivers m b cs → (x : List ℕ) × (b ++ x ≡ m)
what_is_left m b [] h = ([], append-nil b ∙ h)
what_is_left m b ((c, none) ∷ cs) (some_octets, asked, more) =
    let (x, e) = what_is_left m (b ++ c) cs more in (c ++ x, sym (append_assoc b c x) ∙ e)
what_is_left m b ((c, some d) ∷ cs) (short, full, some_octets, more) =
    let (x, e) = what_is_left m ((b ++ c) ++ d) cs more in
    (c ++ (d ++ x), sym (append_assoc b c (d ++ x)) ∙ sym (append_assoc (b ++ c) d x) ∙ e)

-- Before a callback there is something left.
something_left :
    (m b : List ℕ) (callback : Callback) (cs : List Callback)
    → Delivers m b (callback ∷ cs)
    → (x : List ℕ) × (0 < length x) × (b ++ x ≡ m)
something_left m b (c, none) cs (some_octets, asked, more) =
    let (x, e) = what_is_left m (b ++ c) cs more in
    (c ++ x, omega (arith, length-append c x, some_octets), sym (append_assoc b c x) ∙ e)
something_left m b (c, some d) cs (short, full, some_octets, more) =
    let (x, e) = what_is_left m ((b ++ c) ++ d) cs more in
    (
      c ++ (d ++ x),
      omega (arith, length-append c (d ++ x), length-append d x, some_octets),
      sym (append_assoc b c (d ++ x)) ∙ sym (append_assoc (b ++ c) d x) ∙ e,
    )

no_more :
    (greeter : Greeter) (o : Option ℕ)
    → go_on (with_length greeter o (λ n. result greeter [] true)) ≡ go_on (result greeter [] true)
no_more greeter none = refl
no_more greeter (some n) = refl

-- A second read that has nothing makes no difference.
read_once :
    (world : World) (c : List ℕ) (greeter : Greeter)
    → step world (readable (reads_of (c, none))) greeter
      ≡ step world (readable (chars c ∷ [])) greeter
unfolding step read_cb received
read_once world c greeter =
    let g = append_chars c greeter in
    ap (λ (r : ReadResult). (r.greeter, r.outputs))
      (with_same greeter (octets_to_read greeter.read_buffer) _ _ (λ n.
        only_header (not (length g.read_buffer == n))
          (length g.read_buffer == 8 && ltb 8 (get_message_length g.read_buffer)) (result g [] true)
          (go_on (with_length g (octets_to_read g.read_buffer) (λ k. result g [] true)))
          (go_on (result g [] true)) (dispatch world g)
          (λ e. no_more g (octets_to_read g.read_buffer))))

full_header :
    {A : Type 0} (k g : ℕ) (x y d : A)
    → k ≡ 8
    → 8 < g
    → (if not (k == 8) then x else if k == 8 && ltb 8 g then y else d) ≡ y
full_header k g x y d e h = ground arith

asks_header :
    (k g : ℕ) → k < 8 → (if leb 8 k then (if leb g 8 then none else some g) else some 8) ≡ some 8
asks_header k g h = ground arith

behind_header :
    (world : World) (c : List ℕ) (reads : List ReadChars) (greeter : Greeter)
    → length greeter.read_buffer < 8
    → IsHeader (greeter.read_buffer ++ c)
    → read_cb 2 world (chars c ∷ reads) greeter
      ≡ go_on (read_cb 1 world reads (append_chars c greeter))
unfolding read_cb received octets_to_read append_chars
behind_header world c reads greeter short (full, long) =
    let b = greeter.read_buffer in
    let g = append_chars c greeter in
    rw (asks_header (length b) (get_message_length b) short) (
      full_header (length (b ++ c)) (get_message_length (b ++ c)) (result g [] true)
        (go_on (read_cb 1 world reads g)) (dispatch world g) full long)

-- A read that completes the header and the one behind it are like two callbacks.
read_twice :
    (world : World) (c d : List ℕ) (greeter : Greeter)
    → length greeter.read_buffer < 8
    → IsHeader (greeter.read_buffer ++ c)
    → step world (readable (reads_of (c, some d))) greeter
      ≡ step world (readable (chars d ∷ [])) (append_chars c greeter)
unfolding step append_chars
read_twice world c d greeter short header =
    ap (λ (r : ReadResult). (r.greeter, r.outputs))
      (behind_header world c (chars d ∷ []) greeter short header
        ∙ ap go_on (sym (inner_fuel 1 world (chars d ∷ []) (append_chars c greeter) header)))

header_lem : (m b x : List ℕ) → IsMessage m → b ++ x ≡ m → length b ≡ 8 → IsHeader b
header_lem m b x message e full =
    (full, rw (prefix-message_length m b x message e (omega (arith, full))) message.has_payload)

-- The message `m` is handled with `b` in the buffer.
abbrev handled_with : World → List ℕ → Greeter → List ℕ → Greeter × List GreeterOutput
handled_with world m greeter b =
    let (greeter', outputs) =
      handle_message world (read_message m) (record greeter { read_buffer = b }) in
    (clear_buffer greeter', outputs)

-- The last octets of a message come with a read.
last_read :
    (world : World) (m c : List ℕ) (greeter : Greeter)
    → IsMessage m
    → (length greeter.read_buffer < 8 → length (greeter.read_buffer ++ c) ≤ 8)
    → greeter.read_buffer ++ c ≡ m
    → step world (readable (chars c ∷ [])) greeter ≡ handled_with world m greeter m
unfolding append_chars
last_read world m c greeter message asked e =
    complete world m c greeter message e asked ∙ ap (handled_with world m greeter) e

handles :
    (world : World) (m : List ℕ) (callback : Callback) (cs : List Callback) (greeter : Greeter)
    → IsMessage m
    → Delivers m greeter.read_buffer (callback ∷ cs)
    → run (map (arrives world) (callback ∷ cs)) greeter ≡ handled_with world m greeter m
unfolding run append_chars
handles world m (c, none) [] greeter message (some_octets, asked, e) = rw (
  read_once world c greeter,
  last_read world m c greeter message asked e,
  append-nil (handled_with world m greeter m).1,
)
handles world m (c, some d) [] greeter message (short, full, some_octets, e) = rw (
  read_twice world c d greeter short (header_lem m (greeter.read_buffer ++ c) d message e full),
  last_read world m d (append_chars c greeter) message (λ h. absurd (omega (arith, h, full))) e,
  append-nil (handled_with world m greeter m).1,
)
handles world m (c, none) (next ∷ cs) greeter message (some_octets, asked, more) =
    let (x, left, e) = something_left m (greeter.read_buffer ++ c) next cs more in
    rw (read_once world c greeter, kept world m c x greeter message e left asked)
      (handles world m next cs (append_chars c greeter) message more)
handles world m (c, some d) (next ∷ cs) greeter message (short, full, some_octets, more) =
    let b = greeter.read_buffer ++ c in
    let (x, left, e) = something_left m (b ++ d) next cs more in
    rw
      (
        read_twice world c d greeter short
            (header_lem m b (d ++ x) message (sym (append_assoc b d x) ∙ e) full),
        kept world m d x (append_chars c greeter) message e left
            (λ h. absurd (omega (arith, h, full))),
      )
      (handles world m next cs (append_chars d (append_chars c greeter)) message more)

-- However the channel cuts the octets of a message, into callbacks and into the two reads of a
-- callback that completes the header, the greeter handles it once, when the last of them has come, as
-- the message that the octets are; nothing is done before that, and the buffer is empty afterwards. The
-- message has a payload, of fewer than 2^31 - 8 octets as its header says, and is not one of too many
-- secrets; each read gives some octets and no more than asked for.
pub message_handled_once :
    (world : World) (m : List ℕ) (callback : Callback) (cs : List Callback) (greeter : Greeter)
    → 8 < length m
    → get_message_length m ≡ length m
    → is_refused (read_message m) ≡ false
    → Delivers m greeter.read_buffer (callback ∷ cs)
    → run (map (arrives world) (callback ∷ cs)) greeter ≡ (
        let (greeter', outputs) =
          handle_message world (read_message m) (record greeter { read_buffer = m }) in
        (clear_buffer greeter', outputs))
message_handled_once world m callback cs greeter long right accepted =
    handles world m callback cs greeter
      record { has_payload = long; right_length = right; accepted = accepted }
