-- ===== src/Network/Once.antt =====
-- A message that was seen is not delivered again, while any number of streams and letters are handled at
-- the same time. Each handler marks its message, and later sends it on the channel or gives up.
use tarion.Base.{
  ℕ, ◌-◌, ◌≤◌, ◌<◌, ◌≡◌, refl, sym, ◌∙◌, subst, inl, inr, Bool, true, false, ◌&&◌, Option, none,
  some, List, [], ◌∷◌, ◌++◌, arith, ltb, if◌then◌else◌, Bool-cases, length, drop, count_by, All,
  count_by-append,
}
use tarion.Text.{Text, str_eq, str_eq_iff}
use tarion.Dict.{get}
use tarion.Network.{
  max_seen, seen_ttl, chan_size, IncomingMessage, mark_seen, unmark_seen, message_key, Inbox,
  send_on, marked,
}
use tarion.Network.Seen.{mark_seen-again, mark_seen-other, unmark_seen-other}

abbrev pub message_key_of : IncomingMessage → Text
message_key_of m = message_key m.peer_id m.id

-- The message has this key.
abbrev pub has_key : Text → IncomingMessage → Bool
has_key key m = str_eq (message_key_of m) key

-- The inbox, and the messages that a handler has marked and neither sent nor unmarked.
pub record Handlers : Type 0 where
  pub box : Inbox
  pub under_way : List IncomingMessage

-- A handler marks its message, at a time; the handler of a message tries to send it, or unmarks it; or
-- the reader takes a message.
pub data Move : Type 0 where
  begins : ℕ → IncomingMessage → Move
  hands_over : Text → Move
  gives_up : Text → Move
  reader_takes : Move

unfoldable pub find_under_way : Text → List IncomingMessage → Option IncomingMessage
find_under_way key [] = none
find_under_way key (m ∷ ms) =
    let rest = find_under_way key ms in if has_key key m then some m else rest

unfoldable pub drop_under_way : Text → List IncomingMessage → List IncomingMessage
drop_under_way key [] = []
drop_under_way key (m ∷ ms) =
    let rest = drop_under_way key ms in if has_key key m then ms else m ∷ rest

handed_over : Text → Handlers → Option IncomingMessage → Handlers
handed_over key w none = w
handed_over key w (some m) =
    let r = send_on m w.box.waiting in
    if r.0
    then record {
      box = record { seen = w.box.seen; waiting = r.1 };
      under_way = drop_under_way key w.under_way;
    }
    else w

given_up : Text → Handlers → Option IncomingMessage → Handlers
given_up key w none = w
given_up key w (some m) = record {
  box = record { seen = unmark_seen key w.box.seen; waiting = w.box.waiting };
  under_way = drop_under_way key w.under_way;
}

unfoldable pub move : Handlers → Move → Handlers
unfolding handed_over given_up
move w (begins now m) =
    let r = marked now (message_key_of m) w.box in
    record { box = r.1; under_way = if r.0 then m ∷ w.under_way else w.under_way }
move w (hands_over key) = handed_over key w (find_under_way key w.under_way)
move w (gives_up key) = given_up key w (find_under_way key w.under_way)
move w reader_takes = record w {
  box = record { seen = w.box.seen; waiting = drop 1 w.box.waiting };
}

unfoldable pub move_all : Handlers → List Move → Handlers
move_all w [] = w
move_all w (x ∷ xs) = move_all (move w x) xs

-- The copies of a message that wait for the reader.
abbrev pub copies : Text → Handlers → ℕ
copies key w = count_by (has_key key) w.box.waiting

-- A mark comes less than ten minutes after the time, and the table has room for one more.
abbrev is_calm : ℕ → Handlers → Move → Bool
is_calm t w (begins now m) = ltb (now - t) seen_ttl && ltb (length w.box.seen) max_seen
is_calm t w _ = true

unfoldable pub all_calm : ℕ → Handlers → List Move → Bool
all_calm t w [] = true
all_calm t w (x ∷ xs) = is_calm t w x && all_calm t (move w x) xs

abbrev pub NoneUnderWay : Text → List IncomingMessage → Type 0
NoneUnderWay key ms = All (λ m. has_key key m ≡ false) ms

-- The message was seen at the time, no handler is about to send or unmark it, and there are at most so
-- many copies of it.
abbrev IsOnce : Text → ℕ → ℕ → Handlers → Type 0
IsOnce key t n w =
    (get w.box.seen key ≡ some t) × ((copies key w ≤ n) × NoneUnderWay key w.under_way)

drop_copies :
    (key : Text) (ms : List IncomingMessage)
    → count_by (has_key key) (drop 1 ms) ≤ count_by (has_key key) ms
drop_copies key [] = omega arith
drop_copies key (m ∷ ms) = ground arith

other_copies :
    (key : Text) (ms : List IncomingMessage) (m : IncomingMessage)
    → has_key key m ≡ false
    → count_by (has_key key) (ms ++ (m ∷ [])) ≡ count_by (has_key key) ms
other_copies key ms m h = count_by-append (has_key key) ms (m ∷ []) ∙ rw h (omega arith)

send_on-copies :
    (key : Text) (m : IncomingMessage) (ms : List IncomingMessage)
    → has_key key m ≡ false
    → count_by (has_key key) (send_on m ms).1 ≡ count_by (has_key key) ms
unfolding send_on
send_on-copies key m ms h = elim (Bool-cases (ltb (length ms) chan_size)) [
  | inl e ↦ rw e (other_copies key ms m h)
  | inr e ↦ rw e refl
]

drop_under_way-NoneUnderWay :
    (key other : Text) (ms : List IncomingMessage)
    → NoneUnderWay key ms
    → NoneUnderWay key (drop_under_way other ms)
unfolding drop_under_way
drop_under_way-NoneUnderWay key other [] h = tt
drop_under_way-NoneUnderWay key other (m ∷ ms) h = elim (Bool-cases (has_key other m)) [
  | inl e ↦ rw e h.1
  | inr e ↦ rw e (h.0, drop_under_way-NoneUnderWay key other ms h.1)
]

-- What is found has the key, and is one of the messages.
find_under_way-NoneUnderWay :
    (key other : Text) (ms : List IncomingMessage) (m : IncomingMessage)
    → find_under_way other ms ≡ some m
    → NoneUnderWay key ms
    → (has_key key m ≡ false) × (str_eq other key ≡ false)
unfolding find_under_way
find_under_way-NoneUnderWay key other [] m e h = cc
find_under_way-NoneUnderWay key other (x ∷ ms) m e h = elim (Bool-cases (has_key other x)) [
  | inl k ↦
      let same : ◌≡◌ {A = Option IncomingMessage} (some x) (some m) = rw k at e in
      let at : x ≡ m = cc same in
      let is : message_key_of x ≡ other = (str_eq_iff (message_key_of x) other).0 k in
      (subst (λ y. has_key key y ≡ false) at h.0, subst (λ y. str_eq y key ≡ false) is h.0)
  | inr k ↦ find_under_way-NoneUnderWay key other ms m (rw k at e) h.1
]

module _ (key : Text) (t n : ℕ) (w : Handlers) (h : IsOnce key t n w) where
  begins-IsOnce :
      (now : ℕ) (m : IncomingMessage)
      → ltb (now - t) seen_ttl ≡ true
      → length w.box.seen < max_seen
      → IsOnce key t n (move w (begins now m))
  unfolding move
  begins-IsOnce now m young room = elim (Bool-cases (str_eq (message_key_of m) key)) [
    | inl e ↦
        let same = (str_eq_iff (message_key_of m) key).0 e in
        let again : mark_seen now (message_key_of m) w.box.seen ≡ (false, w.box.seen) =
          subst (λ k. mark_seen now k w.box.seen ≡ (false, w.box.seen)) (sym same)
            (mark_seen-again now t key w.box.seen h.0 young) in
        rw again h
    | inr e ↦
        let r = mark_seen now (message_key_of m) w.box.seen in
        let ms = w.under_way in
        (
          mark_seen-other now t key (message_key_of m) w.box.seen room e h.0,
          (
            h.1.0,
            elim r.0 as (λ b. NoneUnderWay key (if b then m ∷ ms else ms)) [
              | true ↦ (e, h.1.1)
              | false ↦ h.1.1
            ],
          ),
        )
  ]

  handed_over-IsOnce :
      (other : Text) (o : Option IncomingMessage)
      → find_under_way other w.under_way ≡ o
      → IsOnce key t n (handed_over other w o)
  unfolding handed_over
  handed_over-IsOnce other none e = h
  handed_over-IsOnce other (some m) e =
      let (not_it, ne) = find_under_way-NoneUnderWay key other w.under_way m e h.1.1 in
      let r = send_on m w.box.waiting in
      elim (Bool-cases r.0) [
        | inl s ↦ rw s (
          h.0,
          (
            omega (arith, h.1.0, send_on-copies key m w.box.waiting not_it),
            drop_under_way-NoneUnderWay key other w.under_way h.1.1,
          ),
        )
        | inr s ↦ rw s h
      ]

  given_up-IsOnce :
      (other : Text) (o : Option IncomingMessage)
      → find_under_way other w.under_way ≡ o
      → IsOnce key t n (given_up other w o)
  unfolding given_up
  given_up-IsOnce other none e = h
  given_up-IsOnce other (some m) e =
      let (not_it, ne) = find_under_way-NoneUnderWay key other w.under_way m e h.1.1 in
      (
        unmark_seen-other t key other w.box.seen ne h.0,
        (h.1.0, drop_under_way-NoneUnderWay key other w.under_way h.1.1),
      )

  move-IsOnce : (x : Move) → is_calm t w x ≡ true → IsOnce key t n (move w x)
  unfolding move
  move-IsOnce (begins now m) c = begins-IsOnce now m (ground (arith, c)) (ground (arith, c))
  move-IsOnce (hands_over other) c = handed_over-IsOnce other _ refl
  move-IsOnce (gives_up other) c = given_up-IsOnce other _ refl
  move-IsOnce reader_takes c = (h.0, (omega (arith, h.1.0, drop_copies key w.box.waiting), h.1.1))

move_all-IsOnce :
    (key : Text) (t n : ℕ) (w : Handlers) (xs : List Move)
    → IsOnce key t n w
    → all_calm t w xs ≡ true
    → IsOnce key t n (move_all w xs)
unfolding move_all all_calm
move_all-IsOnce key t n w [] h c = h
move_all-IsOnce key t n w (x ∷ xs) h c =
    move_all-IsOnce key t n (move w x) xs (move-IsOnce key t n w h x (ground (arith, c)))
      (ground (arith, c))

-- If a message is in the table of those that were seen, with the time at which it was marked, and
-- no handler has it under way, then after any steps of any handlers and of the reader, in any
-- order, in which marks come less than ten minutes after that time and find room in the table, it
-- is still in the table with that time, no handler has it under way, and no more copies of it wait
-- for the reader than before.
pub run-once :
    (key : Text) (t : ℕ) (w : Handlers) (xs : List Move)
    → get w.box.seen key ≡ some t
    → NoneUnderWay key w.under_way
    → all_calm t w xs ≡ true
    → let w' = move_all w xs in
      (get w'.box.seen key ≡ some t)
      × ((copies key w' ≤ copies key w) × NoneUnderWay key w'.under_way)
run-once key t w xs g u c = move_all-IsOnce key t (copies key w) w xs (g, (omega arith, u)) c
