-- ===== src/Network/Seen.antt =====
-- The table of the messages seen.
use tarion.Base.{
  ℕ, suc, ◌-◌, ◌≤◌, ◌<◌, ◌≡◌, refl, ◌∙◌, inl, inr, true, false, some, [], ◌∷◌, arith, ltb, leb,
  Bool-cases, Option-cases, length,
}
use tarion.Text.{Text, str_eq, str_eq_refl}
use tarion.Dict.{Dict, get, put, delete, get-put, get-delete}
use tarion.Network.{max_seen, seen_ttl, seen_recently, make_room, mark_seen, unmark_seen}

length-delete-le : (m : Dict ℕ) (k : Text) → length (delete m k) ≤ length m
unfolding delete
length-delete-le [] k = omega arith
length-delete-le ((j, v) ∷ m) k = ground (arith, length-delete-le m k)

pub length-put-le : (m : Dict ℕ) (k : Text) (v : ℕ) → length (put m k v) ≤ suc (length m)
unfolding put
length-put-le m k v = omega (arith, length-delete-le m k)

make_room-lt : (now : ℕ) (seen : Dict ℕ) → length (make_room now seen) < max_seen
unfolding make_room
make_room-lt now seen = ground arith

-- The table has at most 4096 entries.
pub length-mark_seen-le :
    (now : ℕ) (key : Text) (seen : Dict ℕ)
    → length seen ≤ max_seen
    → length (mark_seen now key seen).1 ≤ max_seen
unfolding mark_seen
length-mark_seen-le now key seen h =
    ground (arith, h, length-put-le (make_room now seen) key now, make_room-lt now seen)

pub length-unmark_seen-le :
    (key : Text) (seen : Dict ℕ) → length (unmark_seen key seen) ≤ length seen
unfolding unmark_seen
length-unmark_seen-le key seen = length-delete-le seen key

-- A message that was seen lately is not new.
pub mark_seen-again :
    (now t : ℕ) (key : Text) (seen : Dict ℕ)
    → get seen key ≡ some t
    → ltb (now - t) seen_ttl ≡ true
    → mark_seen now key seen ≡ (false, seen)
unfolding mark_seen
mark_seen-again now t key seen g h = rw (g, h) refl

-- After marking, a message was seen within the time.
pub mark_seen-get :
    (now : ℕ) (key : Text) (seen : Dict ℕ)
    → (t : ℕ) × ((get (mark_seen now key seen).1 key ≡ some t) × (ltb (now - t) seen_ttl ≡ true))
unfolding mark_seen
mark_seen-get now key seen = elim (Option-cases (get seen key)) [
  | inl e ↦
      rw e
        (now, (get-put (make_room now seen) key key now ∙ rw (str_eq_refl key) refl, ground arith))
  | inr (t, e) ↦ elim (Bool-cases (ltb (now - t) seen_ttl)) [
    | inl h ↦ rw (e, h) (t, (e, h))
    | inr h ↦
        rw (e, h)
          (
            now,
            (get-put (make_room now seen) key key now ∙ rw (str_eq_refl key) refl, ground arith),
          )
  ]
]

-- While there is room, marking and unmarking another message leaves what was seen.
pub mark_seen-other :
    (now t : ℕ) (key other : Text) (seen : Dict ℕ)
    → length seen < max_seen
    → str_eq other key ≡ false
    → get seen key ≡ some t
    → get (mark_seen now other seen).1 key ≡ some t
unfolding mark_seen make_room
mark_seen-other now t key other seen room ne g =
    elim (Bool-cases (seen_recently now (get seen other))) [
      | inl e ↦ rw e g
      | inr e ↦
          let no_sweep : leb max_seen (length seen) ≡ false = ground (arith, room) in
          rw (e, no_sweep) (get-put seen other key now ∙ rw ne g)
    ]

pub unmark_seen-other :
    (t : ℕ) (key other : Text) (seen : Dict ℕ)
    → str_eq other key ≡ false
    → get seen key ≡ some t
    → get (unmark_seen other seen) key ≡ some t
unfolding unmark_seen
unmark_seen-other t key other seen ne g = get-delete seen other key ∙ rw ne g
