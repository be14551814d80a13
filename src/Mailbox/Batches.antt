-- ===== src/Mailbox/Batches.antt =====
-- What one Fetch hands out, and what is left after it is acknowledged.
use tarion.Base.{
  ℕ, ◌+◌, ◌≤◌, ◌<◌, ◌≡◌, refl, sym, ap, ◌∙◌, subst, ◌≢◌, ◌⊎◌, inl, inr, Bool, true, false, not,
  ◌&&◌, List, [], ◌∷◌, ◌++◌, map, arith, ltb, Bool-cases, length, keep, sum_by, All, All-map,
}
use mathlib.Core.List.{append-nil, append_assoc}
use native.Mathlib.Nat.{zero-add}
use tarion.Text.{Text, str_eq}
use tarion.Text.Lower.{Unicode}
use tarion.Proto.{Letter, max_fetch_bytes}
use tarion.Base.Sort.{IsSorted, sort-IsSorted, All-keep}
use tarion.Mailbox.{MailboxStore, StoredLetter, letters, older}
use tarion.Mailbox.Order.{older-IsOrder}
use tarion.Mailbox.Delivery.{cost, fetch_from, fetch}

-- The letters that are sealed to a device.
abbrev pub sealed_to : Text → List StoredLetter → List StoredLetter
sealed_to peer_id = keep (λ l. str_eq l.peer_id peer_id)

abbrev pub total_cost : List StoredLetter → ℕ
total_cost = sum_by cost

abbrev pub sent_as : List StoredLetter → List Letter
sent_as = map (λ l. l.letter)

abbrev pub is_nil {ℓ} : {A : Type ℓ} → List A → Bool
is_nil [] = true
is_nil (x ∷ xs) = false

-- The next letter, if there is one, does not fit after letters of this many bytes.
abbrev pub NoRoom : ℕ → List StoredLetter → Type 0
NoRoom size [] = Unit {0}
NoRoom size (l ∷ ls) = max_fetch_bytes < size + cost l

-- Each letter was received no later than those behind it.
abbrev pub InTime : List StoredLetter → Type 0
InTime [] = Unit {0}
InTime (l ∷ ls) = All (λ x. l.received ≤ x.received) ls × InTime ls

sorted-InTime : (ls : List StoredLetter) → IsSorted older ls → InTime ls
unfolding older
sorted-InTime [] s = tt
sorted-InTime (l ∷ ls) s = (All-map _ _ ls (λ x h. ground (arith, h)) s.0, sorted-InTime ls s.1)

keep-InTime : (p : StoredLetter → Bool) (ls : List StoredLetter) → InTime ls → InTime (keep p ls)
keep-InTime p [] t = tt
keep-InTime p (l ∷ ls) t = elim (Bool-cases (p l)) [
  | inl e ↦ rw e (All-keep older (λ x. l.received ≤ x.received) p ls t.0, keep-InTime p ls t.1)
  | inr e ↦ rw e (keep-InTime p ls t.1)
]

-- A response `r` hands out the letters `taken` of `mine`, and leaves `rest`.
pub record IsBatch (mine : List StoredLetter) (r : List Letter × Bool) : Type 0 where
  pub taken : List StoredLetter
  pub rest : List StoredLetter
  pub split : mine ≡ taken ++ rest
  pub sent : r.0 ≡ sent_as taken
  pub more : r.1 ≡ not (is_nil rest)
  -- at least one letter, unless there is none
  pub progress : (taken ≡ []) → (mine ≡ [])
  -- more than one only within the cap
  pub capped : (total_cost taken ≤ max_fetch_bytes) ⊎ (length taken ≤ 1)
  -- and as many as fit
  pub greedy : NoRoom (total_cost taken) rest
  -- no letter was received after one that stands behind it
  pub ordered : InTime mine

-- The loop, from what it has collected so far.
record Extends (out : List Letter) (size : ℕ) (mine : List StoredLetter) (r : List Letter × Bool)
    : Type 0 where
  taken : List StoredLetter
  rest : List StoredLetter
  split : mine ≡ taken ++ rest
  sent : r.0 ≡ out ++ sent_as taken
  more : r.1 ≡ not (is_nil rest)
  progress : out ≡ [] → taken ≡ [] → mine ≡ []
  capped :
      (size + total_cost taken ≤ max_fetch_bytes) ⊎ ((out ≡ []) × (length taken ≤ 1)) ⊎ (taken ≡ [])
  greedy : NoRoom (size + total_cost taken) rest

Extends-stop :
    (out : List Letter) (size : ℕ) (l : StoredLetter) (mine : List StoredLetter)
    → out ≢ []
    → max_fetch_bytes < size + cost l
    → Extends out size (l ∷ mine) (out, true)
Extends-stop out size l mine h k = record {
  taken = [];
  rest = l ∷ mine;
  split = refl;
  sent = sym (append-nil out);
  more = refl;
  progress = λ e. absurd (h e);
  capped = inr (inr refl);
  greedy = omega arith;
}

Extends-add :
    (out : List Letter) (size : ℕ) (l : StoredLetter) (mine : List StoredLetter)
    (r : List Letter × Bool)
    → (out ≡ []) ⊎ (size + cost l ≤ max_fetch_bytes)
    → Extends (out ++ l.letter ∷ []) (size + cost l) mine r
    → Extends out size (l ∷ mine) r
Extends-add out size l mine r h x = record {
  taken = l ∷ x.taken;
  rest = x.rest;
  split = ap (◌∷◌ l) x.split;
  sent = x.sent ∙ append_assoc out (l.letter ∷ []) (sent_as x.taken);
  more = x.more;
  progress = λ _ e. cc;
  capped = ground (arith, x.capped, h);
  greedy = ground (arith, x.greedy);
}

abbrev is_last : List Letter → ℕ → StoredLetter → Bool
is_last out size l = ltb 0 (length out) && ltb max_fetch_bytes (size + cost l)

is_last-out :
    (out : List Letter) (size : ℕ) (l : StoredLetter) → is_last out size l ≡ true → out ≢ []
is_last-out [] size l h e = cc
is_last-out (x ∷ out) size l h e = cc

not_last :
    (out : List Letter) (size : ℕ) (l : StoredLetter)
    → is_last out size l ≡ false
    → (out ≡ []) ⊎ (size + cost l ≤ max_fetch_bytes)
not_last [] size l h = inl refl
not_last (x ∷ out) size l h = inr (ground arith)

fetch_from-Extends :
    (peer_id : Text) (out : List Letter) (size : ℕ) (ls : List StoredLetter)
    → Extends out size (sealed_to peer_id ls) (fetch_from peer_id out size ls)
unfolding fetch_from
fetch_from-Extends peer_id out size [] = record {
  taken = [];
  rest = [];
  split = refl;
  sent = sym (append-nil out);
  more = refl;
  progress = λ _ _. refl;
  capped = inr (inr refl);
  greedy = tt;
}
fetch_from-Extends peer_id out size (l ∷ ls) = elim (Bool-cases (str_eq l.peer_id peer_id)) [
  | inr e ↦ rw (e, fetch_from) (fetch_from-Extends peer_id out size ls)
  | inl e ↦
      rw (e, fetch_from)
        (elim (Bool-cases (is_last out size l)) [
          | inl f ↦ rw f (Extends-stop out size l _ (is_last-out out size l f) (ground arith))
          | inr f ↦ rw f (
              Extends-add out size l _ _ (not_last out size l f)
                (fetch_from-Extends peer_id (out ++ l.letter ∷ []) (size + cost l) ls))
        ])
]

module _ (u : Unicode) where
  letters-IsSorted : (m : MailboxStore) (name : Text) → IsSorted older (letters u m name)
  unfolding letters
  letters-IsSorted m name = sort-IsSorted older older-IsOrder _

  -- A fetch returns a prefix of the letters sealed to the device, which stand in the order of the
  -- seconds in which they were received, the oldest first, within the size limit or of one letter;
  -- it says that more are waiting exactly when some are left out, and then the next letter would
  -- not have fit.
  pub fetch-IsBatch :
      (m : MailboxStore) (name peer_id : Text)
      → IsBatch (sealed_to peer_id (letters u m name)) (fetch u m name peer_id)
  unfolding fetch
  fetch-IsBatch m name peer_id =
      let x = fetch_from-Extends peer_id [] 0 (letters u m name) in
      record {
        taken = x.taken;
        rest = x.rest;
        split = x.split;
        sent = x.sent;
        more = x.more;
        progress = x.progress refl;
        capped = ground (arith, x.capped);
        ordered =
            keep-InTime (λ l. str_eq l.peer_id peer_id) (letters u m name)
              (sorted-InTime (letters u m name) (letters-IsSorted m name));
        greedy = subst (λ n. NoRoom n x.rest) (zero-add (total_cost x.taken)) x.greedy;
      }
