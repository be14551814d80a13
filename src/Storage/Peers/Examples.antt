-- ===== src/Storage/Peers/Examples.antt =====
-- Pinned peers at concrete inputs: Bob is pinned, and a stranger claims his name.
use tarion.Base.{◌≡◌, refl, sym, ◌∙◌, ◌⊎◌, true, none, List, [], ◌∷◌, arith, all_by}
use tarion.Text.{Text, text, str_eq, str_eq_iff, str_eq_refl}
use tarion.Text.Lower.{is_ascii, lower_bytes, equal_fold}
use tarion.Samples.{ascii_tables}
use tarion.Storage.Held.{Held, held, load_list}
use tarion.Storage.Peers.{Peer, find_peer, peer_by_name, new_peer, resolve_list, pin_outgoing}
use tarion.Storage.Peers.Pins.{FoldLaws}
use tarion.Storage.Peers.Kept.{
  Action, incoming, outgoing, forgotten, run, leaves, IsPinned, run-IsPinned,
}
use tarion.Storage.Peers.Named.{
  resolve_list-resolve_list, IsNowPinned, IsRefused, IsFailed, pin_outgoing-outcome,
}

ascii_fold : (a b : Text) → equal_fold ascii_tables a b ≡ str_eq (lower_bytes a) (lower_bytes b)
unfolding equal_fold
ascii_fold a b = ground arith

pub ascii-FoldLaws : FoldLaws ascii_tables
ascii-FoldLaws = record {
  fold_refl = λ a. ascii_fold a a ∙ str_eq_refl (lower_bytes a);
  fold_sym = λ a b h.
      ascii_fold b a
      ∙ (str_eq_iff (lower_bytes b) (lower_bytes a)).1
          (sym ((str_eq_iff (lower_bytes a) (lower_bytes b)).0 (sym (ascii_fold a b) ∙ h)));
  fold_trans = λ a b c h k.
      ascii_fold a c
      ∙ (str_eq_iff (lower_bytes a) (lower_bytes c)).1 (
          (str_eq_iff (lower_bytes a) (lower_bytes b)).0 (sym (ascii_fold a b) ∙ h)
          ∙ (str_eq_iff (lower_bytes b) (lower_bytes c)).0 (sym (ascii_fold b c) ∙ k));
}

abbrev bob_key : Text
bob_key = text "bobkey"

abbrev other_key : Text
other_key = text "otherkey1"

abbrev bob : Peer
bob = new_peer bob_key (text "Bob") [] 1

abbrev book : Held (List Peer)
book = held (bob ∷ [])

book-IsPinned : IsPinned ascii_tables book (text "bob") bob_key
unfolding peer_by_name load_list find_peer equal_fold lower_bytes is_ascii str_eq
book-IsPinned = (bob, (refl, refl))

-- A stranger claims the name, is written to under it, and another name is forgotten.
abbrev events : List Action
events =
    incoming 5 none other_key (text "bob") []
    ∷ outgoing 6 none (text "bob") other_key []
    ∷ forgotten none (text "eve")
    ∷ []

events_leave : all_by (leaves ascii_tables (text "bob") bob_key) events ≡ true
unfolding leaves str_eq equal_fold is_ascii lower_bytes
events_leave = refl

run-IsPinned_example : IsPinned ascii_tables (run ascii_tables book events) (text "bob") bob_key
run-IsPinned_example =
    run-IsPinned ascii_tables events book (text "bob") bob_key ascii-FoldLaws events_leave
      book-IsPinned

resolve_list-resolve_list_example :
    (resolve_list ascii_tables 6
      (resolve_list ascii_tables 5 (bob ∷ []) other_key (text "bob") []).1
      other_key
      (text "eve")
      []).0
    ≡ (resolve_list ascii_tables 5 (bob ∷ []) other_key (text "bob") []).0
resolve_list-resolve_list_example =
    resolve_list-resolve_list ascii_tables (bob ∷ []) other_key 5 6 (text "bob") (text "eve") [] []

abbrev Outcomes : Type 0
Outcomes =
    let o = pin_outgoing ascii_tables 5 none book (text "bob") other_key [] in
    IsNowPinned ascii_tables (text "bob") other_key o
    ⊎ (IsRefused ascii_tables book (text "bob") other_key o ⊎ IsFailed none book o)

pin_outgoing-outcome_example : Outcomes
pin_outgoing-outcome_example =
    pin_outgoing-outcome ascii_tables 5 none book (text "bob") other_key [] ascii-FoldLaws
