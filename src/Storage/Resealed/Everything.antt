-- ===== src/Storage/Resealed/Everything.antt =====
-- Reseal over all files.
use tarion.Base.{
  ◌≡◌, refl, sym, ap, ◌∙◌, subst, inl, inr, true, Option, none, some, [], ◌∷◌, arith, Bool-cases,
}
use tarion.Text.{Text, str_eq, str_eq_iff, IsBytes}
use tarion.Text.Lower.{Unicode}
use tarion.Dict.{Dict, get}
use tarion.Vault.{Crypto}
use tarion.Storage.{
  OnDisk, StoreError, kind_identity, kind_peers, kind_outbox, kind_history, kind_dropped,
  read_sealed,
}
use tarion.Storage.Reseal.{
  Files, Place, at_history, Chances, reseal_lines, is_history_name, cons_history, reseal_histories,
}
use tarion.Storage.Resealed.OneLine.{MakesBytes, AreNonces}
use tarion.Storage.Resealed.Whole.{KeepsLines, reseal_lines-KeepsLines}

some-injective {ℓ} : {A : Type ℓ} {a b : A} → ◌≡◌ {A = Option A} (some a) (some b) → a ≡ b
some-injective h = cc

abbrev Step : Type 0
Step = Files × Option StoreError

abbrev Step1 : Type 0
Step1 = OnDisk × Option StoreError

split_pair {ℓ κ} :
    {A : Type ℓ} {B : Type κ} (r : A × B) (b : B) → r.1 ≡ b → ◌≡◌ {A = A × B} r (r.0, b)
split_pair (a, b) b' h = ap (λ x. (a, x)) h

abbrev Histories : Type 0
Histories = Dict OnDisk × Option StoreError

module _ (u : Unicode) (c : Crypto) (from : Option Text) (key : Text) (d : Chances) where
  -- The history files keep their lines.
  abbrev pub KeepsHistories : Dict OnDisk → Dict OnDisk → Type 0
  KeepsHistories fs fs' =
      (name : Text) (disk : OnDisk)
      → is_history_name u name ≡ true
      → get fs name ≡ some disk
      → (disk' : OnDisk) × ((get fs' name ≡ some disk')
          × KeepsLines c from key d kind_history disk disk')

  cons_history-ok :
      (name : Text) (r : Step1) (fs fs' : Dict OnDisk) (rest : Histories)
      → ◌≡◌ {A = Histories} (cons_history name r fs rest) (fs', none)
      → (r.1 ≡ none) × ((rest.1 ≡ none) × (fs' ≡ (name, r.0) ∷ rest.0))
  unfolding cons_history
  cons_history-ok name (x, some e) fs fs' rest h = cc
  cons_history-ok name (x, none) fs fs' rest h = (refl, (ap (λ p. p.1) h, sym (ap (λ p. p.0) h)))

  keeps_cons :
      (j : Text) (x x' : OnDisk) (fs fs' : Dict OnDisk)
      → (is_history_name u j ≡ true → KeepsLines c from key d kind_history x x')
      → KeepsHistories fs fs'
      → KeepsHistories ((j, x) ∷ fs) ((j, x') ∷ fs')
  unfolding get
  keeps_cons j x x' fs fs' one rest name disk hn h = elim (Bool-cases (str_eq j name)) [
    | inl e ↦
        let is_txt : is_history_name u j ≡ true =
          ap (is_history_name u) ((str_eq_iff j name).0 e) ∙ hn in
        let same : x ≡ disk = some-injective (rw e at h) in
        rw e (x', (refl, subst (λ y. KeepsLines c from key d kind_history y x') same (one is_txt)))
    | inr e ↦ rw e (rest name disk hn (rw e at h))
  ]

  pub reseal_histories-KeepsHistories :
      (fs fs' : Dict OnDisk)
      → MakesBytes c
      → IsBytes key
      → ((p : Place) → AreNonces (d.nonce p))
      → ◌≡◌ {A = Histories} (reseal_histories u c from (some key) d fs) (fs', none)
      → KeepsHistories fs fs'
  unfolding reseal_histories get
  reseal_histories-KeepsHistories [] fs' mb kb hn h = λ name disk hh g. cc
  reseal_histories-KeepsHistories ((j, x) ∷ fs) fs' mb kb hn h =
      let rest = reseal_histories u c from (some key) d fs in
      let r = reseal_lines c from (some key) d (at_history j) kind_history x in
      elim (Bool-cases (is_history_name u j)) [
        | inl e ↦
            let (one, (none_left, same)) = cons_history-ok j r fs fs' rest (rw e at h) in
            let ih =
              reseal_histories-KeepsHistories fs rest.0 mb kb hn (split_pair rest none none_left) in
            let keeps =
              reseal_lines-KeepsLines c from key d (at_history j) kind_history x r.0 mb kb
                (hn (at_history j)) (split_pair r none one) in
            subst (λ t. KeepsHistories ((j, x) ∷ fs) t) (sym same)
              (keeps_cons j x r.0 fs rest.0 (λ _. keeps) ih)
        | inr e ↦
            let h' = rw e at h in
            let ih =
              reseal_histories-KeepsHistories fs rest.0 mb kb hn
                (split_pair rest none (ap (λ p. p.1) h')) in
            subst (λ t. KeepsHistories ((j, x) ∷ fs) t) (ap (λ p. p.0) h')
              (keeps_cons j x x fs rest.0 (λ t. absurd (ground (arith, t, e))) ih)
      ]

  -- The client's files read with a new key as they did before.
  abbrev pub ReadsSame : Files → Files → Type 0
  ReadsSame fs fs' =
      (read_sealed c (some key) kind_identity fs'.identity
        ≡ read_sealed c from kind_identity fs.identity)
      × ((read_sealed c (some key) kind_peers fs'.peers ≡ read_sealed c from kind_peers fs.peers)
          × ((read_sealed c (some key) kind_outbox fs'.outbox
                ≡ read_sealed c from kind_outbox fs.outbox)
              × (KeepsLines c from key d kind_dropped fs.dropped fs'.dropped
                  × KeepsHistories fs.histories fs'.histories)))
