-- ===== src/Accounts/Legacy.antt =====
-- The import of the older file: a name that appears once is taken over, and one that appears more
-- often, in whatever case, is not, since an injected record cannot be told from a genuine one.
use tarion.Base.{
  ℕ, zero, suc, ◌+◌, ◌<◌, ◌≡◌, refl, sym, ap, ◌∙◌, subst, inl, inr, true, false, Option, none, some,
  List, [], ◌∷◌, arith, ltb, ◌==◌, if◌then◌else◌, Bool-cases,
}
use tarion.Text.{Text, str_eq, str_eq_iff}
use tarion.Text.Lower.{Unicode}
use tarion.Dict.{Dict, get, put, get-put}
use tarion.Proto.{name_key}
use tarion.Accounts.{Account}
use tarion.Accounts.Loading.{
  LegacyRecord, Seen, times, dropped, seen_or_zero, seen_again, legacy_account, legacy_records,
  count_seen, Import, import_one, import_records, import_legacy,
}

module _ (u : Unicode) where
  -- How often a key appears among the records, and the first record with it.
  pub occurs : Text → List LegacyRecord → ℕ
  occurs k [] = 0
  occurs k (r ∷ rs) = (if str_eq (name_key u r.name) k then 1 else 0) + occurs k rs

  pub record_of : Text → List LegacyRecord → Option LegacyRecord
  record_of k [] = none
  record_of k (r ∷ rs) = if str_eq (name_key u r.name) k then some r else record_of k rs

  count_seen-occurs :
      (seen : Dict Seen) (rs : List LegacyRecord) (k : Text) (n : ℕ)
      → seen_or_zero (get seen k) ≡ times n
      → seen_or_zero (get (count_seen u seen rs) k) ≡ times (n + occurs k rs)
  unfolding count_seen occurs
  count_seen-occurs seen [] k n h = h ∙ ap times (omega arith)
  count_seen-occurs seen (r ∷ rs) k n h = elim (Bool-cases (str_eq (name_key u r.name) k)) [
    | inl e ↦
        count_seen-occurs
          (put seen (name_key u r.name) (seen_again (seen_or_zero (get seen (name_key u r.name)))))
          rs k (n + 1)
          (ground (
            arith,
            e,
            h,
            get-put seen (name_key u r.name) k
                (seen_again (seen_or_zero (get seen (name_key u r.name)))),
            str_eq_iff (name_key u r.name) k,
          ))
        ∙ ap times (ground (arith, e))
    | inr e ↦
        count_seen-occurs
          (put seen (name_key u r.name) (seen_again (seen_or_zero (get seen (name_key u r.name)))))
          rs k n
          (ground (
            arith,
            e,
            h,
            get-put seen (name_key u r.name) k
                (seen_again (seen_or_zero (get seen (name_key u r.name)))),
            str_eq_iff (name_key u r.name) k,
          ))
        ∙ ap times (ground (arith, e))
  ]

  -- The count says that the name is dropped, or will be.
  abbrev Repeated : Seen → Type 0
  Repeated (times n) = 1 < n
  Repeated dropped = Unit {0}

  abbrev count_of : Import → Text → Seen
  count_of s k = seen_or_zero (get s.seen k)

  abbrev next : ℕ → Import → LegacyRecord → Import
  next now s r = import_one u now s r (count_of s (name_key u r.name))

  -- Records of another name leave a key alone.
  one_other :
      (now : ℕ) (s : Import) (r : LegacyRecord) (k : Text) (c : Seen)
      → str_eq (name_key u r.name) k ≡ false
      → (get (import_one u now s r c).accounts k ≡ get s.accounts k)
        × (get (import_one u now s r c).seen k ≡ get s.seen k)
  unfolding import_one
  one_other now s r k dropped h = (refl, refl)
  one_other now s r k (times n) h = (
    ground (arith, h, get-put s.accounts (name_key u r.name) k (legacy_account now r)),
    ground (arith, h, get-put s.seen (name_key u r.name) k dropped),
  )

  -- A record of a name that appears more than once imports nothing, and the name stays dropped.
  one-Repeated :
      (now : ℕ) (s : Import) (r : LegacyRecord) (k : Text) (c : Seen)
      → str_eq (name_key u r.name) k ≡ true
      → count_of s k ≡ c
      → Repeated c
      → (get (import_one u now s r c).accounts k ≡ get s.accounts k)
        × Repeated (count_of (import_one u now s r c) k)
  unfolding import_one
  one-Repeated now s r k dropped e c h = (refl, rw c tt)
  one-Repeated now s r k (times n) e c h =
      let many : ltb 1 n ≡ true = ground arith in
      (ground (arith, h), rw (many, get-put s.seen (name_key u r.name) k dropped, e) tt)

  import-Repeated :
      (now : ℕ) (s : Import) (rs : List LegacyRecord) (k : Text)
      → Repeated (count_of s k)
      → get (import_records u now s rs).accounts k ≡ get s.accounts k
  unfolding import_records
  import-Repeated now s [] k h = refl
  import-Repeated now s (r ∷ rs) k h = elim (Bool-cases (str_eq (name_key u r.name) k)) [
    | inl e ↦
        let same : count_of s k ≡ count_of s (name_key u r.name) =
          ap (count_of s) (sym ((str_eq_iff (name_key u r.name) k).0 e)) in
        let (kept, again) = one-Repeated now s r k _ e same (subst Repeated same h) in
        import-Repeated now (next now s r) rs k again ∙ kept
    | inr e ↦
        let (kept, again) = one_other now s r k (count_of s (name_key u r.name)) e in
        import-Repeated now (next now s r) rs k
          (subst (λ o. Repeated (seen_or_zero o)) (sym again) h)
        ∙ kept
  ]

  -- A name that does not appear is left alone, and a name that appears once is imported.
  import-absent :
      (now : ℕ) (s : Import) (rs : List LegacyRecord) (k : Text)
      → occurs k rs ≡ 0
      → get (import_records u now s rs).accounts k ≡ get s.accounts k
  unfolding import_records occurs
  import-absent now s [] k h = refl
  import-absent now s (r ∷ rs) k h =
      let other : str_eq (name_key u r.name) k ≡ false = ground (arith, h) in
      import-absent now (next now s r) rs k (ground (arith, h))
      ∙ (one_other now s r k (count_of s (name_key u r.name)) other).0

  abbrev pub imported : ℕ → Option LegacyRecord → Option Account
  imported now none = none
  imported now (some r) = some (legacy_account now r)

  one_once :
      (now : ℕ) (s : Import) (r : LegacyRecord) (k : Text)
      → str_eq (name_key u r.name) k ≡ true
      → count_of s k ≡ times 1
      → get (next now s r).accounts k ≡ some (legacy_account now r)
  unfolding import_one
  one_once now s r k e c =
      let same : count_of s (name_key u r.name) ≡ times 1 =
        ap (count_of s) ((str_eq_iff (name_key u r.name) k).0 e) ∙ c in
      rw (same, import_one) (get-put s.accounts (name_key u r.name) k (legacy_account now r) ∙ rw e)

  import-once :
      (now : ℕ) (s : Import) (rs : List LegacyRecord) (k : Text)
      → count_of s k ≡ times 1
      → occurs k rs ≡ 1
      → get (import_records u now s rs).accounts k ≡ imported now (record_of k rs)
  unfolding import_records occurs record_of
  import-once now s [] k c h = absurd (omega (arith, h))
  import-once now s (r ∷ rs) k c h = elim (Bool-cases (str_eq (name_key u r.name) k)) [
    | inl e ↦
        import-absent now (next now s r) rs k (ground (arith, h, e)) ∙ one_once now s r k e c ∙ rw e
    | inr e ↦
        let (kept, again) = one_other now s r k (count_of s (name_key u r.name)) e in
        import-once now (next now s r) rs k (ap seen_or_zero again ∙ c) (ground (arith, h, e))
        ∙ rw e
  ]

  abbrev start : List LegacyRecord → Import
  start rs = record { seen = count_seen u [] rs; accounts = []; imported = 0 }

  count_of-start : (rs : List LegacyRecord) (k : Text) → count_of (start rs) k ≡ times (occurs k rs)
  unfolding get
  count_of-start rs k = count_seen-occurs [] rs k 0 refl ∙ ap times (omega arith)

  import-by_count :
      (now : ℕ) (rs : List LegacyRecord) (k : Text) (n : ℕ)
      → occurs k rs ≡ n
      → get (import_records u now (start rs) rs).accounts k
        ≡ (if n == 1 then imported now (record_of k rs) else none)
  unfolding get
  import-by_count now rs k zero e = import-absent now (start rs) rs k e
  import-by_count now rs k (suc zero) e =
      import-once now (start rs) rs k (count_of-start rs k ∙ ap times e) e
  import-by_count now rs k (suc (suc n)) e =
      import-Repeated now (start rs) rs k
        (subst Repeated (sym (count_of-start rs k ∙ ap times e)) (omega arith))
      ∙ ground arith

  -- Of the records in the older user file, those and only those are imported whose name appears in
  -- one record, in whatever case.
  pub get-import_legacy :
      (now : ℕ) (lines : List Text) (k : Text)
      → let rs = legacy_records u lines in
        get (import_legacy u now [] lines).accounts k
        ≡ (if occurs k rs == 1 then imported now (record_of k rs) else none)
  unfolding import_legacy
  get-import_legacy now lines k =
      import-by_count now (legacy_records u lines) k (occurs k (legacy_records u lines)) refl
