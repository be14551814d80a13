-- ===== src/Storage/Resealed/Whole.antt =====
-- What reads as it did after Reseal: every file of the client.
use tarion.Base.{
  ◌≡◌, refl, sym, ap, inl, inr, Bool, true, false, Option, none, some, List, Bool-cases, length,
  All, Result, ok, err, ok-injective,
}
use tarion.Text.{Text, IsBytes}
use tarion.Vault.{Crypto, VaultError, nonce_size, seal, is_sealed, open_sealed}
use tarion.Vault.Opening.{seal-key, magic-is_sealed, open_sealed-seal}
use tarion.Storage.{
  OnDisk, missing, broken, file, StoreError, of_vault, unseal, read_sealed, sealed_data,
  write_sealed, write_bytes,
}
use tarion.Storage.Lines.{body_of, raw_lines-body_of}
use tarion.Storage.Reseal.{
  Place, Chances, rewrite_whole, reseal_whole, seal_lines, lines_of, body_result, rewrite_lines,
  reseal_lines,
}
use tarion.Storage.Resealed.OneLine.{MakesBytes, AreNonces, of_vault-ok, seal_lines-open_lines}

abbrev Written : Type 0
Written = OnDisk × Option StoreError

write_bytes-ok :
    (written : Bool) (old new : OnDisk) (r : Result StoreError Text)
    → ◌≡◌ {A = Written} (write_bytes written old r) (new, none)
    → (b : Text) × ((r ≡ ok b) × (new ≡ file b))
write_bytes-ok written old new (err e) h = cc
write_bytes-ok true old new (ok b) h = (b, (refl, sym (ap (λ p. p.0) h)))
write_bytes-ok false old new (ok b) h = cc

body_result-ok :
    (r : Result StoreError (List Text)) (body : Text)
    → body_result r ≡ ok body
    → (out : List Text) × ((r ≡ ok out) × (body ≡ body_of out))
body_result-ok (err e) body h = cc
body_result-ok (ok out) body h = (out, (refl, sym (ok-injective h)))

-- What is sealed with a key reads with it.
read_sealed-sealed_data :
    (c : Crypto) (key nonce kind bytes sealed : Text)
    → length nonce ≡ nonce_size
    → sealed_data c (some key) nonce kind bytes ≡ ok sealed
    → read_sealed c (some key) kind (file sealed) ≡ ok bytes
unfolding sealed_data read_sealed unseal
read_sealed-sealed_data c key nonce kind bytes sealed hn h =
    let h' = of_vault-ok (seal c nonce key kind bytes) sealed h in
    let is : is_sealed sealed ≡ true =
      rw ((seal-key c nonce key kind bytes sealed h').1) (magic-is_sealed _) in
    rw is (ap of_vault (open_sealed-seal c nonce key kind bytes sealed hn h'))

module _ (c : Crypto) (from : Option Text) (key : Text) (d : Chances) where
  rewrite_whole-read :
      (p : Place) (kind bytes : Text) (disk disk' : OnDisk)
      → length (d.nonce p 0) ≡ nonce_size
      → ◌≡◌ {A = Written} (rewrite_whole c (some key) d p kind disk (ok bytes)) (disk', none)
      → read_sealed c (some key) kind disk' ≡ ok bytes
  unfolding rewrite_whole write_sealed
  rewrite_whole-read p kind bytes disk disk' hn h =
      let (b, (hb, same)) =
        write_bytes-ok (d.can_write p) disk disk'
          (sealed_data c (some key) (d.nonce p 0) kind bytes) h in
      rw same (read_sealed-sealed_data c key (d.nonce p 0) kind bytes b hn hb)

  rewrite_unsealed :
      (p : Place) (kind : Text) (disk disk' : OnDisk) (r : Result VaultError Text)
      → length (d.nonce p 0) ≡ nonce_size
      → ◌≡◌ {A = Written} (rewrite_whole c (some key) d p kind disk (of_vault r)) (disk', none)
      → read_sealed c (some key) kind disk' ≡ of_vault r
  unfolding rewrite_whole
  rewrite_unsealed p kind disk disk' (ok bytes) hn h =
      rewrite_whole-read p kind bytes disk disk' hn h
  rewrite_unsealed p kind disk disk' (err e) hn h = cc

  rewrite_sealed :
      (k : Option Text) (p : Place) (kind b : Text) (disk disk' : OnDisk)
      → length (d.nonce p 0) ≡ nonce_size
      → ◌≡◌ {A = Written}
          (rewrite_whole c (some key) d p kind disk (unseal c k kind b))
          (disk', none)
      → read_sealed c (some key) kind disk' ≡ unseal c k kind b
  unfolding rewrite_whole unseal
  rewrite_sealed none p kind b disk disk' hn h = cc
  rewrite_sealed (some k) p kind b disk disk' hn h =
      rewrite_unsealed p kind disk disk' (open_sealed c k kind b) hn h

  -- A whole file that was resealed reads as it did.
  pub reseal_whole-read :
      (p : Place) (kind : Text) (disk disk' : OnDisk)
      → length (d.nonce p 0) ≡ nonce_size
      → ◌≡◌ {A = Written} (reseal_whole c from (some key) d p kind disk) (disk', none)
      → read_sealed c (some key) kind disk' ≡ read_sealed c from kind disk
  unfolding reseal_whole read_sealed rewrite_whole
  reseal_whole-read p kind missing disk' hn h = rw (sym (ap (λ x. x.0) h)) refl
  reseal_whole-read p kind broken disk' hn h = cc
  reseal_whole-read p kind (file b) disk' hn h = elim (Bool-cases (is_sealed b)) [
    | inl e ↦ rw e (rewrite_sealed from p kind b (file b) disk' hn (rw e at h))
    | inr e ↦ rw e (rewrite_whole-read p kind b (file b) disk' hn (rw e at h))
  ]

  -- The lines of a file that was resealed are those that it had.
  abbrev pub KeepsLines : Text → OnDisk → OnDisk → Type 0
  KeepsLines kind disk disk' =
      (ls : List Text)
      → All IsBytes ls
      → lines_of c from kind disk ≡ ok ls
      → lines_of c (some key) kind disk' ≡ ok ls

  pub reseal_lines-KeepsLines :
      (p : Place) (kind : Text) (disk disk' : OnDisk)
      → MakesBytes c
      → IsBytes key
      → AreNonces (d.nonce p)
      → ◌≡◌ {A = Written} (reseal_lines c from (some key) d p kind disk) (disk', none)
      → KeepsLines kind disk disk'
  unfolding reseal_lines rewrite_lines lines_of
  reseal_lines-KeepsLines p kind missing disk' mb kb hn h ls lb hl = cc
  reseal_lines-KeepsLines p kind broken disk' mb kb hn h ls lb hl = cc
  reseal_lines-KeepsLines p kind (file b) disk' mb kb hn h ls lb hl =
      let sealed = seal_lines c (some key) (d.nonce p) 0 kind ls in
      let (body, (hb, same)) =
        write_bytes-ok (d.can_write p) (file b) disk' (body_result sealed) (rw hl at h) in
      let (out, (ho, at_body)) = body_result-ok sealed body hb in
      let (opens, lines) = seal_lines-open_lines c key (d.nonce p) 0 kind ls out mb kb hn lb ho in
      rw (same, at_body, raw_lines-body_of out lines) opens
