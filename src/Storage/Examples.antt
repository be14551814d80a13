-- ===== src/Storage/Examples.antt =====
-- Resealing at a concrete input: plain files that are sealed for the first time.
use tarion.Base.{true, none, some, [], ◌∷◌, ◌++◌}
use tarion.Text.{Text, text}
use tarion.Samples.{ascii_tables}
use tarion.Vault.Examples.{toy, nonce, data_key}
use tarion.Storage.{missing, file}
use tarion.Storage.Reseal.{Files, Chances, reseal}

abbrev chances : Chances
chances = record { nonce = λ p n. nonce; can_write = λ p. true }

abbrev plain_files : Files
plain_files = record {
  identity = file (text "id");
  peers = missing;
  outbox = missing;
  dropped = file (text "x" ++ (10 ∷ []));
  histories = (text "bob.txt", file (text "hi" ++ (10 ∷ []))) ∷ [];
}

abbrev sealed_files : Files
sealed_files = (reseal ascii_tables toy none (some data_key) chances plain_files).0
