-- ===== src/Mailbox/Order.antt =====
-- The order in which letters are handed out.
use tarion.Base.{◌≡◌, true, false, arith}
use tarion.Base.Sort.{IsOrder}
use tarion.Text.{Text}
use tarion.Text.Order.{str_lt, str_lt_trans, str_lt_irrefl, str_lt_connected}
use tarion.Mailbox.{StoredLetter, older}

pub str_lt_asym : (a b : Text) → str_lt a b ≡ true → str_lt b a ≡ false
str_lt_asym a b h = ground (arith, str_lt_trans a b a h, str_lt_irrefl a)

-- `<=` of strings is transitive.
pub str_le_trans : (a b c : Text) → str_lt b a ≡ false → str_lt c b ≡ false → str_lt c a ≡ false
str_le_trans a b c h k = ground (arith, str_lt_trans c a b, str_lt_connected a b)

older_asym : (a b : StoredLetter) → older a b ≡ true → older b a ≡ false
unfolding older
older_asym a b h = ground (arith, str_lt_asym a.id b.id)

older_le_trans : (a b c : StoredLetter) → older b a ≡ false → older c b ≡ false → older c a ≡ false
unfolding older
older_le_trans a b c h k = ground (arith, str_le_trans a.id b.id c.id)

-- Older letters come first, and letters of one second by their IDs.
pub older-IsOrder : IsOrder older
older-IsOrder = record { asym = older_asym; le_trans = older_le_trans }
