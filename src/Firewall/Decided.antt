-- ===== src/Firewall/Decided.antt =====
-- What Decide decides, whatever the order of the rules.
use tarion.Base.{
  ℕ, ◌≡◌, refl, Bool, true, false, not, ◌&&◌, ◌||◌, List, [], ◌∷◌, arith, ◌==◌, Bool-cases,
}
use tarion.Text.{Text}
use tarion.Text.Lower.{Unicode}
use tarion.Firewall.{Rule, Report, Status, open_port, blocked, is_for_us, decide_rules, decide}

abbrev pub is_blocked : Status → Bool
is_blocked open_port = false
is_blocked (blocked r) = true

-- A rule of this kind that is about us stands in the list.
abbrev pub has_rule : Unicode → Text → ℕ → ℕ → List Rule → Bool
has_rule u exe port action [] = false
has_rule u exe port action (r ∷ rs) =
    r.action == action && is_for_us u exe port r || has_rule u exe port action rs

decide_rules-blocked :
    (u : Unicode) (exe : Text) (port : ℕ) (allowed : Bool) (rs : List Rule)
    → is_blocked (decide_rules u exe port allowed rs)
      ≡ (has_rule u exe port 0 rs || not (allowed || has_rule u exe port 1 rs))
unfolding decide_rules
decide_rules-blocked u exe port true [] = refl
decide_rules-blocked u exe port false [] = refl
decide_rules-blocked u exe port allowed (r ∷ rs) = ground (
  arith,
  decide_rules-blocked u exe port allowed rs,
  decide_rules-blocked u exe port true rs,
  Bool-cases (is_for_us u exe port r),
)

-- Decide says that incoming messages are blocked exactly if the firewall is on and blocks by
-- default, and a rule that is about this program, this port and every remote address blocks them,
-- or no such rule allows them; so the order of the rules does not count.
pub decide-is_blocked :
    (u : Unicode) (report : Report) (exe : Text) (port : ℕ)
    → is_blocked (decide u report exe port) ≡ (
        (report.enabled && report.default_block)
        && (has_rule u exe port 0 report.rules || not (has_rule u exe port 1 report.rules)))
unfolding decide
decide-is_blocked u report exe port = ground (
  arith,
  decide_rules-blocked u exe port false report.rules,
  Bool-cases report.enabled,
  Bool-cases report.default_block,
)
