-- ===== src/Firewall/Examples.antt =====
-- The firewall at a concrete input: a rule blocks this program.
use tarion.Base.{◌≡◌, true, not, ◌&&◌, ◌||◌, [], ◌∷◌}
use tarion.Text.{text}
use tarion.Samples.{ascii_tables}
use tarion.Firewall.{Rule, Report, decide}
use tarion.Firewall.Decided.{is_blocked, has_rule, decide-is_blocked}

abbrev cancelled : Rule
cancelled = record { app = text "tarion.exe"; ports = text "*"; remote = []; action = 0 }

abbrev report : Report
report = record { enabled = true; default_block = true; rules = cancelled ∷ [] }

decide-is_blocked_example : is_blocked (decide ascii_tables report (text "tarion.exe") 5) ≡ (
    true
    && (has_rule ascii_tables (text "tarion.exe") 5 0 report.rules
        || not (has_rule ascii_tables (text "tarion.exe") 5 1 report.rules)))
decide-is_blocked_example = decide-is_blocked ascii_tables report (text "tarion.exe") 5
