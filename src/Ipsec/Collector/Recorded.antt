-- ===== src/Ipsec/Collector/Recorded.antt =====
-- quansec/protocols/ipsec/collector.py: what a polling cycle makes of each tunnel.
use quansec_pqc_platform.Prelude.{ℕ, ◌≡◌, Option, none, some, List, Text}
use quansec_pqc_platform.Ipsec.Sas.{Tunnel}
use quansec_pqc_platform.Ipsec.Collector.{TunnelRow}
use quansec_pqc_platform.Ipsec.Collector.Cycle.{row_of, Shows, settled, lapse}

-- The row has the updated columns of the report, or is the row of before, down when it lapsed.
abbrev pub Recorded : ℕ → Text → List TunnelRow → List TunnelRow → Option Tunnel → Type 0
Recorded now name before after none = row_of name after ≡ settled (lapse now) (row_of name before)
Recorded now name before after (some t) =
    (r : TunnelRow) × (row_of name after ≡ some r) × Shows now t r
