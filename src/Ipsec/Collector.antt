-- ===== src/Ipsec/Collector.antt =====
-- quansec/protocols/ipsec/collector.py: the polling cycle. The times are seconds; one cycle takes no time.
pub mod Cycle
pub mod Recorded
use quansec_pqc_platform.Prelude.{
  ℕ, ◌+◌, ◌-◌, Bool, true, false, ◌&&◌, not, Option, none, some, List, [], ◌∷◌, ◌++◌, map, Text,
  codes, eq_text, any, keep, count, length, ltb, if◌then◌else◌,
}
use quansec_pqc_platform.Ipsec.Sas.{Tunnel, IkeSa, normalise_sa}

-- A row of ipsec_tunnels.
pub record TunnelRow : Type 0 where
  pub tunnel : Tunnel
  pub last_seen : ℕ

-- A row of ipsec_events; the reason is the only key of its detail.
pub record TunnelEvent : Type 0 where
  pub tunnel_name : Text
  pub event_type : Text
  pub reason : Text

pub record IpsecDb : Type 0 where
  pub rows : List TunnelRow
  pub events : List TunnelEvent

unfoldable pub is_named : Text → TunnelRow → Bool
is_named name r = eq_text r.tunnel.name name

abbrev pub coalesce : Option ℕ → Option ℕ → Option ℕ
coalesce none o = o
coalesce (some n) o = some n

-- ON CONFLICT (name) DO UPDATE: the hosts, their ids and the version stay.
unfoldable pub updated_row : ℕ → Tunnel → TunnelRow → TunnelRow
updated_row now t r = record {
  tunnel = record r.tunnel {
    state = t.state;
    ike_proposal = t.ike_proposal;
    esp_proposal = t.esp_proposal;
    pqc_kem = t.pqc_kem;
    pqc_enabled = t.pqc_enabled;
    bytes_in = t.bytes_in;
    bytes_out = t.bytes_out;
    packets_in = t.packets_in;
    packets_out = t.packets_out;
    established_at = coalesce t.established_at r.tunnel.established_at;
  };
  last_seen = now;
}

unfoldable pub upsert_tunnel : ℕ → Tunnel → List TunnelRow → List TunnelRow
unfolding is_named updated_row
upsert_tunnel now t [] = record { tunnel = t; last_seen = now } ∷ []
upsert_tunnel now t (r ∷ rows) =
    let rest = upsert_tunnel now t rows in
    if is_named t.name r then updated_row now t r ∷ rows else r ∷ rest

unfoldable pub upsert_tunnels : ℕ → List Tunnel → List TunnelRow → List TunnelRow
unfolding upsert_tunnel
upsert_tunnels now [] rows = rows
upsert_tunnels now (t ∷ ts) rows = upsert_tunnels now ts (upsert_tunnel now t rows)

abbrev pub down : Text
down = codes "DOWN"

-- The selected rows, without those that were seen.
unfoldable pub goes_down : ℕ → List Text → TunnelRow → Bool
goes_down now seen r =
    not (eq_text r.tunnel.state down)
    && ltb (r.last_seen + 30) now
    && not (any (λ s. eq_text s r.tunnel.name) seen)

unfoldable pub put_down : TunnelRow → TunnelRow
put_down r = record r { tunnel = record r.tunnel { state = down } }

unfoldable pub settle : ℕ → List Text → TunnelRow → TunnelRow
unfolding goes_down put_down
settle now seen r = if goes_down now seen r then put_down r else r

abbrev pub down_event : TunnelRow → TunnelEvent
down_event r = record {
  tunnel_name = r.tunnel.name;
  event_type = down;
  reason = codes "not seen in last poll cycle";
}

unfoldable pub mark_stale_tunnels_down : ℕ → List Text → IpsecDb → IpsecDb
unfolding settle goes_down
mark_stale_tunnels_down now seen db = record {
  rows = map (settle now seen) db.rows;
  events = db.events ++ map down_event (keep (goes_down now seen) db.rows);
}

abbrev pub name_of : Tunnel → Text
name_of t = t.name

unfoldable pub record_tunnels : ℕ → List Tunnel → IpsecDb → IpsecDb
unfolding upsert_tunnels mark_stale_tunnels_down
record_tunnels now tunnels db =
    mark_stale_tunnels_down now (map name_of tunnels)
      (record db { rows = upsert_tunnels now tunnels db.rows })

-- A cycle: `none` when there is no connection to strongSwan.
unfoldable pub poll_once : ℕ → Option (List (Text × IkeSa)) → IpsecDb → IpsecDb
unfolding record_tunnels
poll_once now none db = db
poll_once now (some sas) db = record_tunnels now (normalise_sa now sas) db

pub record Summary : Type 0 where
  pub total : ℕ
  pub up : ℕ
  pub down_count : ℕ
  pub pqc_count : ℕ

-- publish_summary, without the percentage and the time.
unfoldable pub tunnel_summary : List Tunnel → Summary
tunnel_summary tunnels = record {
  total = length tunnels;
  up = count (λ (t : Tunnel). eq_text t.state (codes "ESTABLISHED")) tunnels;
  down_count =
      length tunnels - count (λ (t : Tunnel). eq_text t.state (codes "ESTABLISHED")) tunnels;
  pqc_count = count (λ (t : Tunnel). t.pqc_enabled) tunnels;
}
