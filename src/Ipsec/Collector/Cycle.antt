-- ===== src/Ipsec/Collector/Cycle.antt =====
-- quansec/protocols/ipsec/collector.py: the two steps of a polling cycle, seen from one name.
use quansec_pqc_platform.Prelude.{
  ℕ, ◌+◌, ◌≡◌, refl, sym, ap, ◌∙◌, subst, ◌⊎◌, inl, inr, Bool, true, false, not, ◌&&◌, Option, none,
  some, List, [], ◌∷◌, map, Text, eq_text, eq_text_refl, eq_text_sound, any, find, ltb, arith,
  Bool-cases, if◌then◌else◌,
}
use quansec_pqc_platform.Ipsec.Sas.{Tunnel}
use quansec_pqc_platform.Ipsec.Collector.{
  TunnelRow, coalesce, is_named, updated_row, upsert_tunnel, upsert_tunnels, goes_down, put_down,
  settle, down,
}

abbrev pub row_of : Text → List TunnelRow → Option TunnelRow
row_of name rows = find (is_named name) rows

-- The last report of the name among the tunnels.
abbrev pub later_or : Option Tunnel → Option Tunnel → Option Tunnel
later_or none o = o
later_or (some t) o = some t

unfoldable pub report_of : Text → List Tunnel → Option Tunnel
report_of name [] = none
report_of name (t ∷ ts) =
    later_or (report_of name ts) (if eq_text t.name name then some t else none)

-- The row has what the report says in the columns that are updated, and was seen just now. A time of
-- establishment that the report has is taken over.
pub record Shows (now : ℕ) (t : Tunnel) (r : TunnelRow) : Type 0 where
  pub seen_now : r.last_seen ≡ now
  pub same_state : r.tunnel.state ≡ t.state
  pub same_pqc : (r.tunnel.pqc_enabled ≡ t.pqc_enabled) × (r.tunnel.pqc_kem ≡ t.pqc_kem)
  pub same_proposals :
      (r.tunnel.ike_proposal ≡ t.ike_proposal) × (r.tunnel.esp_proposal ≡ t.esp_proposal)
  pub same_bytes : (r.tunnel.bytes_in ≡ t.bytes_in) × (r.tunnel.bytes_out ≡ t.bytes_out)
  pub same_packets : (r.tunnel.packets_in ≡ t.packets_in) × (r.tunnel.packets_out ≡ t.packets_out)
  pub same_name : r.tunnel.name ≡ t.name
  pub same_time : (t.established_at ≡ none) ⊎ (r.tunnel.established_at ≡ t.established_at)

abbrev pub Shown : ℕ → Tunnel → Option TunnelRow → Type 0
Shown now t none = ⊥
Shown now t (some r) = Shows now t r

Shows-inserted : (now : ℕ) (t : Tunnel) → Shows now t (record { tunnel = t; last_seen = now })
Shows-inserted now t = record {
  seen_now = refl;
  same_state = refl;
  same_pqc = (refl, refl);
  same_proposals = (refl, refl);
  same_bytes = (refl, refl);
  same_packets = (refl, refl);
  same_name = refl;
  same_time = inr refl;
}

Shows-updated :
    (now : ℕ) (t : Tunnel) (r : TunnelRow)
    → eq_text r.tunnel.name t.name ≡ true
    → Shows now t (updated_row now t r)
unfolding updated_row
Shows-updated now t r same = record {
  seen_now = refl;
  same_state = refl;
  same_pqc = (refl, refl);
  same_proposals = (refl, refl);
  same_bytes = (refl, refl);
  same_packets = (refl, refl);
  same_name = eq_text_sound r.tunnel.name t.name same;
  same_time = taken t.established_at r.tunnel.established_at;
}
  where
    taken : (o p : Option ℕ) → (o ≡ none) ⊎ (coalesce o p ≡ o)
    taken none p = inl refl
    taken (some at) p = inr refl

upsert-same :
    (now : ℕ) (t : Tunnel) (rows : List TunnelRow)
    → Shown now t (row_of t.name (upsert_tunnel now t rows))
unfolding upsert_tunnel is_named updated_row
upsert-same now t [] = rw (eq_text_refl t.name) (Shows-inserted now t)
upsert-same now t (r ∷ rows) = elim (Bool-cases (eq_text r.tunnel.name t.name)) [
  | inl same ↦ rw (same, same) (Shows-updated now t r same)
  | inr other ↦ rw (other, other) (upsert-same now t rows)
]

upsert-other :
    (now : ℕ) (name : Text) (t : Tunnel) (rows : List TunnelRow)
    → eq_text t.name name ≡ false
    → row_of name (upsert_tunnel now t rows) ≡ row_of name rows
unfolding upsert_tunnel is_named updated_row
upsert-other now name t [] other = rw other refl
upsert-other now name t (r ∷ rows) other = elim (Bool-cases (eq_text r.tunnel.name t.name)) [
  | inl same ↦ rw same (
      let differs : eq_text r.tunnel.name name ≡ false =
        subst (λ n. eq_text n name ≡ false) (sym (eq_text_sound r.tunnel.name t.name same)) other in
      rw differs refl)
  | inr apart ↦ rw apart (
      ap (λ o. if eq_text r.tunnel.name name then some r else o)
        (upsert-other now name t rows other))
]

-- What became of the row of a name.
abbrev pub After : ℕ → Text → List TunnelRow → List TunnelRow → Option Tunnel → Type 0
After now name before after none = row_of name after ≡ row_of name before
After now name before after (some t) = Shown now t (row_of name after)

After-upsert_tunnel :
    (now : ℕ) (name : Text) (t : Tunnel) (before after : List TunnelRow) (later : Option Tunnel)
    → After now name (upsert_tunnel now t before) after later
    → After now name before after (later_or later (if eq_text t.name name then some t else none))
After-upsert_tunnel now name t before after (some later) h = h
After-upsert_tunnel now name t before after none h = elim (Bool-cases (eq_text t.name name)) [
  | inl same ↦
      rw (same, h)
        (subst (λ n. Shown now t (row_of n (upsert_tunnel now t before)))
          (eq_text_sound t.name name same) (upsert-same now t before))
  | inr other ↦ rw other (h ∙ upsert-other now name t before other)
]

pub upserts :
    (now : ℕ) (name : Text) (ts : List Tunnel) (rows : List TunnelRow)
    → After now name rows (upsert_tunnels now ts rows) (report_of name ts)
unfolding upsert_tunnels report_of
upserts now name [] rows = refl
upserts now name (t ∷ ts) rows =
    After-upsert_tunnel now name t rows (upsert_tunnels now ts (upsert_tunnel now t rows))
      (report_of name ts) (upserts now name ts (upsert_tunnel now t rows))

abbrev pub settled : (TunnelRow → TunnelRow) → Option TunnelRow → Option TunnelRow
settled f none = none
settled f (some r) = some (f r)

is_named-settle :
    (now : ℕ) (seen : List Text) (name : Text) (r : TunnelRow)
    → is_named name (settle now seen r) ≡ is_named name r
unfolding settle put_down is_named
is_named-settle now seen name r = by_test (goes_down now seen r)
  where
    by_test : (b : Bool) → is_named name (if b then put_down r else r) ≡ is_named name r
    by_test true = refl
    by_test false = refl

pub row_of-settle :
    (now : ℕ) (seen : List Text) (name : Text) (rows : List TunnelRow)
    → row_of name (map (settle now seen) rows) ≡ settled (settle now seen) (row_of name rows)
row_of-settle now seen name [] = refl
row_of-settle now seen name (r ∷ rows) =
    rw (is_named-settle now seen name r, row_of-settle now seen name rows)
      (by_test (is_named name r))
  where
    by_test :
        (b : Bool)
        → (if b then some (settle now seen r) else settled (settle now seen) (row_of name rows))
          ≡ settled (settle now seen) (if b then some r else row_of name rows)
    by_test true = refl
    by_test false = refl

-- A row that is not down goes down when it was last seen more than thirty seconds ago.
unfoldable pub lapse : ℕ → TunnelRow → TunnelRow
unfolding put_down
lapse now r =
    if not (eq_text r.tunnel.state down) && ltb (r.last_seen + 30) now then put_down r else r

pub settle-fresh :
    (now : ℕ) (seen : List Text) (r : TunnelRow) → r.last_seen ≡ now → settle now seen r ≡ r
unfolding settle goes_down
settle-fresh now seen r e =
    let late : ltb (r.last_seen + 30) now ≡ false = ground (arith, e) in
    let stays : goes_down now seen r ≡ false = ground (arith, late) in rw stays refl

pub settle-unseen :
    (now : ℕ) (seen : List Text) (r : TunnelRow)
    → any (λ s. eq_text s r.tunnel.name) seen ≡ false
    → settle now seen r ≡ lapse now r
unfolding settle goes_down lapse
settle-unseen now seen r unseen =
    rw unseen (by_tests (not (eq_text r.tunnel.state down)) (ltb (r.last_seen + 30) now))
  where
    by_tests :
        (a b : Bool)
        → (if a && b && not false then put_down r else r) ≡ (if a && b then put_down r else r)
    by_tests true true = refl
    by_tests true false = refl
    by_tests false b = refl
