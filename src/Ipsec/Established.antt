-- ===== src/Ipsec/Established.antt =====
-- quansec/protocols/ipsec/vici_client.py and collector.py: tunnels with child associations, and the state
-- ESTABLISHED that the summary, the alerts and the scores look for.
use quansec_pqc_platform.Prelude.{
  ℕ, ◌≡◌, refl, Bool, true, false, some, List, [], ◌∷◌, ◌++◌, map, Text, codes, eq_text, count, All,
  arith, suc, if◌then◌else◌, upper,
}
use quansec_pqc_platform.Ipsec.Sas.{
  Tunnel, IkeSa, ChildSa, child_state, child_tunnel, tunnels_of, normalise_sa,
}
use quansec_pqc_platform.Ipsec.Collector.{tunnel_summary}

abbrev pub is_up : Tunnel → Bool
is_up t = eq_text t.state (codes "ESTABLISHED")

-- The state that strongSwan gives for a child whose traffic is protected.
abbrev pub IsInstalled : Text × ChildSa → Type 0
IsInstalled (name, child) = child.state ≡ some (codes "INSTALLED")

-- There are children, and all are installed.
abbrev pub AllInstalled : List (Text × ChildSa) → Type 0
AllInstalled [] = ⊥
AllInstalled (child ∷ children) = All IsInstalled (child ∷ children)

abbrev pub HasInstalled : Text × IkeSa → Type 0
HasInstalled (name, ike) = AllInstalled ike.child_sas

not_up :
    (now : ℕ) (name : Text) (ike : IkeSa) (child : Text × ChildSa)
    → IsInstalled child
    → is_up (child_tunnel now name ike child) ≡ false
unfolding child_tunnel child_state upper eq_text
not_up now name ike (child_name, child) e = rw e refl

count-++ :
    (xs ys : List Tunnel) → count is_up xs ≡ 0 → count is_up ys ≡ 0 → count is_up (xs ++ ys) ≡ 0
count-++ [] ys h k = k
count-++ (x ∷ xs) ys h k = by_test (is_up x) h (count-++ xs ys)
  where
    by_test :
        (b : Bool)
        → (if b then suc (count is_up xs) else count is_up xs) ≡ 0
        → (count is_up xs ≡ 0 → count is_up ys ≡ 0 → count is_up (xs ++ ys) ≡ 0)
        → (if b then suc (count is_up (xs ++ ys)) else count is_up (xs ++ ys)) ≡ 0
    by_test true e rest = absurd (omega arith)
    by_test false e rest = rest e k

none_up :
    (now : ℕ) (name : Text) (ike : IkeSa) (children : List (Text × ChildSa))
    → All IsInstalled children
    → count is_up (map (child_tunnel now name ike) children) ≡ 0
none_up now name ike [] h = refl
none_up now name ike (child ∷ children) (e, h) =
    rw (not_up now name ike child e) (none_up now name ike children h)

tunnels_not_up :
    (now : ℕ) (name : Text) (ike : IkeSa) (children : List (Text × ChildSa))
    → AllInstalled children
    → count is_up (tunnels_of now name ike children) ≡ 0
unfolding tunnels_of
tunnels_not_up now name ike [] h = absurd h
tunnels_not_up now name ike (child ∷ children) h = none_up now name ike (child ∷ children) h

sas_not_up :
    (now : ℕ) (sas : List (Text × IkeSa))
    → All HasInstalled sas
    → count is_up (normalise_sa now sas) ≡ 0
unfolding normalise_sa
sas_not_up now [] h = refl
sas_not_up now ((name, ike) ∷ sas) (e, h) =
    count-++ (tunnels_of now name ike ike.child_sas) (normalise_sa now sas)
      (tunnels_not_up now name ike ike.child_sas e) (sas_not_up now sas h)

-- Where every association has children and all of them are installed, no tunnel is ESTABLISHED, whatever
-- the state of the associations themselves is: the summary counts none as up.
pub installed_never_up :
    (now : ℕ) (sas : List (Text × IkeSa))
    → All HasInstalled sas
    → (tunnel_summary (normalise_sa now sas)).up ≡ 0
unfolding tunnel_summary
installed_never_up now sas h = sas_not_up now sas h
