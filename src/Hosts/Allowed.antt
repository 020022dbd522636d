-- ===== src/Hosts/Allowed.antt =====
-- cli/internal/helper/validate.go: what `ValidateHosts` lets through to /etc/hosts.
use mathlib.Core.Path.{subst}
use roxey.Base.{
  ◌≤◌, ◌≡◌, ◌⊎◌, true, ◌&&◌, List, [], ◌∷◌, inl, inr, none, arith, Bytes, codes, equal, equal_iff,
  is_empty, length, ltb, All, Bool-cases, Option-cases,
}
use roxey.Hosts.{
  seen_in, valid_hostname, matches_any_tld, check_entry, check_entries, validate_hosts, max_hosts,
}

-- A name under one of the domains: a host name, or `localhost` where that is a domain.
abbrev pub IsAllowed : List Bytes → Bytes → Type 0
IsAllowed tlds e =
    ((e ≡ codes "localhost") × (seen_in (codes "localhost") tlds ≡ true))
    ⊎ ((valid_hostname e ≡ true) × (matches_any_tld e tlds ≡ true))

check_entry-IsAllowed :
    (tlds : List Bytes) (e : Bytes) → check_entry tlds e ≡ none → IsAllowed tlds e
unfolding check_entry
check_entry-IsAllowed tlds e h =
    elim (Bool-cases (equal e (codes "localhost") && seen_in (codes "localhost") tlds)) [
      | inl local ↦ inl ((equal_iff e (codes "localhost")).0 (ground arith), ground arith)
      | inr other ↦ inr (ground arith, ground arith)
    ]

seen_in-All :
    (P : Bytes → Type 0) (e : Bytes) (seen : List Bytes) → All P seen → seen_in e seen ≡ true → P e
unfolding seen_in
seen_in-All P e [] a h = cc
seen_in-All P e (x ∷ seen) a h = elim (Bool-cases (equal x e)) [
  | inl same ↦ subst P ((equal_iff x e).0 same) a.0
  | inr other ↦ seen_in-All P e seen a.1 (ground arith)
]

check_entries-IsAllowed :
    (tlds seen es : List Bytes)
    → All (IsAllowed tlds) seen
    → check_entries tlds seen es ≡ none
    → All (IsAllowed tlds) es
unfolding check_entries
check_entries-IsAllowed tlds seen [] a h = tt
check_entries-IsAllowed tlds seen (e ∷ es) a h = elim (Bool-cases (is_empty e)) [
  | inl empty ↦ absurd (ground arith)
  | inr nonempty ↦ elim (Bool-cases (seen_in e seen)) [
    | inl old ↦ (
      seen_in-All (IsAllowed tlds) e seen a old,
      check_entries-IsAllowed tlds seen es a (ground arith),
    )
    | inr new ↦ elim (Option-cases (check_entry tlds e)) [
      | inr (why, bad) ↦ absurd (ground arith)
      | inl good ↦
          let fine = check_entry-IsAllowed tlds e good in
          (fine, check_entries-IsAllowed tlds (e ∷ seen) es (fine, a) (ground arith))
    ]
  ]
]

-- Whatever list passes, duplicates included, is of bounded length, and every entry is allowed.
pub validate_hosts-IsAllowed :
    (entries tlds : List Bytes)
    → validate_hosts entries tlds ≡ none
    → (length entries ≤ max_hosts) × All (IsAllowed tlds) entries
unfolding validate_hosts
validate_hosts-IsAllowed entries tlds h = elim (Bool-cases (ltb max_hosts (length entries))) [
  | inl many ↦ absurd (ground arith)
  | inr few ↦ (ground arith, check_entries-IsAllowed tlds [] entries tt (ground arith))
]
