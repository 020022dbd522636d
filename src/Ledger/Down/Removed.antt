-- ===== src/Ledger/Down/Removed.antt =====
-- cli/main.go: what belongs to a manifest is gone after the teardown or `down`.
use mathlib.Core.Path.{subst}
use roxey.Base.{
  ◌≡◌, refl, sym, ap, ◌∙◌, ◌⊎◌, inl, inr, Bool, true, false, not, List, [], ◌∷◌, none, some, arith,
  Bytes, equal, equal_iff, Dict, lookup, delete, All, All-map, All-kept, Member, select, Bool-cases,
  Option-cases,
}
use roxey.Std.Path.{same_dir}
use roxey.Projects.{Project, forget}
use roxey.Ledger.{TunnelInfo, Ledger, of_manifest, service_of, teardown_manifest}
use roxey.Ledger.Down.{is_down, forget_dir, Down, down}

-- No entry is of the manifest at this path.
pub record IsClean (path : Bytes) (l : Ledger) : Type 0 where
  pub tunnels : All (λ e. of_manifest path e ≡ false) l.tunnels
  pub services : All (λ e. service_of path e ≡ false) l.services

clean_tunnels :
    (p : Bytes × TunnelInfo → Bool) (m : Dict TunnelInfo)
    → All (λ e. p e ≡ false) (select (λ e. not (p e)) m)
clean_tunnels p m = All-map _ _ (λ e h. ground arith) _ (All-kept (λ e. not (p e)) m)

teardown_manifest-IsClean : (l : Ledger) (path : Bytes) → IsClean path (teardown_manifest l path).0
unfolding teardown_manifest
teardown_manifest-IsClean l path = record {
  tunnels = clean_tunnels (of_manifest path) l.tunnels;
  services =
      All-map _ _ (λ e h. ground arith) _ (All-kept (λ e. not (service_of path e)) l.services);
}

All-forget :
    (P Q : Bytes × Project → Type 0) (k : Bytes) (m : Dict Project)
    → ((e : Bytes × Project) → P e → equal e.0 k ≡ false → Q e)
    → All P m
    → All Q (delete k m)
unfolding delete
All-forget P Q k [] f h = tt
All-forget P Q k ((j, p) ∷ m) f h = elim (Bool-cases (equal j k)) [
  | inl same ↦ rw (same, delete) (All-forget P Q k m f h.1)
  | inr other ↦ rw (other, delete) (f (j, p) h.0 other, All-forget P Q k m f h.1)
]

-- Every project is registered under its name.
abbrev pub IsNamed : Bytes × Project → Type 0
IsNamed e = e.1.name ≡ e.0

-- Not for the directory, or still to be visited by the loop.
abbrev IsPassed : Bytes → List (Bytes × Project) → Bytes × Project → Type 0
IsPassed dir ps e = (same_dir e.1.path dir ≡ false) ⊎ Member e ps

not_equal : (a b : Bytes) {x : Bytes} → equal a b ≡ false → x ≡ b → a ≡ x → ⊥
not_equal a b d e f =
    let same : equal a b ≡ true = (equal_iff a b).1 (f ∙ e) in absurd (ground arith)

still :
    (dir n : Bytes) (p : Project) (ps : Dict Project)
    → p.name ≡ n
    → (e : Bytes × Project) → IsPassed dir ((n, p) ∷ ps) e
    → equal e.0 p.name ≡ false
    → IsPassed dir ps e
still dir n p ps named e (inl h) other = inl h
still dir n p ps named e (inr (inl same)) other =
    absurd (not_equal e.0 p.name other (sym named) (sym (ap (λ x. x.0) same)))
still dir n p ps named e (inr (inr m)) other = inr m

delete-missing : (k : Bytes) (m : Dict Project) → lookup k m ≡ none → delete k m ≡ m
unfolding delete lookup
delete-missing k [] h = refl
delete-missing k ((j, p) ∷ m) h = elim (Bool-cases (equal j k)) [
  | inl same ↦ let bad : some p ≡ none = rw (same, lookup) at h in cc
  | inr other ↦ rw (other, delete) (ap (◌∷◌ (j, p)) (delete-missing k m (rw (other, lookup) at h)))
]

forget-IsPassed :
    (dir n : Bytes) (p : Project) (ps registry : Dict Project)
    → p.name ≡ n
    → All (IsPassed dir ((n, p) ∷ ps)) registry
    → All (IsPassed dir ps) (forget registry p.name).0
unfolding forget
forget-IsPassed dir n p ps registry named h =
    let gone = All-forget _ (IsPassed dir ps) p.name registry (still dir n p ps named) h in
    elim (Option-cases (lookup p.name registry)) [
      | inl absent ↦
          rw (absent, forget)
            (subst (All (IsPassed dir ps)) (delete-missing p.name registry absent) gone)
      | inr (q, present) ↦ rw (present, forget) gone
    ]

visited :
    (dir n : Bytes) (p : Project) (ps : Dict Project) (e : Bytes × Project)
    → same_dir p.path dir ≡ false
    → IsPassed dir ((n, p) ∷ ps) e
    → IsPassed dir ps e
visited dir n p ps e f (inl h) = inl h
visited dir n p ps e f (inr (inl same)) = inl (subst (λ x. same_dir x.1.path dir ≡ false) same f)
visited dir n p ps e f (inr (inr m)) = inr m

forget_dir-IsPassed :
    (dir : Bytes) (ps registry : Dict Project)
    → All IsNamed ps
    → All (IsPassed dir ps) registry
    → All (λ e. same_dir e.1.path dir ≡ false) (forget_dir dir ps registry)
unfolding forget_dir
forget_dir-IsPassed dir [] registry named h =
    All-map _ _ (λ e s. elim s [ inl f ↦ f | inr m ↦ absurd m ]) registry h
forget_dir-IsPassed dir ((n, p) ∷ ps) registry named h = elim (Bool-cases (same_dir p.path dir)) [
  | inl own ↦
      rw (own, forget_dir)
        (forget_dir-IsPassed dir ps (forget registry p.name).0 named.1
          (forget-IsPassed dir n p ps registry named.0 h))
  | inr other ↦
      rw (other, forget_dir)
        (forget_dir-IsPassed dir ps registry named.1
          (All-map _ _ (λ e. visited dir n p ps e other) registry h))
]

All-Members : (ps : Dict Project) → All (λ e. Member e ps) ps
All-Members [] = tt
All-Members (e ∷ ps) = (inl refl, All-map _ _ (λ x m. inr m) ps (All-Members ps))

-- After `down` no entry of the manifest is left, and no project is registered for its directory, the
-- previews among them, as long as every project was registered under its own name.
pub down-IsClean :
    (d : Down) (l : Ledger) (registry : Dict Project)
    → All IsNamed registry
    → IsClean d.path (down d l registry).ledger
      × All (λ e. same_dir e.1.path d.dir ≡ false) (down d l registry).registry
unfolding down teardown_manifest
down-IsClean d l registry named = (
  record {
    tunnels =
        All-map _ _ (λ e h. ground arith) _
          (clean_tunnels (is_down d.path d.environments) l.tunnels);
    services = (teardown_manifest-IsClean l d.path).services;
  },
  forget_dir-IsPassed d.dir registry registry named
      (All-map _ _ (λ e m. inr m) registry (All-Members registry)),
)
