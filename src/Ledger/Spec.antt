-- ===== src/Ledger/Spec.antt =====
-- cli/main.go: the names of tunnels on the command line, and the arguments of the worker process.
use roxey.Base.{
  ◌≡◌, refl, ap, ◌∙◌, false, true, inl, inr, some, arith, [], ◌∷◌, ◌++◌, Bytes, cut, contains_byte,
  has_suffix, trim_suffix, equal, cut-append, Bool-cases,
}
use roxey.Ledger.{parse_service_spec, tunnel_key}
use roxey.Ledger.Start.{Start, run_args, Worker, cmd_run}

abbrev start_of : (tld service path_prefix target protect gate_group path : Bytes) → Start
start_of tld service path_prefix target protect gate_group path = record {
  tld = tld;
  service = service;
  path_prefix = path_prefix;
  target = target;
  protect = protect;
  gate_group = gate_group;
  manifest_path = path;
}

abbrev pub worker_of : Start → Worker
worker_of s = record {
  tld = s.tld;
  service = s.service;
  path_prefix = s.path_prefix;
  target = s.target;
  protect = s.protect;
  gate_group = s.gate_group;
}

cmd_run-start_of :
    (t e p g protect group m : Bytes)
    → cmd_run (run_args (start_of t e p g protect group m))
      ≡ some (worker_of (start_of t e p g protect group m))
unfolding cmd_run run_args
cmd_run-start_of t e p g [] [] m = refl
cmd_run-start_of t e p g [] (c ∷ d) m = refl
cmd_run-start_of t e p g (c ∷ d) [] m = refl
cmd_run-start_of t e p g (c ∷ d) (a ∷ b) m = refl

-- The worker is told just what `startOne` was asked for: a secret without a group, a group without a
-- secret, both or neither.
pub cmd_run-run_args : (s : Start) → cmd_run (run_args s) ≡ some (worker_of s)
cmd_run-run_args s =
    cmd_run-start_of s.tld s.service s.path_prefix s.target s.protect s.gate_group s.manifest_path

cut_free : (s : Bytes) → contains_byte b'/' s ≡ false → cut b'/' s ≡ (s, [], false)
unfolding cut contains_byte
cut_free [] h = refl
cut_free (c ∷ s) h = ground (arith, cut_free s)

trim_suffix_free : (s x : Bytes) → has_suffix s x ≡ false → trim_suffix s x ≡ s
unfolding trim_suffix has_suffix
trim_suffix_free [] x h = refl
trim_suffix_free (c ∷ s) x h = elim (Bool-cases (equal (c ∷ s) x)) [
  | inl e ↦ absurd (ground arith)
  | inr e ↦ rw (e, trim_suffix) (ap (◌∷◌ c) (trim_suffix_free s x (ground arith)))
]

-- a path without its trailing slash, and not a pattern
abbrev pub IsPrefix : Bytes → Type 0
IsPrefix [] = Unit {0}
IsPrefix (c ∷ r) =
    (c ≡ b'/')
    × (has_suffix (c ∷ r) (b'/' ∷ []) ≡ false)
    × (has_suffix (c ∷ r) (b'/' ∷ b'*' ∷ []) ≡ false)

-- `roxey stop` with the key of a tunnel finds the service and the path that the key is made of: the
-- service has no slash, and the path is empty or starts with a slash and does not end in one.
pub parse_service_spec-tunnel_key :
    (service path_prefix : Bytes)
    → contains_byte b'/' service ≡ false
    → IsPrefix path_prefix
    → parse_service_spec (tunnel_key service path_prefix) ≡ (service, path_prefix)
unfolding parse_service_spec tunnel_key
parse_service_spec-tunnel_key service [] h p = rw (cut_free service h) refl
parse_service_spec-tunnel_key service (c ∷ r) h (s, slash, star) =
    let e : c ≡ b'/' = s in
    let here : cut b'/' (service ++ (b'/' ∷ r)) ≡ (service, r, true) =
      cut-append b'/' service r h in
    rw (e, here)
      (ap (λ t. (service, t))
        (ap (λ t. trim_suffix t (b'/' ∷ []))
            (trim_suffix_free (b'/' ∷ r) (b'/' ∷ b'*' ∷ []) (rw e at star))
          ∙ trim_suffix_free (b'/' ∷ r) (b'/' ∷ []) (rw e at slash)))
