-- ===== src/Cli/Render.antt =====
-- cli/main.go: options that are written out are read back.
use roxey.Base.{
  ℕ, trim_prefix, ◌≡◌, refl, ap, ◌∙◌, Bool, true, false, not, List, [], ◌∷◌, ◌++◌, Option, none,
  some, Bytes, codes, is_empty, has_prefix, cut_prefix, equal, ◌==◌, arith,
}
use roxey.Cli.{Step, one, scanned, scan}
use roxey.Cli.Options.{
  UpOptions, UpState, up_step, with_secret, parse_up_options, StartArgs, start_step, start_options,
  start_request,
}

scan-one :
    {S E : Type 0} (step : S → Bytes → Option Bytes → Step S E) (s t : S) (a : Bytes)
    (rest : List Bytes)
    → ((next : Option Bytes) → step s a next ≡ one t)
    → scan step s (a ∷ rest) ≡ scan step t rest
unfolding scan
scan-one step s t a [] h = rw (h none, scan) refl
scan-one step s t a (b ∷ rest) h = rw (h (some b), scan) refl

-- the state behind some of the options
abbrev up_state : Bool → Bool → Bytes → Bool → Bytes → Bytes → Bytes → UpState
up_state detach preview slug online protect project file = record {
  opts = record {
    detach = detach;
    preview = preview;
    preview_slug = slug;
    online = online;
    protect = protect;
    manifest_file = file;
    project = project;
  };
  protect_set = not (is_empty protect);
}

abbrev pub flag : Bool → Bytes → List Bytes
flag true a = a ∷ []
flag false a = []

abbrev pub valued : Bytes → Bytes → List Bytes
valued name [] = []
valued name (c ∷ v) = (name ++ (c ∷ v)) ∷ []

abbrev pub preview_args : Bool → Bytes → List Bytes
preview_args false slug = []
preview_args true slug = (codes "--preview=" ++ slug) ∷ []

-- The options as arguments of `up`, the file at the end.
abbrev pub render : UpOptions → List Bytes
render o =
    flag o.detach (codes "-d")
    ++ (preview_args o.preview o.preview_slug
        ++ (flag o.online (codes "--online")
            ++ (valued (codes "--protect=") o.protect
                ++ (valued (codes "--project=") o.project ++ valued [] o.manifest_file))))

-- a file that is not taken for an option
abbrev pub IsFile : Bytes → Type 0
IsFile [] = Unit {0}
IsFile (c ∷ s) = (c == 45) ≡ false

-- a slug only with a preview
abbrev pub IsSlug : Bool → Bytes → Type 0
IsSlug true slug = Unit {0}
IsSlug false slug = slug ≡ []

scan-detach :
    (d : Bool) (rest : List Bytes)
    → scan up_step (up_state false false [] false [] [] []) (flag d (codes "-d") ++ rest)
      ≡ scan up_step (up_state d false [] false [] [] []) rest
unfolding up_step equal has_prefix trim_prefix
scan-detach false rest = refl
scan-detach true rest =
    scan-one up_step (up_state false false [] false [] [] [])
      (up_state true false [] false [] [] []) (codes "-d") rest (λ next. refl)

scan-preview :
    (d p : Bool) (slug : Bytes) (rest : List Bytes)
    → IsSlug p slug
    → scan up_step (up_state d false [] false [] [] []) (preview_args p slug ++ rest)
      ≡ scan up_step (up_state d p slug false [] [] []) rest
unfolding up_step equal has_prefix trim_prefix
scan-preview d false slug rest h = rw h refl
scan-preview d true slug rest h =
    scan-one up_step (up_state d false [] false [] [] []) (up_state d true slug false [] [] [])
      (codes "--preview=" ++ slug) rest (λ next. refl)

scan-online :
    (d p : Bool) (slug : Bytes) (o : Bool) (rest : List Bytes)
    → scan up_step (up_state d p slug false [] [] []) (flag o (codes "--online") ++ rest)
      ≡ scan up_step (up_state d p slug o [] [] []) rest
unfolding up_step equal has_prefix trim_prefix
scan-online d p slug false rest = refl
scan-online d p slug true rest =
    scan-one up_step (up_state d p slug false [] [] []) (up_state d p slug true [] [] [])
      (codes "--online") rest (λ next. refl)

scan-protect :
    (d p : Bool) (slug : Bytes) (o : Bool) (secret : Bytes) (rest : List Bytes)
    → scan up_step (up_state d p slug o [] [] []) (valued (codes "--protect=") secret ++ rest)
      ≡ scan up_step (up_state d p slug o secret [] []) rest
unfolding up_step equal has_prefix trim_prefix
scan-protect d p slug o [] rest = refl
scan-protect d p slug o (c ∷ s) rest =
    scan-one up_step (up_state d p slug o [] [] []) (up_state d p slug o (c ∷ s) [] [])
      (codes "--protect=" ++ (c ∷ s)) rest (λ next. refl)

scan-project :
    (d p : Bool) (slug : Bytes) (o : Bool) (secret project : Bytes) (rest : List Bytes)
    → scan up_step (up_state d p slug o secret [] []) (valued (codes "--project=") project ++ rest)
      ≡ scan up_step (up_state d p slug o secret project []) rest
unfolding up_step equal has_prefix trim_prefix
scan-project d p slug o secret [] rest = refl
scan-project d p slug o secret (c ∷ s) rest =
    scan-one up_step (up_state d p slug o secret [] []) (up_state d p slug o secret (c ∷ s) [])
      (codes "--project=" ++ (c ∷ s)) rest (λ next. refl)

-- What does not start with a dash is no option.
equal_dash : (c : ℕ) (s : Bytes) → (c == 45) ≡ false → (t : Bytes) → equal (c ∷ s) (45 ∷ t) ≡ false
unfolding equal
equal_dash c s h t = ground arith

prefix_dash :
    (c : ℕ) (s : Bytes) → (c == 45) ≡ false → (t : Bytes) → has_prefix (c ∷ s) (45 ∷ t) ≡ false
unfolding has_prefix
prefix_dash c s h t =
    let cut : cut_prefix (c ∷ s) (45 ∷ t) ≡ none = rw (h, cut_prefix) refl in
    rw (cut, has_prefix) refl

up_step-file :
    (d p : Bool) (slug : Bytes) (o : Bool) (secret project : Bytes) (c : ℕ) (s : Bytes)
    (next : Option Bytes)
    → (c == 45) ≡ false
    → up_step (up_state d p slug o secret project []) (c ∷ s) next
      ≡ one (up_state d p slug o secret project (c ∷ s))
unfolding up_step
up_step-file d p slug o secret project c s next h =
    let e = equal_dash c s h in
    let p = prefix_dash c s h in
    rw
      (
        up_step,
        e (codes "d"),
        e (codes "-detach"),
        e (codes "-preview"),
        p (codes "-preview="),
        e (codes "-online"),
        e (codes "-protect"),
        p (codes "-protect="),
        e (codes "-project"),
        p (codes "-project="),
        p [],
      )
      refl

scan-file :
    (d p : Bool) (slug : Bytes) (o : Bool) (secret project file : Bytes)
    → IsFile file
    → scan up_step (up_state d p slug o secret project []) (valued [] file)
      ≡ scanned (up_state d p slug o secret project file)
unfolding scan
scan-file d p slug o secret project [] h = refl
scan-file d p slug o secret project (c ∷ s) h =
    scan-one up_step (up_state d p slug o secret project [])
      (up_state d p slug o secret project (c ∷ s)) (c ∷ s) []
      (λ next. up_step-file d p slug o secret project c s next h)

with_secret-up_state :
    (d p : Bool) (slug : Bytes) (o : Bool) (secret project file : Bytes)
    → with_secret (scanned (up_state d p slug o secret project file))
      ≡ scanned (up_state d p slug o secret project file).opts
with_secret-up_state d p slug o [] project file = refl
with_secret-up_state d p slug o (c ∷ s) project file = refl

-- Options of `up` that are written out as arguments are read back: with any secret, slug and project,
-- whatever bytes they hold, and a file that does not start with a dash. A slug goes with a preview.
pub parse_up_options-render :
    (o : UpOptions)
    → IsSlug o.preview o.preview_slug
    → IsFile o.manifest_file
    → parse_up_options (render o) ≡ scanned o
unfolding parse_up_options
parse_up_options-render o h k =
    ap with_secret (
      scan-detach o.detach _
      ∙ scan-preview o.detach o.preview o.preview_slug _ h
      ∙ scan-online o.detach o.preview o.preview_slug o.online _
      ∙ scan-protect o.detach o.preview o.preview_slug o.online o.protect _
      ∙ scan-project o.detach o.preview o.preview_slug o.online o.protect o.project _
      ∙ scan-file o.detach o.preview o.preview_slug o.online o.protect o.project o.manifest_file k)
    ∙ with_secret-up_state o.detach o.preview o.preview_slug o.online o.protect o.project
        o.manifest_file

-- an argument of `start` that is no option
abbrev pub IsPlain : Bytes → Type 0
IsPlain a = (equal a (codes "--protect") ≡ false) × (has_prefix a (codes "--protect=") ≡ false)

start_step-plain :
    (s : StartArgs) (a : Bytes) (next : Option Bytes)
    → IsPlain a
    → start_step s a next ≡ one (record s { rest = s.rest ++ (a ∷ []) })
unfolding start_step
start_step-plain s a next h = rw (h.0, start_step, h.1) refl

-- `start` with a target, and with `--protect` at the end but no secret behind it, goes on without a
-- secret and without an error, for every target and every service that is no option itself.
pub start_options-unprotected :
    (spec target : Bytes)
    → IsPlain spec
    → IsPlain target
    → start_options (spec ∷ target ∷ codes "--protect" ∷ [])
      ≡ scanned (record { spec = spec; target = target; protect = [] })
unfolding start_options equal has_prefix
start_options-unprotected spec target h k =
    let none_read : StartArgs = record { rest = []; protect = [] } in
    let spec_read : StartArgs = record { rest = spec ∷ []; protect = [] } in
    let both_read : StartArgs = record { rest = spec ∷ target ∷ []; protect = [] } in
    ap start_request (
      scan-one start_step none_read spec_read spec (target ∷ codes "--protect" ∷ [])
        (λ next. start_step-plain none_read spec next h)
      ∙ scan-one start_step spec_read both_read target (codes "--protect" ∷ [])
          (λ next. start_step-plain spec_read target next k))
