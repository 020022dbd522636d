-- ===== src/Store/Users.antt =====
-- backend/internal/store/store.go: accounts.
use roxey.Base.{
  ℕ, ◌≡◌, ◌≢◌, ◌⊎◌, refl, sym, ◌∙◌, true, false, ◌||◌, List, [], ◌∷◌, ◌++◌, map, inl, inr, Option,
  none, some, arith, Bytes, equal, equal_iff, equal_refl, any, All, All-map, All-append,
  if◌then◌else◌, Bool-cases, Option-cases,
}
use roxey.Store.{
  UserRow, Store, User, create_user, get_user_by_email, seed_single_user, find_row, has_email,
  has_user_id, to_user, set_password, drop_user,
}

-- No identifier and no email stands in two rows.
abbrev pub Separate : UserRow → UserRow → Type 0
Separate u v = (v.id ≢ u.id) × (v.email ≢ u.email)

abbrev pub AreDistinct : List UserRow → Type 0
AreDistinct [] = Unit {0}
AreDistinct (u ∷ us) = All (Separate u) us × AreDistinct us

any-All :
    (u : UserRow) (us : List UserRow)
    → any (has_user_id u.id) us ≡ false
    → any (has_email u.email) us ≡ false
    → All (λ v. (u.id ≢ v.id) × (u.email ≢ v.email)) us
any-All u [] h k = tt
any-All u (v ∷ us) h k = (
  (
    λ e. cc ((equal_iff v.id u.id).1 (sym e), h),
    λ e. cc ((equal_iff v.email u.email).1 (sym e), k),
  ),
  any-All u us (ground arith) (ground arith),
)

AreDistinct-append :
    (u : UserRow) (us : List UserRow)
    → All (λ v. (u.id ≢ v.id) × (u.email ≢ v.email)) us
    → AreDistinct us
    → AreDistinct (us ++ (u ∷ []))
AreDistinct-append u [] h d = (tt, tt)
AreDistinct-append u (v ∷ us) h d =
    (All-append (Separate v) us (u ∷ []) d.0 (h.0, tt), AreDistinct-append u us h.1 d.1)

-- A new account keeps identifiers and emails distinct.
pub create_user-AreDistinct :
    (st st' : Store) (email password_hash id : Bytes) (now : ℕ) (u : User)
    → AreDistinct st.users
    → create_user st email password_hash id now ≡ some (st', u)
    → AreDistinct st'.users
unfolding create_user
create_user-AreDistinct st st' email password_hash id now u d h =
    let row : UserRow = record {
      id = id;
      email = email;
      password_hash = password_hash;
      created_at = now;
    } in
    let free : any (has_user_id id) st.users || any (has_email email) st.users ≡ false =
      ground arith in
    let stored : st'.users ≡ st.users ++ (row ∷ []) = ground arith in
    rw stored
      (AreDistinct-append row st.users (any-All row st.users (ground arith) (ground arith)) d)

find_row-append :
    (u : UserRow) (us : List UserRow) (email : Bytes)
    → any (has_email u.email) us ≡ false
    → find_row (has_email email) (us ++ (u ∷ []))
      ≡ (if equal u.email email then some u else find_row (has_email email) us)
unfolding find_row
find_row-append u [] email h = refl
find_row-append u (v ∷ us) email h = ground (
  arith,
  find_row-append u us email,
  equal_iff u.email email,
  equal_iff v.email u.email,
  equal_iff v.email email,
)

-- After an account is created it is found under its email with its password hash, and every other
-- email gives what it gave before.
pub get_user_by_email-create_user :
    (st st' : Store) (email password_hash id : Bytes) (now : ℕ) (u : User) (asked : Bytes)
    → create_user st email password_hash id now ≡ some (st', u)
    → get_user_by_email st' asked
      ≡ (if equal email asked then some (some (u, password_hash)) else get_user_by_email st asked)
unfolding create_user get_user_by_email
get_user_by_email-create_user st st' email password_hash id now u asked h =
    let row : UserRow = record {
      id = id;
      email = email;
      password_hash = password_hash;
      created_at = now;
    } in
    let free : any (has_user_id id) st.users || any (has_email email) st.users ≡ false =
      ground arith in
    let stored : st'.users ≡ st.users ++ (row ∷ []) = ground arith in
    let u_is : u ≡ to_user row = ground arith in
    let up_st : st.up ≡ true = ground arith in
    let up_is : st'.up ≡ true = ground arith in
    rw (stored, u_is, up_st, up_is)
      (rw (find_row-append row st.users asked (ground arith)) (ground arith))

find_row-id :
    (email : Bytes) (us : List UserRow) (u : UserRow)
    → find_row (has_email email) us ≡ some u
    → u.email ≡ email
unfolding find_row
find_row-id email [] u h = cc
find_row-id email (v ∷ us) u h = ground (arith, equal_iff v.email email, find_row-id email us u)

find_row-Separate :
    (email : Bytes) (us : List UserRow) (u v : UserRow)
    → All (Separate v) us
    → find_row (has_email email) us ≡ some u
    → Separate v u
unfolding find_row
find_row-Separate email [] u v a h = cc
find_row-Separate email (w ∷ us) u v a h = elim (Bool-cases (has_email email w)) [
  | inl hit ↦ let e : w ≡ u = ground arith in ((λ q. a.0.0 (cc (e, q))), (λ q. a.0.1 (cc (e, q))))
  | inr miss ↦ find_row-Separate email us u v a.1 (ground arith)
]

map-set_password :
    (id password_hash : Bytes) (us : List UserRow)
    → All (λ v. v.id ≢ id) us
    → map (set_password id password_hash) us ≡ us
map-set_password id password_hash [] h = refl
map-set_password id password_hash (v ∷ us) h =
    ground (arith, equal_iff v.id id, map-set_password id password_hash us h.1)

find_row-set_password :
    (email asked password_hash : Bytes) (us : List UserRow) (u : UserRow)
    → AreDistinct us
    → find_row (has_email email) us ≡ some u
    → find_row (has_email asked) (map (set_password u.id password_hash) us) ≡ (
        if equal email asked
        then some (record u { password_hash = password_hash })
        else find_row (has_email asked) us)
unfolding find_row
find_row-set_password email asked password_hash [] u d h = cc
find_row-set_password email asked password_hash (v ∷ us) u d h =
    elim (Bool-cases (has_email email v)) [
      | inl hit ↦
          let e : v ≡ u = ground arith in
          let same : map (set_password u.id password_hash) us ≡ us =
            map-set_password u.id password_hash us
              (All-map (Separate v) (λ w. w.id ≢ u.id) (λ w s q. s.0 (cc (q, e))) us d.0) in
          rw same (
            ground (
              arith,
              e,
              equal_refl u.id,
              equal_iff v.email email,
              equal_iff email asked,
              equal_iff v.email asked,
            ))
      | inr miss ↦
          let rest : find_row (has_email email) us ≡ some u = ground arith in
          let apart = find_row-Separate email us u v d.0 rest in
          let step = find_row-set_password email asked password_hash us u d.1 rest in
          ground (
            arith,
            step,
            apart.0,
            equal_iff v.id u.id,
            equal_iff email asked,
            equal_iff v.email asked,
            equal_iff v.email email,
          )
    ]

-- what a lookup tells of an account beside its user record
abbrev pub hash_found : Option (Option (User × Bytes)) → Option Bytes
hash_found none = none
hash_found (some none) = none
hash_found (some (some (u, hash))) = some hash

get_user_by_email-row :
    (st : Store) (email : Bytes) (u : User) (old : Bytes)
    → get_user_by_email st email ≡ some (some (u, old))
    → (row : UserRow) × (find_row (has_email email) st.users ≡ some row)
      × (u.id ≡ row.id)
      × (st.up ≡ true)
unfolding get_user_by_email
get_user_by_email-row st email u old h = elim (Option-cases (find_row (has_email email) st.users)) [
  | inl e ↦ absurd (ground arith)
  | inr (row, e) ↦ (row, e, ground arith, ground arith)
]

refresh-lookup :
    (st st' : Store) (email password_hash : Bytes) (row : UserRow) (asked : Bytes)
    → AreDistinct st.users
    → st.up ≡ true
    → find_row (has_email email) st.users ≡ some row
    → st' ≡ record st { users = map (set_password row.id password_hash) st.users }
    → equal email asked ≡ false
    → (hash_found (get_user_by_email st' email) ≡ some password_hash)
      × (get_user_by_email st' asked ≡ get_user_by_email st asked)
unfolding get_user_by_email
refresh-lookup st st' email password_hash row asked d up found stored other = (
  rw stored (
      rw up (
        rw (find_row-set_password email email password_hash st.users row d found)
          (rw (equal_refl email)))),
  rw stored (
      rw up (rw (find_row-set_password email asked password_hash st.users row d found) (rw other))),
)

-- Seeding, whether it inserts the account or finds it there, leaves the given password hash under
-- the given email and changes what no other email gives.
pub seed_single_user-lookup :
    (st st' : Store) (email password_hash id : Bytes) (now : ℕ) (asked : Bytes)
    → AreDistinct st.users
    → seed_single_user st email password_hash id now ≡ some st'
    → equal email asked ≡ false
    → (hash_found (get_user_by_email st' email) ≡ some password_hash)
      × (get_user_by_email st' asked ≡ get_user_by_email st asked)
unfolding seed_single_user
seed_single_user-lookup st st' email password_hash id now asked d h other =
    elim (Option-cases (get_user_by_email st email)) [
      | inl down ↦ absurd (ground arith)
      | inr (none, absent) ↦ created (rw (absent, seed_single_user) at h) (Option-cases _)
      | inr (some (u, old), there) ↦
          let (row, found, id_is, up) = get_user_by_email-row st email u old there in
          refresh-lookup st st' email password_hash row asked d up found
            (ground (arith, rw (there, seed_single_user) at h)) other
    ]
  where
    created :
        drop_user (create_user st email password_hash id now) ≡ some st'
        → (create_user st email password_hash id now ≡ none)
          ⊎ ((r : Store × User) × (create_user st email password_hash id now ≡ some r))
        → (hash_found (get_user_by_email st' email) ≡ some password_hash)
          × (get_user_by_email st' asked ≡ get_user_by_email st asked)
    created g (inl e) = absurd (ground arith)
    created g (inr ((s, u), e)) =
        let s_is : s ≡ st' = ground arith in
        let made : create_user st email password_hash id now ≡ some (st', u) = cc (e, s_is) in
        (
          rw (get_user_by_email-create_user st st' email password_hash id now u email made)
              (rw (equal_refl email)),
          get_user_by_email-create_user st st' email password_hash id now u asked made ∙ rw other,
        )
