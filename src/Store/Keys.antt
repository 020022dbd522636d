-- ===== src/Store/Keys.antt =====
-- backend/internal/store/store.go: API keys.
use roxey.Base.{
  ℕ, ◌≡◌, ◌≢◌, refl, sym, ◌∙◌, ap, Bool, true, false, not, ◌&&◌, ◌||◌, List, [], ◌∷◌, ◌++◌, map,
  inl, inr, Option, none, some, arith, Bytes, codes, equal, equal_iff, equal_refl, any, select, All,
  All-map, is_empty, if◌then◌else◌, Bool-cases,
}
use roxey.Auth.Sessions.{Crypto}
use roxey.Store.{
  KeyRow, Store, ApiKey, create_api_key, list_api_keys, revoke_api_key, validate_api_key, find_row,
  has_hash, has_key_id, of_user, is_target, touch, hash_key,
}

-- Whom `ValidateAPIKey` names for a key, by its digest.
abbrev owner_of : List KeyRow → Bytes → Option Bytes
owner_of keys hash = elim (find_row (has_hash hash) keys) [ none ↦ none | some k ↦ some k.user_id ]

owner_of-append :
    (keys : List KeyRow) (row : KeyRow) (hash : Bytes)
    → any (has_hash row.hash) keys ≡ false
    → owner_of (keys ++ (row ∷ [])) hash
      ≡ (if equal row.hash hash then some row.user_id else owner_of keys hash)
unfolding find_row
owner_of-append [] row hash h = ground arith
owner_of-append (k ∷ keys) row hash h = ground (
  arith,
  owner_of-append keys row hash,
  equal_iff k.hash hash,
  equal_iff row.hash hash,
  equal_iff k.hash row.hash,
)

owner_of-touch :
    (keys : List KeyRow) (used : Bytes) (now : ℕ) (hash : Bytes)
    → owner_of (map (touch used now) keys) hash ≡ owner_of keys hash
unfolding find_row
owner_of-touch [] used now hash = refl
owner_of-touch (k ∷ keys) used now hash = ground (arith, owner_of-touch keys used now hash)

-- whom a key belongs to while both statements go through
abbrev owner_if_up : Crypto → Store → Bytes → Option Bytes
owner_if_up crypto st plain =
    if is_empty plain
    then none
    else if st.up && st.touches
    then owner_of st.api_keys (hash_key crypto plain)
    else none

validate-owner :
    (crypto : Crypto) (st : Store) (plain : Bytes) (now : ℕ)
    → (validate_api_key crypto st plain now).1 ≡ owner_if_up crypto st plain
unfolding validate_api_key
validate-owner crypto st plain now = ground arith

-- While both statements go through, a new key is valid at once and names its account. What any other key, one with another digest,
-- validates as does not change.
pub validate_api_key-create :
    (crypto : Crypto) (st st' : Store) (user_id label random id plain : Bytes) (key : ApiKey)
    (now later : ℕ) (other : Bytes)
    → create_api_key crypto st user_id label random id now ≡ some (st', plain, key)
    → st.touches ≡ true
    → equal (hash_key crypto plain) (hash_key crypto other) ≡ false
    → ((validate_api_key crypto st' plain later).1 ≡ some user_id)
      × ((validate_api_key crypto st' other later).1 ≡ (validate_api_key crypto st other later).1)
unfolding create_api_key
validate_api_key-create crypto st st' user_id label random id plain key now later other h touches
      apart =
    let text : Bytes = codes "rxy_" ++ random in
    let row : KeyRow = record {
      id = id;
      user_id = user_id;
      label = if is_empty label then codes "unnamed" else label;
      hash = hash_key crypto text;
      created_at = now;
      last_used_at = none;
    } in
    let free : any (has_key_id id) st.api_keys || any (has_hash (hash_key crypto text)) st.api_keys
        ≡ false =
      ground arith in
    let up : st.up ≡ true = ground arith in
    let up' : st'.up ≡ true = ground arith in
    let touches' : st'.touches ≡ st.touches = ground arith in
    let stored : st'.api_keys ≡ st.api_keys ++ (row ∷ []) = ground arith in
    let plain_is : plain ≡ text = ground arith in
    (
      validate-owner crypto st' plain later
          ∙ rw (plain_is, up', touches', touches, stored)
              (owner_of-append st.api_keys row (hash_key crypto text) (ground arith)
                ∙ rw (equal_refl (hash_key crypto text))),
      (let apart' : equal (hash_key crypto text) (hash_key crypto other) ≡ false =
            ground (arith, apart, plain_is) in
          validate-owner crypto st' other later
          ∙ rw (up', touches', touches, stored)
              (rw (owner_of-append st.api_keys row (hash_key crypto other) (ground arith))
                (rw apart' (ground (arith, up, validate-owner crypto st other later))))),
    )

-- No identifier and no digest stands in two rows.
abbrev pub Separate : KeyRow → KeyRow → Type 0
Separate k l = (l.id ≢ k.id) × (l.hash ≢ k.hash)

abbrev pub AreDistinct : List KeyRow → Type 0
AreDistinct [] = Unit {0}
AreDistinct (k ∷ ks) = All (Separate k) ks × AreDistinct ks

owner_of-absent :
    (keys : List KeyRow) (keep : KeyRow → Bool) (hash : Bytes)
    → All (λ l. l.hash ≢ hash) keys
    → owner_of (select keep keys) hash ≡ none
unfolding find_row
owner_of-absent [] keep hash h = refl
owner_of-absent (k ∷ keys) keep hash h =
    ground (arith, equal_iff k.hash hash, owner_of-absent keys keep hash h.1)

owner_of-select :
    (keys : List KeyRow) (keep : KeyRow → Bool) (hash : Bytes) (k : KeyRow)
    → AreDistinct keys
    → find_row (has_hash hash) keys ≡ some k
    → owner_of (select keep keys) hash ≡ (if keep k then some k.user_id else none)
unfolding find_row
owner_of-select [] keep hash k d h = cc
owner_of-select (l ∷ keys) keep hash k d h = elim (Bool-cases (has_hash hash l)) [
  | inl hit ↦
      let e : l ≡ k = ground arith in
      let apart =
        All-map (Separate l) (λ m. m.hash ≢ hash)
          (λ m s q. s.1 (q ∙ sym ((equal_iff l.hash hash).0 hit))) keys d.0 in
      ground (arith, hit, ap keep e, ap (λ r. r.user_id) e, owner_of-absent keys keep hash apart)
  | inr miss ↦ ground (arith, miss, owner_of-select keys keep hash k d.1 (ground arith))
]

-- The row behind a key, if it has one.
abbrev pub row_of : Crypto → Store → Bytes → Option KeyRow
row_of crypto st plain = find_row (has_hash (hash_key crypto plain)) st.api_keys

-- Revoking a key ends it if the account that asks owns it. A key with another identifier or of
-- another account goes on to validate as before.
pub validate_api_key-revoke :
    (crypto : Crypto) (st st' : Store) (user_id id plain : Bytes) (hit : Bool) (now : ℕ)
    (k : KeyRow)
    → AreDistinct st.api_keys
    → revoke_api_key st user_id id ≡ some (st', hit)
    → row_of crypto st plain ≡ some k
    → (validate_api_key crypto st' plain now).1 ≡ (
        if equal k.id id && equal k.user_id user_id
        then none
        else (validate_api_key crypto st plain now).1)
unfolding revoke_api_key
validate_api_key-revoke crypto st st' user_id id plain hit now k d h found =
    let up : st.up ≡ true = ground arith in
    let up' : st'.up ≡ true = ground arith in
    let touches' : st'.touches ≡ st.touches = ground arith in
    let stored : st'.api_keys ≡ select (λ l. not (is_target user_id id l)) st.api_keys =
      ground arith in
    validate-owner crypto st' plain now
    ∙ rw (up', touches', stored)
        (ground (
          arith,
          up,
          found,
          owner_of-select st.api_keys (λ l. not (is_target user_id id l)) (hash_key crypto plain) k
              d found,
          validate-owner crypto st plain now,
        ))

select-others :
    (user_id v id : Bytes) (keys : List KeyRow)
    → equal user_id v ≡ false
    → select (of_user v) (select (λ l. not (is_target user_id id l)) keys) ≡ select (of_user v) keys
select-others user_id v id [] h = refl
select-others user_id v id (k ∷ keys) h = ground (
  arith,
  equal_iff k.user_id v,
  equal_iff k.user_id user_id,
  equal_iff user_id v,
  select-others user_id v id keys h,
)

any-select :
    (user_id id : Bytes) (keys : List KeyRow)
    → any (is_target user_id id) (select (λ l. not (is_target user_id id l)) keys) ≡ false
any-select user_id id [] = refl
any-select user_id id (k ∷ keys) = ground (arith, any-select user_id id keys)

-- A revocation leaves the key list of every other account as it was, and the same revocation made
-- again finds nothing.
pub revoke_api_key-isolated :
    (st st' : Store) (user_id id v : Bytes) (hit : Bool)
    → revoke_api_key st user_id id ≡ some (st', hit)
    → equal user_id v ≡ false
    → (list_api_keys st' v ≡ list_api_keys st v)
      × ((again : Store) × (revoke_api_key st' user_id id ≡ some (again, false)))
unfolding revoke_api_key list_api_keys
revoke_api_key-isolated st st' user_id id v hit h other =
    let up : st.up ≡ true = ground arith in
    let up' : st'.up ≡ true = ground arith in
    let touches' : st'.touches ≡ st.touches = ground arith in
    let stored : st'.api_keys ≡ select (λ l. not (is_target user_id id l)) st.api_keys =
      ground arith in
    (
      rw (up', up, stored) (rw (select-others user_id v id st.api_keys other)),
      (
        record st' { api_keys = select (λ l. not (is_target user_id id l)) st'.api_keys },
        rw up' (rw (stored) (rw (any-select user_id id st.api_keys))),
      ),
    )
