-- ===== src/Server/Accounts/Login.antt =====
-- backend/main.go: signing up and logging in.
use roxey.Base.{
  ap, ◌∙◌, ℕ, ◌≡◌, refl, true, none, some, Bytes, arith, inl, inr, Bool-cases, Option-cases,
  equal_refl, ltb, length,
}
use roxey.Auth.Sessions.{Crypto, issue}
use roxey.Server.Accounts.{
  Passwords, ApiRequest, signed_in, valid_email, clean_email, sign_up_with, log_in,
}
use roxey.Server.Gate.{post}
use roxey.Store.{Store, User, create_user, get_user_by_email}
use roxey.Store.Users.{get_user_by_email-create_user}

create_user-email :
    (st st' : Store) (email hash id : Bytes) (now : ℕ) (u : User)
    → create_user st email hash id now ≡ some (st', u)
    → u.email ≡ email
unfolding create_user
create_user-email st st' email hash id now u h = ground arith

module _ (crypto : Crypto) (secret : Bytes) (passwords : Passwords) (to_lower : Bytes → Bytes) where
  logged_in :
      (st st' : Store) (email again password hash id id' : Bytes) (now later : ℕ) (r : ApiRequest)
      (u : User)
      → r.method ≡ post
      → r.body ≡ some (again, password)
      → clean_email to_lower again ≡ clean_email to_lower email
      → passwords.matches hash password ≡ true
      → u.id ≡ id'
      → create_user st (clean_email to_lower email) hash id now ≡ some (st', u)
      → log_in crypto secret passwords to_lower st' r later
        ≡ signed_in (issue crypto secret id' later) id' (clean_email to_lower email)
  unfolding log_in
  logged_in st st' email again password hash id id' now later r u posted body spelt right id_is
        made =
      let clean = clean_email to_lower email in
      let found : get_user_by_email st' (clean_email to_lower again) ≡ some (some (u, hash)) =
        ap (get_user_by_email st') spelt
        ∙ get_user_by_email-create_user st st' clean hash id now u clean made
        ∙ rw (equal_refl clean) in
      rw (posted, body, log_in)
        (rw found (rw right (rw (id_is, create_user-email st st' clean hash id now u made) refl)))

  -- An account that signs up can log in with the same password at once, under every spelling of its
  -- email that is the same in lower case and without white space around it, and gets a session of the
  -- same identifier.
  pub log_in-sign_up_with :
      (st st' : Store) (email again password salt id cookie id' email' : Bytes) (now later : ℕ)
      (r : ApiRequest)
      → sign_up_with crypto secret passwords to_lower st
          (clean_email to_lower email)
          password
          salt
          id
          now
        ≡ (st', signed_in cookie id' email')
      → r.method ≡ post
      → r.body ≡ some (again, password)
      → clean_email to_lower again ≡ clean_email to_lower email
      → log_in crypto secret passwords to_lower st' r later
        ≡ signed_in (issue crypto secret id' later) id' (clean_email to_lower email)
  unfolding sign_up_with log_in
  log_in-sign_up_with st st' email again password salt id cookie id' email' now later r h posted
        body spelt =
      elim (Bool-cases (valid_email (clean_email to_lower email))) [
        | inr bad ↦ absurd (ground arith)
        | inl good ↦ elim (Bool-cases (ltb (length password) 8)) [
          | inl short ↦ absurd (ground arith)
          | inr long ↦ elim (Option-cases (get_user_by_email st (clean_email to_lower email))) [
            | inl down ↦ absurd (ground arith)
            | inr (some (u, hash), taken) ↦ absurd (ground arith)
            | inr (none, free) ↦ elim (Option-cases (passwords.hash salt password)) [
              | inl refused ↦ absurd (ground arith)
              | inr (hash, hashed) ↦
                  elim (Option-cases (create_user st (clean_email to_lower email) hash id now)) [
                    | inl failed_insert ↦ absurd (ground arith)
                    | inr ((s, u), made) ↦
                        let s_is : s ≡ st' = ground arith in
                        let id_is : u.id ≡ id' = ground arith in
                        let made' : create_user st (clean_email to_lower email) hash id now
                            ≡ some (st', u) =
                          cc (made, s_is) in
                        logged_in st st' email again password hash id id' now later r u posted body
                          spelt (passwords.matches_own salt password hash hashed) id_is made'
                  ]
            ]
          ]
        ]
      ]
