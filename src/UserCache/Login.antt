-- ===== src/UserCache/Login.antt =====
-- What a registration does to the logins.
use my_bookstore.Hash.{sha256_hex}
use my_bookstore.Base.{
  refl, lookup-insert, subst, false, inr, inl, lookup, is_some, Bool-cases, insert, text_eq, ◌==◌,
  if◌then◌else◌, true, ◌≡◌, emplace, Bool, Text,
}
use my_bookstore.UserCache.{sha256_hex, Text}
use my_bookstore.UserCache

module _ {D : Type 0} (insert_row : Text → Text → D → Bool × D) where
  register_locked-insert :
      (user hashed : Text) (users : UserCache.Users) (db : D)
      → (UserCache.register_locked insert_row user hashed (users, db)).0 ≡ true
      → (UserCache.register_locked insert_row user hashed (users, db)).1.0
        ≡ insert user hashed users
  unfolding UserCache.register_locked emplace
  register_locked-insert user hashed users db = elim (Bool-cases (is_some (lookup user users))) [
    | inl e ↦ rw e (λ made. absurd (cc made))
    | inr e ↦ elim (Bool-cases (insert_row user hashed db).0) [
      | inl d ↦ rw (e, d) (λ made. refl)
      | inr d ↦ rw (e, d) (λ made. absurd (cc made))
    ]
  ]

  -- A registration that succeeds, whatever other threads did between its two locks, leaves a cache in
  -- which exactly the passwords with the digest of the new one log in under the new name, and every
  -- other name logs in as it did behind those threads.
  pub authenticate-register :
      (between : UserCache.Users × D → UserCache.Users × D) (user pass : Text)
      (s : UserCache.Users × D)
      → (UserCache.register_user insert_row between user pass s).0 ≡ true
      → (name attempt : Text)
      → UserCache.authenticate name attempt
          (UserCache.register_user insert_row between user pass s).1.0
        ≡ (if user == name
            then sha256_hex pass == sha256_hex attempt
            else UserCache.authenticate name attempt (between s).0)
  unfolding UserCache.authenticate UserCache.register_user
  authenticate-register between user pass (users, db) made name attempt =
      elim (Bool-cases (is_some (lookup user users))) [
        | inl e ↦ absurd (
            let refused : false ≡ true =
              subst
                (λ b.
                  (if b
                    then (false, (users, db))
                    else UserCache.register_locked insert_row user (sha256_hex pass)
                        (between (users, db))).0
                  ≡ true)
                e made in
            cc refused)
        | inr e ↦
            let made' : (UserCache.register_locked insert_row user (sha256_hex pass)
                  (between (users, db))).0
                ≡ true =
              subst
                (λ b.
                  (if b
                    then (false, (users, db))
                    else UserCache.register_locked insert_row user (sha256_hex pass)
                        (between (users, db))).0
                  ≡ true)
                e made in
            let stored =
              register_locked-insert user (sha256_hex pass) (between (users, db)).0
                (between (users, db)).1 made' in
            rw (e, stored, lookup-insert user name (sha256_hex pass) (between (users, db)).0)
              (elim (Bool-cases (user == name)) [ inl d ↦ rw d refl | inr d ↦ rw d refl ])
      ]
