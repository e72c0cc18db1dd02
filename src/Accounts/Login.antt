-- ===== src/Accounts/Login.antt =====
-- Who can log in after a registration.
use my_bookstore.Base.{
  Bool-cases, lookup-insert, Option-cases, inr, refl, text_eq, inl, true, ◌∷◌, arith, is_some, ◌==◌,
  if◌then◌else◌, length, lookup, ◌⊎◌, [], false, none, some, is_empty, ◌≡◌, ◌≢◌, Text,
}
use my_bookstore.Model.{User}
use my_bookstore.Hash.{sha256_hex}
use my_bookstore.Hash.Shape.{length-sha256_hex}
use my_bookstore.Accounts.{Text, UserClient}
use my_bookstore.Accounts.Memory.{Users, memory, create_user, authenticate}
use my_bookstore.Accounts.Service
use my_bookstore.Accounts.Service.{local_client}

abbrev client : UserClient Users
client = local_client memory

sha256_hex-ne-nil : (password : Text) → is_empty (sha256_hex password) ≡ false
sha256_hex-ne-nil password = go (sha256_hex password) (length-sha256_hex password)
  where
    go : (digest : Text) → length digest ≡ 64 → is_empty digest ≡ false
    go [] h = absurd (omega arith)
    go (c ∷ digest) h = refl

-- What a registration over the in-memory repository does: nothing, and then the name is empty or
-- taken; or it makes one account with the next id, whose name was free, keeps the digest of the
-- password, and leaves every other name alone.
pub register_user-cases :
    (name password : Text) (s : Users)
    → let (out, s') = client.register_user name password s in
      ((out ≡ none) × (s' ≡ s) × ((name ≡ []) ⊎ (is_some (lookup name s.passwords) ≡ true)))
      ⊎ ((user : User) × (out ≡ some user)
          × (user.username ≡ name)
          × (user.id ≡ s.next_user_id)
          × (lookup name s.passwords ≡ none)
          × ((n : Text)
              → (lookup n s'.passwords
                  ≡ (if name == n then some (sha256_hex password) else lookup n s.passwords))
                × (lookup n s'.users_by_name
                    ≡ (if name == n then some user else lookup n s.users_by_name))))
unfolding Service.register_user create_user
register_user-cases [] password s = inl (refl, refl, inl refl)
register_user-cases (c ∷ name) password s = elim (Option-cases (lookup (c ∷ name) s.passwords)) [
  | inl new ↦
      rw (sha256_hex-ne-nil password, new)
        (inr (
          _,
          refl,
          refl,
          refl,
          refl,
          λ n. (lookup-insert _ n _ s.passwords, lookup-insert _ n _ s.users_by_name),
        ))
  | inr (stored, taken) ↦ rw (sha256_hex-ne-nil password, taken) (inl (refl, refl, inr refl))
]

-- After a registration that succeeded the new name logs in with exactly the passwords of the same
-- digest, and every other name logs in as before.
pub authenticate-register_user :
    (name password : Text) (s : Users) (user : User)
    → (client.register_user name password s).0 ≡ some user
    → (n attempt : Text)
    → client.authenticate n attempt (client.register_user name password s).1 ≡ (
        if name == n
        then if sha256_hex password == sha256_hex attempt then some user else none
        else client.authenticate n attempt s)
unfolding Service.authenticate authenticate
authenticate-register_user name password s user made n attempt =
    elim (register_user-cases name password s) [
      | inl (failed, _, _) ↦ absurd (cc (made, failed))
      | inr (user', out, _, _, _, found) ↦
          let same : user' ≡ user = cc (made, out) in
          elim (Bool-cases (name == n)) [
            | inl e ↦ rw ((found n).0, (found n).1, e, same) refl
            | inr e ↦ rw ((found n).0, (found n).1, e) refl
          ]
    ]

-- Registering a free name that is not empty with an empty password succeeds: the repository tests
-- the digest, which is never empty.
pub register_user-empty_password :
    (name : Text) (s : Users)
    → name ≢ []
    → lookup name s.passwords ≡ none
    → is_some (client.register_user name [] s).0 ≡ true
unfolding Service.register_user create_user
register_user-empty_password [] s h new = absurd (h refl)
register_user-empty_password (c ∷ name) s h new = rw (sha256_hex-ne-nil [], new) refl
