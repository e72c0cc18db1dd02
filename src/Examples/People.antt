-- ===== src/Examples/People.antt =====
-- Accounts: a registration and a login.
use my_bookstore.Hash.{sha256_hex}
use my_bookstore.Accounts.Login.{authenticate-register_user}
use my_bookstore.Base.{
  refl, text_eq, ◌==◌, if◌then◌else◌, none, some, ◌≡◌, lookup, codes, pos, Text,
}
use my_bookstore.Model.{User}
use my_bookstore.Accounts.Service
use my_bookstore.Accounts.Memory.{empty_users, create_user, memory}

abbrev ann : Text
ann = codes "ann"

abbrev first_user : User
first_user = record { id = pos 1; username = ann }

registered :
    ((Service.local_client memory).register_user ann (codes "pw") empty_users).0 ≡ some first_user
unfolding Service.register_user create_user lookup sha256_hex my_bookstore.Hash.hex_of
    my_bookstore.Hash.sha256 my_bookstore.Hash.digest_of
registered = refl

authenticate-register_user_example :
    (Service.local_client memory).authenticate ann
      (codes "no")
      ((Service.local_client memory).register_user ann (codes "pw") empty_users).1
    ≡ (if ann == ann
        then if sha256_hex (codes "pw") == sha256_hex (codes "no") then some first_user else none
        else (Service.local_client memory).authenticate ann (codes "no") empty_users)
authenticate-register_user_example =
    authenticate-register_user ann (codes "pw") empty_users first_user registered ann (codes "no")

nobody : lookup ann empty_users.passwords ≡ none
unfolding lookup
nobody = refl
