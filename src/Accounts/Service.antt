-- ===== src/Accounts/Service.antt =====
-- `UserService` of src/app/service/user_service.h, which hashes the password, and `LocalUserClient`
-- of src/app/client/local_user_client.h.
use my_bookstore.Base.{Option, Text}
use my_bookstore.Model.{User}
use my_bookstore.Hash.{sha256_hex}
use my_bookstore.Accounts.{Option, Text, UserRepository, UserClient}

module _ {S : Type 0} (r : UserRepository S) where
  unfoldable pub register_user : Text → Text → S → Option User × S
  register_user username password s = r.create_user username (sha256_hex password) s

  unfoldable pub authenticate : Text → Text → S → Option User
  authenticate username password s = r.authenticate username (sha256_hex password) s

abbrev pub local_client : {S : Type 0} → UserRepository S → UserClient S
local_client r = record { register_user = register_user r; authenticate = authenticate r }
