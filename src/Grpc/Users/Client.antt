-- ===== src/Grpc/Users/Client.antt =====
-- `GrpcUserClient` of src/app/client/grpc_user_client.cpp.
use my_bookstore.Base.{some, none, Option, Text}
use my_bookstore.Grpc.Users.{UserMessage, user_from_proto, UserStub}
use my_bookstore.Grpc.{Text, Answer, if_ok}
use my_bookstore.Model.{User}
use my_bookstore.Accounts.{UserClient}

module _ {S : Type 0} (stub : UserStub S) where
  abbrev user_of : Answer UserMessage → Option User
  unfolding user_from_proto
  user_of = if_ok none (λ message. some (user_from_proto message))

  unfoldable pub register_user : Text → Text → S → Option User × S
  unfolding user_of
  register_user username password s =
      let (answer, s') =
        stub.register_user (record { username = username; password = password }) s in
      (user_of answer, s')

  unfoldable pub authenticate : Text → Text → S → Option User
  unfolding user_of
  authenticate username password s =
      user_of (stub.login (record { username = username; password = password }) s)

  abbrev pub remote_client : UserClient S
  remote_client = record { register_user = register_user; authenticate = authenticate }
