-- ===== src/Grpc/Users.antt =====
-- `UserGrpcServiceImpl` of src/app/grpc/user_grpc_service.cpp and `GrpcUserClient` of
-- src/app/client/grpc_user_client.cpp, with the messages of proto/user/v1/user.proto.
pub mod Service
pub mod Client
use my_bookstore.Base.{Text, wrap32, ℤ}
use my_bookstore.Grpc.{
  Text, Answer, answered, failed, invalid_argument, already_exists, unauthenticated, Call, if_ok,
}
use my_bookstore.Model.{User}
use my_bookstore.Accounts.{UserClient}

-- The request of `Register` and of `Login`.
pub record Credentials : Type 0 where
  pub username : Text
  pub password : Text

pub record UserMessage : Type 0 where
  pub user_id : ℤ
  pub username : Text

unfoldable pub fill_user : User → UserMessage
fill_user source = record { user_id = source.id; username = source.username }

unfoldable pub user_from_proto : UserMessage → User
user_from_proto source = record { id = wrap32 source.user_id; username = source.username }

pub record UserStub (S : Type 0) : Type 0 where
  pub register_user : Call S Credentials UserMessage
  pub login : Credentials → S → Answer UserMessage
