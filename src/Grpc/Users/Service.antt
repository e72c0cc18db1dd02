-- ===== src/Grpc/Users/Service.antt =====
-- `UserGrpcServiceImpl` of src/app/grpc/user_grpc_service.cpp.
use my_bookstore.Base.{codes, ◌||◌, is_empty, none, if◌then◌else◌, some, Option}
use my_bookstore.Grpc.Users.{Credentials, fill_user, UserStub, UserMessage}
use my_bookstore.Grpc.{
  Option, Answer, answered, failed, invalid_argument, already_exists, unauthenticated, Call,
}
use my_bookstore.Model.{User}
use my_bookstore.Accounts.{UserClient}

abbrev user_or : Answer UserMessage → Option User → Answer UserMessage
user_or status none = status
user_or status (some user) = answered (fill_user user)

module _ {S : Type 0} (service : UserClient S) where
  unfoldable pub register_user : Call S Credentials UserMessage
  unfolding fill_user
  register_user request s =
      if is_empty request.username || is_empty request.password
      then (failed invalid_argument (codes "invalid register request"), s)
      else let (user, s') = service.register_user request.username request.password s in
        (user_or (failed already_exists (codes "user exists or invalid")) user, s')

  unfoldable pub login : Credentials → S → Answer UserMessage
  unfolding fill_user
  login request s =
      if is_empty request.username || is_empty request.password
      then failed invalid_argument (codes "invalid login request")
      else user_or (failed unauthenticated (codes "invalid credentials"))
          (service.authenticate request.username request.password s)

  -- A channel that brings every call to the service and its answer back.
  abbrev pub stub : UserStub S
  stub = record { register_user = register_user; login = login }
