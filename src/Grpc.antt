-- ===== src/Grpc.antt =====
-- The services behind gRPC of src/app/grpc and their clients of src/app/client/grpc_*.cpp. The messages are
-- those of proto/; `int64` and `int32` are integers. A stub is a parameter: a call of a remote
-- procedure gives a status, with the response where the status is OK, and the state behind the channel.
pub mod Orders
pub mod Inventory
pub mod Books
pub mod Users
use my_bookstore.Base.{Option, Text}

-- `grpc::StatusCode`, of what the services return and what a channel adds.
pub data Code : Type 0 where
  invalid_argument not_found already_exists failed_precondition unauthenticated unavailable : Code

-- A response is sent with the status OK only.
pub data Answer (A : Type 0) : Type 0 where
  answered : A → Answer A
  failed : Code → Text → Answer A

-- A remote procedure.
abbrev pub Call : Type 0 → Type 0 → Type 0 → Type 0
Call S Request Response = Request → S → Answer Response × S

-- `if (!status.ok()) return failure; return read(response);`
abbrev pub if_ok : {A B : Type 0} → B → (A → B) → Answer A → B
if_ok failure read (answered response) = read response
if_ok failure read (failed code message) = failure
