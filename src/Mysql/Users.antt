-- ===== src/Mysql/Users.antt =====
-- `MysqlUserRepository` of src/app/repository/mysql/mysql_repositories.cpp. `pool` says that `pool_` is
-- not null.
use my_bookstore.Base.{
  is_empty, pos, [], wrap32, ◌||◌, not, some, ◌∷◌, if◌then◌else◌, none, ◌++◌, List, Option, codes,
  Bool, Text,
}
use my_bookstore.Model.{User}
use my_bookstore.Mysql.{
  Text, Bool, Session, Client, Method, done, read, write, or_return, or_no_result, insert_id, talk,
  with_connection, return, Row,
}
use my_bookstore.Mysql.Rows.{user_from_row}

module _ (escape : Text → Text) where
  unfoldable pub insert_user_sql : Text → Text → Text
  insert_user_sql username password =
      codes "INSERT INTO user(username, passwd) VALUES('"
      ++ escape username
      ++ codes "', '"
      ++ escape password
      ++ codes "')"

  unfoldable pub select_user_sql : Text → Text → Text
  select_user_sql username password =
      codes "SELECT id,username FROM user WHERE username='"
      ++ escape username
      ++ codes "' AND passwd='"
      ++ escape password
      ++ codes "' LIMIT 1"

  unfoldable pub insert_user : Text → Text → Session (Option User)
  unfolding or_return
  insert_user username password =
      or_return (write (insert_user_sql username password)) none
        (insert_id (λ id. done (some (record { id = wrap32 (pos id); username = username }))))

  -- The first row, if there is one.
  unfoldable pub first_user : List Row → Session (Option User)
  first_user [] = done none
  first_user (row ∷ rows) = done (some (user_from_row row))

  unfoldable pub select_user : Text → Text → Session (Option User)
  unfolding or_return or_no_result first_user
  select_user username password =
      or_return (read (select_user_sql username password)) none
        (or_no_result (done none) first_user)

module _ {D : Type 0} (client : Client D) (pool : Bool) where
  unfoldable pub create_user : Text → Text → Method D (Option User)
  unfolding with_connection talk insert_user
  create_user username password =
      if not pool || is_empty username || is_empty password
      then return none
      else with_connection none
          (λ con. talk client con (insert_user (client.escape con) username password))

  unfoldable pub authenticate : Text → Text → Method D (Option User)
  unfolding with_connection talk select_user
  authenticate username password =
      if not pool || is_empty username || is_empty password
      then return none
      else with_connection none
          (λ con. talk client con (select_user (client.escape con) username password))
