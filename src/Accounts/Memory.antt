-- ===== src/Accounts/Memory.antt =====
-- `MemoryUserRepository` of src/app/repository/memory/memory_repositories.h.
use my_bookstore.Base.{
  insert, ◌+ℤ◌, wrap32, is_some, text_eq, ◌==◌, none, some, ◌||◌, false, is_empty, lookup, Bool,
  Dict, [], if◌then◌else◌, Option, Text, pos, ℤ,
}
use my_bookstore.Model.{User}
use my_bookstore.Accounts.{Text, Option, UserRepository}

-- The members `next_user_id_`, `users_by_name_` and `passwords_`.
pub record Users : Type 0 where
  pub next_user_id : ℤ
  pub users_by_name : Dict Text User
  pub passwords : Dict Text Text

abbrev pub empty_users : Users
empty_users = record { next_user_id = pos 1; users_by_name = []; passwords = [] }

unfoldable pub create_user : Text → Text → Users → Option User × Users
create_user username password s =
    if is_empty username || is_empty password
    then (none, s)
    else if is_some (lookup username s.passwords)
    then (none, s)
    else let user : User = record { id = s.next_user_id; username = username } in
      (
        some user,
        record {
          next_user_id = wrap32 (s.next_user_id +ℤ pos 1);
          users_by_name = insert username user s.users_by_name;
          passwords = insert username password s.passwords;
        },
      )

-- `it != end && it->second == password`
abbrev holds_password : Option Text → Text → Bool
holds_password none password = false
holds_password (some stored) password = stored == password

unfoldable pub authenticate : Text → Text → Users → Option User
authenticate username password s =
    if holds_password (lookup username s.passwords) password
    then lookup username s.users_by_name
    else none

abbrev pub memory : UserRepository Users
memory = record { create_user = create_user; authenticate = authenticate }
