-- ===== src/UserCache.antt =====
-- `UserCache` of src/db/user_cache.cpp.
pub mod Login
pub mod Redis
use my_bookstore.Base.{
  ◌∷◌, [], emplace, true, is_some, none, text_eq, ◌==◌, [], false, if◌then◌else◌, lookup, Bool,
  some, Dict, List, Option, Text,
}
use my_bookstore.Hash.{sha256_hex}

-- `users_`: the digests by name.
abbrev pub Users : Type 0
Users = Dict Text Text

-- A row, whose columns may be NULL.
abbrev pub add_row : Option Text → Option Text → Users → Users
add_row none digest users = users
add_row (some name) none users = users
add_row (some name) (some digest) users = emplace name digest users

-- The loop of `load` over the rows.
unfoldable pub add_rows : List (Option Text × Option Text) → Users → Users
add_rows [] users = users
add_rows ((name, digest) ∷ rest) users = add_rows rest (add_row name digest users)

-- `load`, where `none` is a query that failed or has no result.
unfoldable pub load : Option (List (Option Text × Option Text)) → Users → Users
unfolding add_rows
load none users = users
load (some rows) users = add_rows rows []

-- `it != end && it->second == hashed`
abbrev pub holds_digest : Option Text → Text → Bool
holds_digest none hashed = false
holds_digest (some stored) hashed = stored == hashed

unfoldable pub authenticate : Text → Text → Users → Bool
unfolding sha256_hex
authenticate user pass users = holds_digest (lookup user users) (sha256_hex pass)

-- The database takes a row, or the query fails.
module _ {D : Type 0} (insert_row : Text → Text → D → Bool × D) where
  -- `register_user` under the exclusive lock.
  unfoldable pub register_locked : Text → Text → Users × D → Bool × (Users × D)
  register_locked user hashed (users, db) =
      let (done, db') = insert_row user hashed db in
      if is_some (lookup user users)
      then (false, (users, db))
      else if done
      then (true, (emplace user hashed users, db'))
      else (false, (users, db'))

  -- `register_user`; what other threads do between its two locks is `between`.
  unfoldable pub register_user :
      (Users × D → Users × D) → Text → Text → Users × D → Bool × (Users × D)
  unfolding register_locked sha256_hex
  register_user between user pass (users, db) =
      if is_some (lookup user users)
      then (false, (users, db))
      else register_locked user (sha256_hex pass) (between (users, db))
