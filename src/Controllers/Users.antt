-- ===== src/Controllers/Users.antt =====
-- src/app/controller/auth_controller.h.
use my_bookstore.Controllers.{success, failure}
use my_bookstore.Json.{escape_json_string, json_string_value}
use my_bookstore.Http.{HttpResponse}
use my_bookstore.Base.{none, some, to_string, ◌++◌, codes, Option, Text}
use my_bookstore.Http.Router.{Handler}
use my_bookstore.Model.{User}
use my_bookstore.Accounts.{UserClient}

abbrev user_data : User → Text
user_data user =
    codes "\"user_id\":"
    ++ (to_string user.id
        ++ (codes ",\"username\":\"" ++ (escape_json_string user.username ++ codes "\"")))

module _ {S : Type 0} (client : UserClient S) where
  abbrev registered : Option User × S → HttpResponse × S
  registered (none, s) = (failure 409 (codes "user already exists or invalid"), s)
  registered (some user, s) = (success 201 (user_data user), s)

  abbrev register_with : Option Text → Option Text → S → HttpResponse × S
  register_with (some username) (some password) s =
      registered (client.register_user username password s)
  register_with (some username) none s = (failure 400 (codes "invalid register request"), s)
  register_with none password s = (failure 400 (codes "invalid register request"), s)

  unfoldable pub handle_register_user : Handler S
  handle_register_user request s =
      register_with (json_string_value request.body (codes "username"))
        (json_string_value request.body (codes "password")) s

  abbrev logged_in : Option User → S → HttpResponse × S
  logged_in none s = (failure 401 (codes "invalid credentials"), s)
  logged_in (some user) s = (success 200 (user_data user), s)

  abbrev login_with : Option Text → Option Text → S → HttpResponse × S
  login_with (some username) (some password) s =
      logged_in (client.authenticate username password s) s
  login_with (some username) none s = (failure 400 (codes "invalid login request"), s)
  login_with none password s = (failure 400 (codes "invalid login request"), s)

  unfoldable pub handle_login_user : Handler S
  handle_login_user request s =
      login_with (json_string_value request.body (codes "username"))
        (json_string_value request.body (codes "password")) s
