-- ===== src/Config.antt =====
-- `Config` of src/core/config.cpp, and `trig_mode` of src/core/webserver.cpp.
use my_bookstore.Base.{◌∷◌, [], int_eq, nat_eq, Text, if◌then◌else◌, List, pos, ℕ, ℤ}
use my_bookstore.Controllers.{atoi}

pub record Config : Type 0 where
  pub port : ℤ
  pub log_write : ℤ
  pub trig_mode : ℤ
  pub listen_trigmode : ℤ
  pub conn_trigmode : ℤ
  pub opt_linger : ℤ
  pub sql_num : ℤ
  pub thread_num : ℤ
  pub close_log : ℤ
  pub actor_model : ℤ

-- The constructor.
abbrev pub default_config : Config
default_config = record {
  port = pos 9006;
  log_write = pos 0;
  trig_mode = pos 0;
  listen_trigmode = pos 0;
  conn_trigmode = pos 0;
  opt_linger = pos 0;
  sql_num = pos 8;
  thread_num = pos 8;
  close_log = pos 0;
  actor_model = pos 0;
}

-- The switch of `parse_arg`.
unfoldable pub set_option : ℕ → ℤ → Config → Config
set_option opt n c =
    if nat_eq opt b'p'
    then record c { port = n }
    else if nat_eq opt b'l'
    then record c { log_write = n }
    else if nat_eq opt b'm'
    then record c { trig_mode = n }
    else if nat_eq opt b'o'
    then record c { opt_linger = n }
    else if nat_eq opt b's'
    then record c { sql_num = n }
    else if nat_eq opt b't'
    then record c { thread_num = n }
    else if nat_eq opt b'c'
    then record c { close_log = n }
    else if nat_eq opt b'a'
    then record c { actor_model = n }
    else c

-- `parse_arg`, over the options and arguments that `getopt` gives.
unfoldable pub parse_arg : List (ℕ × Text) → Config → Config
unfolding set_option atoi
parse_arg [] c = c
parse_arg ((opt, optarg) ∷ rest) c = parse_arg rest (set_option opt (atoi optarg) c)

-- `trig_mode` of the server: the modes of the listening socket and of the connections.
unfoldable pub trig_mode : ℤ → ℤ × ℤ → ℤ × ℤ
trig_mode mode old =
    if int_eq mode (pos 0)
    then (pos 0, pos 0)
    else if int_eq mode (pos 1)
    then (pos 0, pos 1)
    else if int_eq mode (pos 2)
    then (pos 1, pos 0)
    else if int_eq mode (pos 3)
    then (pos 1, pos 1)
    else old
