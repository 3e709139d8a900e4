-- ===== src/Store/Users.antt =====
-- The users of internal/store/store.go, with their index by e-mail address.
pub mod Index
use fxcore.Prelude.{
  ℕ, String, str_eq, Bool, true, false, Option, none, some, if◌then◌else◌, is_some,
}
use fxcore.Prelude.Dict.{lookup, insert}
use fxcore.Model.User.{User}
use fxcore.Store.{Store}

pub data UserError : Type 0 where
  email_taken : UserError
  user_not_found : UserError

-- The user as it is stored: an id of its own if the caller gave none, and the times.
abbrev pub stamped : ℕ → String → User → User
stamped now fresh u = record u {
  id = if str_eq u.id "" then fresh else u.id;
  created_at = now;
  updated_at = now;
}

module _ {F : Type 0} where
  abbrev pub add_user : User → Store F → Store F
  add_user u s = record s {
    users = insert u.id u s.users;
    email_index = insert u.email u.id s.email_index;
  }

  unfoldable pub create_user : ℕ → String → User → Store F → Option UserError × Store F
  create_user now fresh u s =
      if is_some (lookup u.email s.email_index)
      then (some email_taken, s)
      else (none, add_user (stamped now fresh u) s)

  abbrev user_at : Option String → Store F → Option User
  user_at none s = none
  user_at (some id) s = lookup id s.users

  unfoldable pub get_user_by_email : String → Store F → Option User
  get_user_by_email email s = user_at (lookup email s.email_index) s

  unfoldable pub get_user_by_id : String → Store F → Option User
  get_user_by_id id s = lookup id s.users

  abbrev with_password : ℕ → String → String → Option User → Store F → Option UserError × Store F
  with_password now id hash none s = (some user_not_found, s)
  with_password now id hash (some u) s = (
    none,
    record s { users = insert id (record u { password_hash = hash; updated_at = now }) s.users },
  )

  unfoldable pub update_user_password : ℕ → String → String → Store F → Option UserError × Store F
  update_user_password now id hash s = with_password now id hash (lookup id s.users) s
