-- ===== src/Auth/User.antt =====
-- service/user.go and service/user_store.go: users with hashed passwords, and the store of them.
-- bcrypt is another project's: an argument.
pub mod Laws
pub mod Locked
use g_rpc_playground.Prelude.{String, Bool, true, false, Option, none, some, List, []}
use g_rpc_playground.Status.{Error, err_already_exists, wrapped}
use g_rpc_playground.Exec.{Exec, Result, ok, err, pure, raise, modify, lift, ◌>>=◌, ◌>>◌}
use g_rpc_playground.Dict.{Dict, get, put}

pub record User : Type 0 where
  pub username : String
  pub hashed_password : String
  pub role : String

-- bcrypt.GenerateFromPassword at the default cost, which draws a salt, and
-- bcrypt.CompareHashAndPassword.
pub record Bcrypt (Salt : Type 0) : Type 0 where
  pub generate : Salt → String → Result String
  pub compare_hash : String → String → Option Error

module _ {Salt : Type 0} (bcrypt : Bcrypt Salt) where
  hashed : String → String → Result String → Result User
  hashed username role (ok hash) =
      ok (record { username = username; hashed_password = hash; role = role })
  hashed username role (err e) = err (wrapped "cannot hash password: %w" e)

  -- NewUser
  unfoldable pub new_user : Salt → String → String → String → Result User
  unfolding hashed
  new_user salt username password role = hashed username role (bcrypt.generate salt password)

  -- (*User).IsCorrectPassword
  unfoldable pub is_correct_password : User → String → Bool
  is_correct_password user password = elim (bcrypt.compare_hash user.hashed_password password) [
    | none ↦ true
    | some e ↦ false
  ]

-- (*User).Clone
unfoldable pub clone : User → User
clone user = record {
  username = user.username;
  hashed_password = user.hashed_password;
  role = user.role;
}

pub record UserStore (S : Type 0) : Type 0 where
  pub save : User → Exec S Unit
  pub find : String → Exec S (Option User)

save_unless : Option User → User → Exec (Dict User) Unit
save_unless none user = modify (λ users. put users user.username (clone user))
save_unless (some other) user = raise err_already_exists

-- (*InMemoryUserStore).Save
unfoldable pub save : User → Exec (Dict User) Unit
unfolding save_unless
save user users = save_unless (get users user.username) user users

unfoldable pub cloned : Option User → Option User
cloned none = none
cloned (some user) = some (clone user)

-- (*InMemoryUserStore).Find: nil and no error for a name without a user.
unfoldable pub find : String → Exec (Dict User) (Option User)
unfolding cloned
find username users = pure (cloned (get users username)) users

-- NewInMemoryUserStore
abbrev pub new_in_memory_user_store : Dict User
new_in_memory_user_store = []

unfoldable pub in_memory_user_store : UserStore (Dict User)
in_memory_user_store = record { save = save; find = find }

module _ {Salt S : Type 0} (bcrypt : Bcrypt Salt) (store : UserStore S) where
  -- CreateUser
  unfoldable pub create_user : Salt → String → String → String → Exec S Unit
  create_user salt username password role = do
    user ← lift (new_user bcrypt salt username password role)
    store.save user

  -- SeedUsers
  unfoldable pub seed_users : Salt → Salt → Exec S Unit
  seed_users salt salt' = do
    create_user salt "admin1" "secret" "admin"
    create_user salt' "user1" "secret" "user"
