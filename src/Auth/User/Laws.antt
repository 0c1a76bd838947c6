-- ===== src/Auth/User/Laws.antt =====
-- What the user store promises: the first user of a name stays, and Find returns it.
use g_rpc_playground.Prelude.{
  String, ◌≡◌, true, Option, none, some, [], arith, ◌==◌, eq_iff, if◌then◌else◌, ◌∷◌, Bool-cases,
  Option-cases, inl, inr,
}
use g_rpc_playground.Status.{err_already_exists}
use g_rpc_playground.Exec.{Outcome, ret, fail, ok}
use g_rpc_playground.Dict.{Dict, get, put, get-put}
use g_rpc_playground.Auth.User.{
  User, Bcrypt, clone, new_user, is_correct_password, save, find, in_memory_user_store, create_user,
  seed_users,
}

-- What bcrypt documents: a password compares equal with its own hash, whatever the salt.
pub record Compares {Salt : Type 0} (bcrypt : Bcrypt Salt) : Type 0 where
  pub compare_lem :
      (salt : Salt) (password hash : String)
      → bcrypt.generate salt password ≡ ok hash
      → bcrypt.compare_hash hash password ≡ none

-- The user of a name after a Save of `u` under it.
abbrev pub first_of_name : Option User → User → User
first_of_name none u = u
first_of_name (some old) u = old

abbrev pub save_answer : Option User → Outcome (Unit {0})
save_answer none = ret tt
save_answer (some old) = fail err_already_exists

-- Save returns ErrAlreadyExists exactly for a name that is taken. Afterwards Find of the name returns
-- the first user that was saved under it, and Find of any other name what it returned before.
find-save_user :
    (u : User) (users : Dict User) (name : String)
    → ((save u users).0 ≡ save_answer (get users u.username))
      × ((find name (save u users).1).0 ≡ (
          if u.username == name
          then ret (some (first_of_name (get users u.username) u))
          else (find name users).0))
unfolding save find clone
find-save_user u users name = elim (Option-cases (get users u.username)) [
  | inl e ↦ (
    rw e,
    elim (Bool-cases (u.username == name)) [
      | inl same ↦ rw (e, same) (rw (get-put users u.username u name, same))
      | inr other ↦ rw (e, other) (rw (get-put users u.username u name, other))
    ],
  )
  | inr (old, e) ↦ (
    rw e,
    elim (Bool-cases (u.username == name)) [
      | inl same ↦ rw (e, same) (rw (← (eq_iff u.username name).0 same) (rw e))
      | inr other ↦ rw (e, other)
    ],
  )
]

-- A name that has a user keeps that very user through any Save.
save_keeps :
    (u old : User) (users : Dict User) (name : String)
    → get users name ≡ some old
    → get (save u users).1 name ≡ some old
unfolding save clone
save_keeps u old users name h =
    ground (arith, get-put users u.username u name, eq_iff u.username name)

module _ {Salt : Type 0} (bcrypt : Bcrypt Salt) where
  -- SeedUsers on a new store, where bcrypt hashes both passwords and compares them with their
  -- hashes: the store has an admin and a user, and "secret" is the password of both. Seeding it
  -- once more is refused and changes nothing.
  pub seed_users_lem :
      (laws : Compares bcrypt) (salt salt' : Salt) (hash hash' : String)
      → bcrypt.generate salt "secret" ≡ ok hash
      → bcrypt.generate salt' "secret" ≡ ok hash'
      → let admin : User = record { username = "admin1"; hashed_password = hash; role = "admin" } in
        let user : User = record { username = "user1"; hashed_password = hash'; role = "user" } in
        let seeded : Dict User = ("admin1", admin) ∷ ("user1", user) ∷ [] in
        (seed_users bcrypt in_memory_user_store salt salt' [] ≡ (ret tt, seeded))
        × (is_correct_password bcrypt admin "secret" ≡ true)
        × (is_correct_password bcrypt user "secret" ≡ true)
        × (seed_users bcrypt in_memory_user_store salt salt' seeded
            ≡ (fail err_already_exists, seeded))
  unfolding seed_users create_user new_user in_memory_user_store save clone get put
      is_correct_password
  seed_users_lem laws salt salt' hash hash' h h' = (
    rw (h, h'),
    rw (is_correct_password, laws.compare_lem salt "secret" hash h),
    rw (is_correct_password, laws.compare_lem salt' "secret" hash' h'),
    rw h,
  )
