-- ===== src/Auth/User/Locked.antt =====
-- Save of InMemoryUserStore under its mutex, a shared access at a time.
use g_rpc_playground.Prelude.{
  String, ◌≡◌, ◌∙◌, ◌==◌, Option, none, some, List, [], ◌∷◌, ap, if◌then◌else◌, Option-cases, inl,
  inr, arith, eq_iff,
}
use g_rpc_playground.Dict.{Dict, get, put, get-put}
use g_rpc_playground.Auth.User.{User, clone, save}
use g_rpc_playground.Locks.{Methods, System, Reach, replay, effect, run_writes}
use g_rpc_playground.Locks.Invariant.{settled, Reach-Inv}

abbrev pub load : User → Dict User → Option User
load user users = get users user.username

-- A name that is taken is refused.
abbrev pub writes : User → Option User → List (Dict User → Dict User)
writes user none = (λ users. put users user.username (clone user)) ∷ []
writes user (some other) = []

abbrev pub save_method : Methods User (Dict User) (Option User)
save_method = record { load = load; writes = writes }

effect-save :
    (user : User) (users : Dict User) → effect save_method user users ≡ (save user users).1
unfolding save run_writes
effect-save user users = elim (Option-cases (get users user.username)) [
  | inl e ↦ rw e
  | inr (other, e) ↦ rw e
]

-- The first of these users with a name.
unfoldable pub first_named : String → List User → Option User
first_named name [] = none
first_named name (user ∷ users) =
    if user.username == name then some user else first_named name users

abbrev or_else : Option User → Option User → Option User
or_else none second = second
or_else (some user) second = some user

get-effect :
    (user : User) (users : Dict User) (name : String)
    → get (effect save_method user users) name
      ≡ or_else (get users name) (if user.username == name then some user else none)
unfolding clone run_writes
get-effect user users name =
    ground (arith, get-put users user.username user name, eq_iff user.username name)

get-replay :
    (saves : List User) (users : Dict User) (name : String)
    → get (replay save_method saves users) name ≡ or_else (get users name) (first_named name saves)
unfolding replay first_named
get-replay [] users name = elim (Option-cases (get users name)) [
  | inl e ↦ rw e
  | inr (user, e) ↦ rw e
]
get-replay (user ∷ saves) users name =
    rw (get-replay saves (effect save_method user users) name)
      (rw (get-effect user users name) (ground arith))

-- However the accesses of any calls of Save from any threads to a new user store interleave under its
-- mutex: once the call that holds the lock, if any, has made its write, a name has the first user whose
-- Save under it got the lock, so no user ever replaces another.
pub locked-first_named :
    {s : System User (Dict User) (Option User)}
    → Reach save_method [] s
    → (name : String) → get (settled save_method s) name ≡ first_named name s.log
unfolding get
locked-first_named {s} r name =
    ap (λ (users : Dict User). get users name) (Reach-Inv save_method r).replayed
    ∙ get-replay s.log [] name
