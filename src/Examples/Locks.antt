-- ===== src/Examples/Locks.antt =====
-- Two threads that rate the laptop "a" at the same time, the second one held up by the lock.
use native.Mathlib.Decide.{ℕ_discrete}
use g_rpc_playground.Prelude.{ℕ, String, ◌≡◌, refl, Option, []}
use g_rpc_playground.Dict.{Dict, get, put}
use g_rpc_playground.Laptops.Rating.{Rating}
use g_rpc_playground.Laptops.Rating.Counts.{scores_of, rating_of}
use g_rpc_playground.Laptops.Rating.Locked.{add_method, locked-rating_of}
use g_rpc_playground.Locks.{System, locks, loads, stores, unlocks, Reach, start, later}
use g_rpc_playground.Locks.Invariant.{settled}
use g_rpc_playground.Examples.Fixtures.{whole_numbers}

abbrev Ratings : Type 0
Ratings = System (String × ℕ) (Dict (Rating ℕ)) (Option (Rating ℕ))

-- Thread 0 has rated, and thread 1 has counted up and not yet added.
record Ran : Type 0 where
  last : Ratings
  reach : Reach add_method [] last

ran : Ran
unfolding ℕ_discrete get put
ran = record {
  last = _;
  reach =
      later
        (later
          (later
            (later
              (later
                (later (later start (locks 0 ("a", 8) refl refl (λ j. refl)))
                  (loads 0 ("a", 8) refl))
                (stores 0 _ _ refl))
              (unlocks 0 refl))
            (locks 1 ("a", 3) refl refl (λ j. refl)))
          (loads 1 ("a", 3) refl))
        (stores 1 _ _ refl);
}

locked-rating_of_example :
    get (settled add_method ran.last) "a" ≡ rating_of (scores_of "a" ran.last.log)
locked-rating_of_example = locked-rating_of ran.reach "a"
