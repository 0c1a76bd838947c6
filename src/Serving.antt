-- ===== src/Serving.antt =====
-- What the three server programs do last: net.Listen on an address, then Serve on the listener. Both are
-- arguments: net.Listen by its answer for an address, Serve by what it does to the services for as long
-- as it runs.
use Prim.Native.Char.{code}
use g_rpc_playground.Prelude.{ℕ, ◌+◌, ◌<◌, String, ◌≡◌, ltb, if◌then◌else◌}
use g_rpc_playground.Status.{Error}
use g_rpc_playground.Exec.{Exec, Result, err, lift, or_exit, ◌>>=◌}

module _ {L S : Type 0} (listen : String → Result L) (serve : L → Exec S Unit) where
  unfoldable pub listen_and_serve : String → Exec S Unit
  listen_and_serve address = do listener ← or_exit (lift (listen address)); or_exit (serve listener)

-- How often the character with a code stands in a text.
unfoldable pub occurrences : ℕ → String → ℕ
occurrences n String.[] = 0
occurrences n (String.◌∷◌ c s) =
    (if ltb (code c) n then 0 else if ltb n (code c) then 0 else 1) + occurrences n s

-- What net documents of an address "host:port" (net.SplitHostPort): a host with a colon in it must be
-- enclosed in square brackets. 58 is the colon, 91 the bracket.
pub record SplitsHostPort {L : Type 0} (listen : String → Result L) : Type 0 where
  pub too_many_colons :
      (address : String)
      → occurrences 91 address ≡ 0
      → 1 < occurrences 58 address
      → (e : Error) × (listen address ≡ err e)
