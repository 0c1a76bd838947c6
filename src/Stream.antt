-- ===== src/Stream.antt =====
-- One side of a gRPC stream that sends messages of type R: the messages sent so far. Whether the n-th
-- Send fails is the transport's, so it is an argument.
use g_rpc_playground.Prelude.{ℕ, Option, none, some, List, [], ◌∷◌, ◌++◌, length}
use g_rpc_playground.Status.{Error}
use g_rpc_playground.Exec.{ret, fail, Exec, zoom}

module _ {R : Type 0} where
  abbrev pub sent_or : Option Error → R → Exec (List R) Unit
  sent_or none r sent = (ret tt, sent ++ r ∷ [])
  sent_or (some e) r sent = (fail e, sent)

  -- stream.Send(r)
  abbrev pub send : (ℕ → Option Error) → R → Exec (List R) Unit
  send transport r sent = sent_or (transport (length sent)) r sent

-- A client stream as a client meets it: the error of its stub, the error of its n-th Send, and what
-- CloseAndRecv or CloseSend brings for the messages sent.
pub record ClientStream (S M A : Type 0) : Type 0 where
  pub opened : Option Error
  pub transport : ℕ → Option Error
  pub close : List M → Exec S A

module _ {S M A : Type 0} where
  -- A call on the messages that a client has sent, and one on what is behind the stream.
  abbrev pub on_sent : Exec (List M) A → Exec (S × List M) A
  on_sent m = zoom (λ (s, sent). sent) (λ (s, sent) sent'. (s, sent')) m

  abbrev pub close_stream : ClientStream S M A → Exec (S × List M) A
  close_stream stream (s, sent) = let (r, s') = stream.close sent s in (r, (s', sent))
