-- ===== src/Served.antt =====
-- What grpc hands a client of a call that a handler has served: its response; or its messages in their
-- order, then io.EOF where it returned nil; or its error.
use g_rpc_playground.Prelude.{List, [], ◌∷◌}
use g_rpc_playground.Status.{Error, status, internal, unavailable, Recv, message, eof, broken}
use g_rpc_playground.Exec.{Outcome, Exec, ret, fail, panicked, exited, waiting}

-- The error of a call whose server process has ended, by a panic or by log.Fatal.
abbrev pub lost : Error
lost = status unavailable "error reading from server: EOF"

abbrev pub reached : {A : Type 0} → Outcome A → Outcome A
reached (ret a) = ret a
reached (fail e) = fail e
reached panicked = fail lost
reached exited = fail lost
reached waiting = waiting

abbrev pub served_unary : {S A : Type 0} → Exec S A → Exec S A
served_unary handler s = let (r, s') = handler s in (reached r, s')

abbrev last_recv : {M : Type 0} → Outcome (Unit {0}) → List (Recv M)
last_recv (ret _) = eof ∷ []
last_recv (fail e) = broken e ∷ []
last_recv panicked = broken lost ∷ []
last_recv exited = broken lost ∷ []
last_recv waiting = []

abbrev pub received : {M : Type 0} → Outcome (Unit {0}) → List M → List (Recv M)
received r [] = last_recv r
received r (m ∷ sent) = message m ∷ received r sent

-- The single answer of a client stream: the message of SendAndClose, or the handler's error.
abbrev first_or : {M : Type 0} → List M → Outcome M
first_or [] = fail (status internal "no message was received")
first_or (m ∷ sent) = ret m

abbrev pub closing_answer : {M : Type 0} → Outcome (Unit {0}) → List M → Outcome M
closing_answer (ret _) sent = first_or sent
closing_answer (fail e) sent = fail e
closing_answer panicked sent = fail lost
closing_answer exited sent = fail lost
closing_answer waiting sent = waiting

module _ {S M : Type 0} where
  abbrev pub served : Exec (S × List M) Unit → Exec S (List (Recv M))
  served handler s = let (r, (s', sent)) = handler (s, []) in (ret (received r sent), s')

  abbrev pub served_answer : Exec (S × List M) Unit → Exec S M
  served_answer handler s = let (r, (s', sent)) = handler (s, []) in (closing_answer r sent, s')
