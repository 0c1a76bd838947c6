-- ===== src/Status.antt =====
-- The errors of the services: gRPC statuses (google.golang.org/grpc/status and codes), the error
-- values of service/laptop_store.go, and what fmt.Errorf builds. Of a formatted message the format
-- is kept and its arguments are not; an error that %w wraps is kept.
use g_rpc_playground.Prelude.{String, Bool, true, false, Option, none, some}

pub data Code : Type 0 where
  ok_code canceled unknown invalid_argument deadline_exceeded not_found : Code
  already_exists permission_denied internal unauthenticated unavailable : Code

pub data Error : Type 0 where
  status : Code → String → Error
  err_already_exists : Error
  wrapped : String → Error → Error
  plain : String → Error

-- errors.Is(err, ErrAlreadyExists): along the chain of wrapped errors.
unfoldable pub is_already_exists : Error → Bool
is_already_exists (status c m) = false
is_already_exists err_already_exists = true
is_already_exists (wrapped m e) = is_already_exists e
is_already_exists (plain m) = false

-- ctx.Err()
pub data CtxErr : Type 0 where
  alive ctx_canceled ctx_deadline_exceeded : CtxErr

-- contextError of service/laptop_server.go; `none` is nil.
unfoldable pub context_error : CtxErr → Option Error
context_error ctx_canceled = some (status canceled "request is canceled")
context_error ctx_deadline_exceeded = some (status deadline_exceeded "deadline is exceeded")
context_error alive = none

-- What stream.Recv() hands over: a message, io.EOF, or another error.
pub data Recv {ℓ} (A : Type ℓ) : Type ℓ where
  message : A → Recv A
  eof : Recv A
  broken : Error → Recv A
