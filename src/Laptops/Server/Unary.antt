-- ===== src/Laptops/Server/Unary.antt =====
-- CreateLaptop and GetLaptopByID of service/laptop_server.go.
pub mod Created
pub mod Lookup
use g_rpc_playground.Prelude.{ℕ, String, ◌==◌, Option, none, some, if◌then◌else◌}
use g_rpc_playground.Status.{
  Error, status, canceled, invalid_argument, deadline_exceeded, not_found, already_exists, internal,
  is_already_exists, CtxErr, alive, ctx_canceled, ctx_deadline_exceeded,
}
use g_rpc_playground.Exec.{Exec, Result, pure, panic, lift, check, or_error, zoom, ◌>>=◌, ◌>>◌}
use g_rpc_playground.Pb.Specs.{Laptop}
use g_rpc_playground.Pb.Laptops.{
  CreateLaptopRequest, CreateLaptopResponse, GetLaptopByIdRequest, GetLaptopByIdResponse,
}
use g_rpc_playground.Laptops.Store.{LaptopStore}
use g_rpc_playground.Laptops.Server.{LaptopServer, check_as}

-- The two tests of CreateLaptop on its context, each with an answer of its own.
abbrev pub canceled_error : CtxErr → Option Error
canceled_error ctx_canceled = some (status canceled "request is canceled")
canceled_error ctx_deadline_exceeded = none
canceled_error alive = none

abbrev pub deadline_error : CtxErr → Option Error
deadline_error ctx_deadline_exceeded = some (status deadline_exceeded "deadline is exceeded")
deadline_error ctx_canceled = none
deadline_error alive = none

-- What CreateLaptop makes of an error of Save.
unfoldable pub save_error : Error → Error
save_error e =
    status (if is_already_exists e then already_exists else internal)
      "cannot save laptop to the store: %v"

module _ {F : Type 0} {S : Type 0} (uuid_parse : String → Option Error)
    (fresh : Result String) where
  -- The laptop with an ID: its own, if uuid.Parse takes it, or the one that uuid.NewRandom gave.
  unfoldable pub with_id : Laptop F → Exec S (Laptop F)
  with_id l =
      if l.id == ""
      then (do
        id ← or_error (lift fresh) (λ _. status internal "cannot generate a new laptop ID: %v")
        pure (record l { id = id }))
      else (do
        check_as (uuid_parse l.id) (status invalid_argument "laptop ID is not a valid UUID: %v")
        pure l)

module _ {F : Type 0} {L I R T : Type 0} (laptops : LaptopStore F L T) where
  -- CreateLaptop behind the laptop's ID: the two tests of the context, Save and the response.
  unfoldable pub save_checked :
      (ℕ → CtxErr) → Laptop F → Exec (LaptopServer L I R) CreateLaptopResponse
  save_checked ctx laptop = do
    check (canceled_error (ctx 0))
    check (deadline_error (ctx 1))
    or_error
        (zoom (λ s. s.laptop_store) (λ s t. record s { laptop_store = t }) (laptops.save laptop))
        save_error
    pure (record { id = laptop.id })

  module _ (uuid_parse : String → Option Error) (fresh : Result String) (ctx : ℕ → CtxErr) where
    create_given : Option (Laptop F) → Exec (LaptopServer L I R) CreateLaptopResponse
    create_given none = panic
    create_given (some given) = do laptop ← with_id uuid_parse fresh given; save_checked ctx laptop

    -- CreateLaptop; the log line reads the ID of a laptop that may be nil.
    unfoldable pub create_laptop :
        CreateLaptopRequest F → Exec (LaptopServer L I R) CreateLaptopResponse
    unfolding create_given
    create_laptop req = create_given req.laptop

  -- GetLaptopByID
  unfoldable pub get_laptop_by_id :
      GetLaptopByIdRequest → Exec (LaptopServer L I R) (GetLaptopByIdResponse F)
  get_laptop_by_id req = do
    laptop ←
        or_error
          (zoom (λ s. s.laptop_store) (λ s t. record s { laptop_store = t }) (laptops.find req.id))
          (λ _. status not_found "Laptop with ID: %s not Ffound.")
    pure (record { laptop = laptop })
