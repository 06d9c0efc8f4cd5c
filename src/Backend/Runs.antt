-- ===== src/Backend/Runs.antt =====
-- Any sequence of requests to the backend about users and results (backend/app.py).
pub mod Users
pub mod Requests
use frass_f.Base.{ℕ, List, [], ◌∷◌, Option, Text}
use frass_f.Base.Int.{ℤ}
use frass_f.Backend.State.{Backend, Env, Config}
use frass_f.Backend.Match.{Engine}
use frass_f.Backend.Results.{Result, receive_result, sync_batch}
use frass_f.Backend.Users.{Registration, Entry, register_user, verify_face, log_attendance}

-- A request, with its clock and what raises in it; a batch has one for each of its results.
pub data Request (E : Type 0) : Type 0 where
  register : Registration E → Env → Request E
  verify : Option E → Option ℤ → Env → Request E
  log : Entry → Env → Request E
  result : Result E → Text → Env → Request E
  batch : List (Result E × Env) → Text → Request E

module _ {C E : Type 0} (K : Engine E) (cfg : Config) where
  unfoldable pub handle : Request E → Backend C E → Backend C E
  unfolding register_user verify_face log_attendance receive_result sync_batch
  handle (register r env) b = (register_user K cfg r env b).1
  handle (verify e threshold env) b = (verify_face K cfg e threshold env b).1
  handle (log e env) b = (log_attendance e env b).1
  handle (result r device_id env) b = (receive_result K cfg r device_id env b).1
  handle (batch rs device_id) b = (sync_batch K cfg rs device_id b).1

  unfoldable pub handle_all : List (Request E) → Backend C E → Backend C E
  unfolding handle
  handle_all [] b = b
  handle_all (r ∷ rs) b = handle_all rs (handle r b)
