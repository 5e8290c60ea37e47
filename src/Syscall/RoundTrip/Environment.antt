-- ===== src/Syscall/RoundTrip/Environment.antt =====
-- The environment calls, from the raw results of kernel/kernel/src/syscall.rs to libs/liblazer/src/env.rs.
use lazers.Base.{ℕ, ◌≡◌, refl, arith}
use lazers.Base.Results.{Result, ok, err}
use lazers.Scheduler.Services.{EnvironmentAccessError}
use lazers.Scheduler.Services as Services
use lazers.Syscall.Errors.{
  GetEnvError, SetEnvError, UnsetEnvError, ListEnvError, resource_unavailable, invalid_key,
  not_found, buffer_too_small, key_too_long, value_too_long, capacity_exceeded,
}
use lazers.Syscall.Handlers.{get_env_status, set_env_status, unset_env_status, list_env_status}
use lazers.Syscall.Wrappers.{get_env_result, set_env_result, unset_env_result, list_env_result}
use lazers.Syscall.RoundTrip.{SmallResult}

-- The failures as a program sees them.
abbrev pub get_env_view : Result EnvironmentAccessError ℕ → Result GetEnvError ℕ
get_env_view (ok len) = ok len
get_env_view (err Services.not_found) = err not_found
get_env_view (err Services.buffer_too_small) = err buffer_too_small
get_env_view (err Services.resource_unavailable) = err resource_unavailable
get_env_view (err _) = err invalid_key

abbrev pub list_env_view : Result EnvironmentAccessError ℕ → Result ListEnvError ℕ
list_env_view (ok len) = ok len
list_env_view (err Services.buffer_too_small) = err buffer_too_small
list_env_view (err Services.capacity_exceeded) = err buffer_too_small
list_env_view (err _) = err resource_unavailable

abbrev pub set_env_view : Result EnvironmentAccessError (Unit {0}) → Result SetEnvError (Unit {0})
set_env_view (ok done) = ok tt
set_env_view (err Services.invalid_key) = err invalid_key
set_env_view (err Services.key_too_long) = err key_too_long
set_env_view (err Services.value_too_long) = err value_too_long
set_env_view (err Services.capacity_exceeded) = err capacity_exceeded
set_env_view (err _) = err resource_unavailable

abbrev pub unset_env_view :
    Result EnvironmentAccessError (Unit {0}) → Result UnsetEnvError (Unit {0})
unset_env_view (ok done) = ok tt
unset_env_view (err Services.not_found) = err not_found
unset_env_view (err Services.resource_unavailable) = err resource_unavailable
unset_env_view (err Services.buffer_too_small) = err resource_unavailable
unset_env_view (err _) = err invalid_key

get_env_result-status :
    (r : Result EnvironmentAccessError ℕ)
    → SmallResult r
    → get_env_result (get_env_status r) ≡ get_env_view r
unfolding get_env_result get_env_status
get_env_result-status (ok len) small = ground arith
get_env_result-status (err Services.invalid_key) small = refl
get_env_result-status (err Services.not_found) small = refl
get_env_result-status (err Services.buffer_too_small) small = refl
get_env_result-status (err Services.key_too_long) small = refl
get_env_result-status (err Services.value_too_long) small = refl
get_env_result-status (err Services.capacity_exceeded) small = refl
get_env_result-status (err Services.resource_unavailable) small = refl

list_env_result-status :
    (r : Result EnvironmentAccessError ℕ)
    → SmallResult r
    → list_env_result (list_env_status r) ≡ list_env_view r
unfolding list_env_result list_env_status
list_env_result-status (ok len) small = ground arith
list_env_result-status (err Services.invalid_key) small = refl
list_env_result-status (err Services.not_found) small = refl
list_env_result-status (err Services.buffer_too_small) small = refl
list_env_result-status (err Services.key_too_long) small = refl
list_env_result-status (err Services.value_too_long) small = refl
list_env_result-status (err Services.capacity_exceeded) small = refl
list_env_result-status (err Services.resource_unavailable) small = refl

set_env_result-status :
    (r : Result EnvironmentAccessError (Unit {0}))
    → set_env_result (set_env_status r) ≡ set_env_view r
unfolding set_env_result set_env_status
set_env_result-status (ok len) = refl
set_env_result-status (err Services.invalid_key) = refl
set_env_result-status (err Services.not_found) = refl
set_env_result-status (err Services.buffer_too_small) = refl
set_env_result-status (err Services.key_too_long) = refl
set_env_result-status (err Services.value_too_long) = refl
set_env_result-status (err Services.capacity_exceeded) = refl
set_env_result-status (err Services.resource_unavailable) = refl

unset_env_result-status :
    (r : Result EnvironmentAccessError (Unit {0}))
    → unset_env_result (unset_env_status r) ≡ unset_env_view r
unfolding unset_env_result unset_env_status
unset_env_result-status (ok len) = refl
unset_env_result-status (err Services.invalid_key) = refl
unset_env_result-status (err Services.not_found) = refl
unset_env_result-status (err Services.buffer_too_small) = refl
unset_env_result-status (err Services.key_too_long) = refl
unset_env_result-status (err Services.value_too_long) = refl
unset_env_result-status (err Services.capacity_exceeded) = refl
unset_env_result-status (err Services.resource_unavailable) = refl

-- What a program is told of an environment call, for every result that the kernel's service has: the
-- wrapper reads the raw result back as that result, with the errors that it does not know mapped as the
-- views say; a length must not be one of the five highest numbers.
pub environment-read_back :
    (r : Result EnvironmentAccessError ℕ) (u : Result EnvironmentAccessError (Unit {0}))
    → SmallResult r
    → (get_env_result (get_env_status r) ≡ get_env_view r)
      × (list_env_result (list_env_status r) ≡ list_env_view r)
      × (set_env_result (set_env_status u) ≡ set_env_view u)
      × (unset_env_result (unset_env_status u) ≡ unset_env_view u)
environment-read_back r u small = (
  get_env_result-status r small,
  list_env_result-status r small,
  set_env_result-status u,
  unset_env_result-status u,
)
