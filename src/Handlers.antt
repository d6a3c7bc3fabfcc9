-- ===== src/Handlers.antt =====
-- crates/lakefs-authz/src/handlers: the handlers of the API, over the service layer and the store in
-- memory. A status code is a number; the wire is JSON, which is left to its library.
pub mod Users
pub mod Groups
pub mod Policies
pub mod Keys
pub mod Routes
pub mod Lookup
use lakefs_auth.Common.{ℕ}
use lakefs_auth.Std.Result.{Result, map_err}
use lakefs_auth.Core.Error.{ApiError}
use lakefs_auth.Core.Pagination.{PageOf, ListResponse, map_page, into_response}
use lakefs_auth.Store.Error.{StoreResult, to_api_error}
use lakefs_auth.Store.Mem.Inner.{Inner}
use lakefs_auth.Service.{map_ok}

abbrev pub created_code : ℕ
created_code = 201

abbrev pub no_content : ℕ
no_content = 204

-- `?` on what the store answers
abbrev pub read : {A B : Type 0} → (A → B) → StoreResult A → Result B ApiError
read f r = map_ok f (map_err to_api_error r)

abbrev pub page_read :
    {A B : Type 0} → (A → B) → StoreResult (PageOf A) → Result (ListResponse B) ApiError
page_read f r = read (λ page. into_response (map_page f page)) r

module _ {T : Type 0} where
  -- A write that answers a status code.
  abbrev pub written : {A : Type 0} → ℕ → StoreResult A × Inner T → Result ℕ ApiError × Inner T
  written code (r, s) = (read (λ _. code) r, s)

  -- A create that answers a status code with its value.
  abbrev pub created :
      {A : Type 0} → Result A ApiError × Inner T → Result (ℕ × A) ApiError × Inner T
  created (r, s) = (map_ok (λ a. (created_code, a)) r, s)
