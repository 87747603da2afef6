-- ===== src/Payments/List/Tests.antt =====
-- The list of the sandbox user's payments.
use openwrapper.Prelude.{refl, none, [], ◌∷◌, map}
use openwrapper.Store.{World}
use openwrapper.Store.Handler.{final}
use openwrapper.Access.Authenticator.{authenticate_api_request}
use openwrapper.Gateway.Headers.{entry}
use openwrapper.Access.ApiKeys.{get_api_key_environment}
use openwrapper.Payments.Api.{ApiResponse, listed}
use openwrapper.Payments.Create.Tests.{small_env, signed_request}
use openwrapper.Payments.Retrieve.Tests.{sandbox_row, one_payment}
use openwrapper.Payments.List.{item_of, list_payments}
use openwrapper.Payments.List.Answers.{IsOwnList, list_payments-IsOwnList}

abbrev one_item : ApiResponse
one_item = record { status = 200; body = listed (map item_of (sandbox_row ∷ [])) }

abbrev after_listing : World
after_listing = final (list_payments small_env (λ _. none) none signed_request one_payment)

list_payments-IsOwnList_example :
    IsOwnList small_env (λ _. none) none signed_request one_payment one_item
unfolding list_payments authenticate_api_request entry get_api_key_environment
list_payments-IsOwnList_example =
    list_payments-IsOwnList small_env (λ _. none) none signed_request one_payment after_listing
      one_item refl
