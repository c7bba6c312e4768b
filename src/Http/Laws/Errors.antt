-- ===== src/Http/Laws/Errors.antt =====
-- The status that an error of a service reaches the client with, over gRPC and HTTP. An insufficient
-- balance reaches it as 409 here; api/trading.yaml and api/components/responses.yaml document it as 422.
use truth_market.Base.{ℕ, ◌≡◌, refl, ◌||◌, ◌==◌}
use truth_market.Errors.{
  Error, app_error, wrap, plain_error, fmt_wrap, ErrorCode, not_found, unauthorized, forbidden,
  bad_request, conflict, internal_error, insufficient_balance, market_closed, invalid_price_code,
  is_code, code_from_error,
}
use truth_market.Rpc.{to_grpc_error}
use truth_market.Http.{handle_grpc_error}

-- The status of the reply to a request that fails with an error of a service.
abbrev pub http_status : Error → ℕ
http_status e = handle_grpc_error (to_grpc_error e)

-- The helpers of the errors package that a status stands for.
abbrev pub AsHelpersSay : Error → Type 0
AsHelpersSay e =
    ((http_status e == 404) ≡ is_code not_found e)
    × ((http_status e == 401) ≡ is_code unauthorized e)
    × ((http_status e == 403) ≡ is_code forbidden e)
    × ((http_status e == 400) ≡ (is_code bad_request e || is_code invalid_price_code e))
    × ((http_status e == 409)
        ≡ (is_code conflict e || is_code insufficient_balance e || is_code market_closed e))

app_error-AsHelpersSay : (c : ErrorCode) → AsHelpersSay (app_error c)
unfolding to_grpc_error handle_grpc_error is_code code_from_error
app_error-AsHelpersSay not_found = (refl, refl, refl, refl, refl)
app_error-AsHelpersSay unauthorized = (refl, refl, refl, refl, refl)
app_error-AsHelpersSay forbidden = (refl, refl, refl, refl, refl)
app_error-AsHelpersSay bad_request = (refl, refl, refl, refl, refl)
app_error-AsHelpersSay conflict = (refl, refl, refl, refl, refl)
app_error-AsHelpersSay internal_error = (refl, refl, refl, refl, refl)
app_error-AsHelpersSay insufficient_balance = (refl, refl, refl, refl, refl)
app_error-AsHelpersSay market_closed = (refl, refl, refl, refl, refl)
app_error-AsHelpersSay invalid_price_code = (refl, refl, refl, refl, refl)

-- The status of a reply tells what the helpers of the errors package say of the error of the service:
-- 404 for IsNotFound, 401 for IsUnauthorized, 403 for IsForbidden, 400 for a bad request or an invalid
-- price, 409 for a conflict, an insufficient balance or a closed market, and for nothing else.
pub http_status-AsHelpersSay : (e : Error) → AsHelpersSay e
unfolding to_grpc_error handle_grpc_error is_code code_from_error
http_status-AsHelpersSay (app_error c) = app_error-AsHelpersSay c
http_status-AsHelpersSay (wrap e c) = app_error-AsHelpersSay c
http_status-AsHelpersSay plain_error = (refl, refl, refl, refl, refl)
http_status-AsHelpersSay (fmt_wrap e) = http_status-AsHelpersSay e
