-- ===== src/Failover/Statuses.antt =====
-- What a client can learn of a failure.
use five_api.Base.{
  ℕ, ◌≤◌, ◌≡◌, refl, ◌≢◌, Bool, true, false, Option, none, some, arith, inl, inr, sym, ◌⊎◌,
  if◌then◌else◌,
}
use five_api.Base.Json.{Json, null, bool, int, float, str, arr, obj}
use five_api.Failover.Texts.{Texts}
use five_api.Failover.Errors.{
  Kind, Response, http_status, stream_error, is_credential_error, is_credential_status,
  upstream_status,
}
use five_api.Failover.Details.{
  client_status, upstream_json_error, relayed_response, relayed_body, response_text, status_passed,
}

-- A status that is the client's to see: an error, and none about the gateway's own credentials.
abbrev pub IsPublic : ℕ → Type 0
IsPublic status = (400 ≤ status) × (status ≢ 401) × (status ≢ 403)

module _ (texts : Texts) where
  relayed_body-status :
      (status : ℕ) (body : Option Json)
      → (status_passed texts (relayed_body texts status body) ≡ status)
        ⊎ (status_passed texts (relayed_body texts status body) ≡ 502)
  relayed_body-status status none = inr refl
  relayed_body-status status (some null) = inr refl
  relayed_body-status status (some (bool b)) = inr refl
  relayed_body-status status (some (int i)) = inr refl
  relayed_body-status status (some (float s)) = inr refl
  relayed_body-status status (some (str s)) = inr refl
  relayed_body-status status (some (arr xs)) = inr refl
  relayed_body-status status (some (obj fs)) = inl refl

  relayed-IsPublic :
      (res : Response)
      → is_credential_status res.status_code ≡ false
      → IsPublic (status_passed texts (relayed_response texts res))
  relayed-IsPublic res h =
      ground (arith, relayed_body-status res.status_code (texts.loads (response_text texts res)))

  answered-IsPublic :
      (res : Response) (credential : Bool)
      → credential ≡ is_credential_status res.status_code
      → IsPublic (status_passed texts (if credential then none else relayed_response texts res))
  answered-IsPublic res true h = ground arith
  answered-IsPublic res false h = relayed-IsPublic res (sym h)

  -- Whatever an upstream call fails with, the client gets an error status of 400 or above, and
  -- never 401 or 403, which would speak of the platform's own credentials.
  pub client_status-IsPublic : (k : Kind) → IsPublic (client_status texts k)
  unfolding client_status upstream_json_error is_credential_error upstream_status
  client_status-IsPublic (http_status res) = answered-IsPublic res _ refl
  client_status-IsPublic (stream_error res event unfinished) = answered-IsPublic res _ refl
  client_status-IsPublic k = ground arith
