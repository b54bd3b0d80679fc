-- ===== src/Courier/Channel.antt =====
-- How the evidence channel reads the authority's response (`Deliver` from the response on,
-- `refusedDeliveryResult` and `parseRetryAfter` of internal/evidence/courier/channel.go). The request,
-- its signature and the transport are not modelled: a transport error is no answer.
pub mod Forms
pub mod Classes
pub mod Decides
use ori_gateway.Base.{
  ℕ, zero, suc, ◌+◌, ◌-◌, ◌*◌, ◌^◌, String, Bool, true, false, not, ◌&&◌, ◌||◌, Option, none, some,
  List, [], ◌∷◌, ltb, leb, if◌then◌else◌, length, is_some, any, Eq, ◌==◌, nat_eq, string_eq,
}
use ori_gateway.Refusal.{recorded_reason, policy, Class, hold, handoff, backoff}
use ori_gateway.Courier.Types.{Bytes}
use ori_gateway.Courier.Authority.{
  AuthorityArtifact, AuthorityArtifactType, valid_authority_artifact_type,
}
use ori_gateway.Courier.Lane.Attempt.{
  DeliveryResult, Answer, no_answer, unrecognised_outcome, answered,
}

-- An entry of `authority_artifacts`: `bytes` is `none` where the strict Base64 decoding fails.
pub record ReturnedArtifact : Type 0 where
  pub kind : AuthorityArtifactType
  pub bytes : Option Bytes

pub record ChannelResponse : Type 0 where
  pub v : ℕ
  pub artifact_digest : String
  pub outcome : String
  pub reason : String
  pub retriable : Bool
  pub authority_artifacts : List ReturnedArtifact

-- A response: whether its body is longer than the bound, whether its media type is application/json,
-- and its body as `refuseAmbiguousMembers` and the strict decoder take it, `none` if they refuse it.
-- `retry_after` is the text of the header, empty without one.
pub record Response : Type 0 where
  pub status : ℕ
  pub oversized : Bool
  pub json_type : Bool
  pub body : Option ChannelResponse
  pub retry_after : List ℕ

-- Unicode White_Space, as strings.TrimSpace takes it.
abbrev pub white_space : List ℕ
white_space =
    9 ∷ 10 ∷ 11 ∷ 12 ∷ 13 ∷ 32 ∷ 133 ∷ 160 ∷ 5760 ∷ 8192 ∷ 8193 ∷ 8194 ∷ 8195 ∷ 8196 ∷ 8197 ∷ 8198
    ∷ 8199 ∷ 8200 ∷ 8201 ∷ 8202 ∷ 8232 ∷ 8233 ∷ 8239 ∷ 8287 ∷ 12288 ∷ []

abbrev pub is_space : ℕ → Bool
is_space c = any (λ s. s == c) white_space

unfoldable pub trim_left : List ℕ → List ℕ
trim_left [] = []
trim_left (c ∷ rest) = if is_space c then trim_left rest else c ∷ rest

unfoldable pub trim_right : List ℕ → List ℕ
trim_right [] = []
trim_right (c ∷ rest) =
    let kept : List ℕ = trim_right rest in if is_space c && length kept == 0 then [] else c ∷ kept

-- strconv.ParseUint in base 10: digits only, and at least one.
unfoldable pub parse_digits : ℕ → List ℕ → Option ℕ
parse_digits n [] = some n
parse_digits n (c ∷ rest) =
    let further : Option ℕ = parse_digits (n * 10 + (c - 48)) rest in
    if leb 48 c && leb c 57 then further else none

unfoldable pub parse_uint : ℕ → List ℕ → Option ℕ
unfolding parse_digits
parse_uint bound [] = none
parse_uint bound (c ∷ rest) = elim (parse_digits 0 (c ∷ rest)) [
  | none ↦ none
  | some n ↦ if ltb n bound then some n else none
]

abbrev pub second : ℕ
second = 1000000000

-- The wait in nanoseconds.
unfoldable pub parse_retry_after : List ℕ → Option ℕ
unfolding trim_left trim_right parse_uint
parse_retry_after value = elim (parse_uint (2 ^ 31) (trim_right (trim_left value))) [
  | none ↦ none
  | some seconds ↦ if seconds == 0 then none else some (seconds * second)
]

abbrev pub is_backoff : Class → Bool
is_backoff backoff = true
is_backoff _ = false

abbrev pub is_handoff : Class → Bool
is_handoff handoff = true
is_handoff _ = false

abbrev pub refused_result : ℕ → String → ℕ → DeliveryResult
refused_result status reason retry_after = record {
  accepted = false;
  retriable = is_backoff (policy status reason);
  retry_after = retry_after;
  receiver_state = is_handoff (policy status reason);
  refusal_status = status;
  refusal_reason = recorded_reason status reason;
  authority_artifacts = [];
}

abbrev pub wait_of : Option ℕ → ℕ
wait_of none = 0
wait_of (some n) = n

-- The checks of the `switch`, by the status; `none` is an unrecognised outcome, else the Retry-After.
unfoldable pub well_formed_refusal : Response → ChannelResponse → String → Option ℕ
unfolding recorded_reason parse_retry_after
well_formed_refusal resp wire digest =
    if status == 400 || status == 403 || status == 409 || status == 422
    then (if not (wire.outcome == "refused")
          || not (wire.artifact_digest == digest || (status == 400 && wire.artifact_digest == ""))
          || carries
        then none
        else some 0)
    else if status == 401
    then (if not (wire.outcome == "refused") || not (wire.artifact_digest == "") || carries
        then none
        else some 0)
    else if status == 429 || status == 503
    then (if not (wire.outcome == "pending")
          || not (wire.artifact_digest == digest || (status == 503 && wire.artifact_digest == ""))
          || carries
        then none
        else if status == 429
        then (if (recorded == "rate_limited" || recorded == "pending_registration_limit")
              && not (is_some wait)
            then none
            else some (wait_of wait))
        else some 0)
    else none
  where
    status : ℕ
    status = resp.status

    carries : Bool
    carries = not (length wire.authority_artifacts == 0)

    recorded : String
    recorded = recorded_reason resp.status wire.reason

    wait : Option ℕ
    wait = parse_retry_after resp.retry_after

unfoldable pub refused_delivery_result : Response → ChannelResponse → String → Answer
unfolding well_formed_refusal policy
refused_delivery_result resp wire digest = elim (well_formed_refusal resp wire digest) [
  | none ↦ unrecognised_outcome
  | some retry_after ↦ answered (refused_result resp.status wire.reason retry_after)
]

-- The returned artifacts of an acceptance; the device of each is read later.
unfoldable pub returned_artifacts : List ReturnedArtifact → Option (List AuthorityArtifact)
unfolding valid_authority_artifact_type
returned_artifacts [] = some []
returned_artifacts (a ∷ rest) =
    if not (valid_authority_artifact_type a.kind) then none else elim a.bytes [
      | none ↦ none
      | some payload ↦ if length payload == 0 then none else elim (returned_artifacts rest) [
        | none ↦ none
        | some further ↦ some (record { kind = a.kind; device = ""; payload = payload } ∷ further)
      ]
    ]

abbrev pub accepted_result : List AuthorityArtifact → DeliveryResult
accepted_result artifacts = record {
  accepted = true;
  retriable = false;
  retry_after = 0;
  receiver_state = false;
  refusal_status = 0;
  refusal_reason = "";
  authority_artifacts = artifacts;
}

abbrev pub accept : Option (List AuthorityArtifact) → Answer
accept none = unrecognised_outcome
accept (some artifacts) = answered (accepted_result artifacts)

unfoldable pub accepted_delivery_result : ChannelResponse → String → Answer
unfolding returned_artifacts
accepted_delivery_result wire digest =
    if not (wire.outcome == "accepted")
      || not (wire.reason == "")
      || wire.retriable
      || not (wire.artifact_digest == digest)
    then unrecognised_outcome
    else accept (returned_artifacts wire.authority_artifacts)

abbrev pub read_body : Response → String → Option ChannelResponse → Answer
read_body resp digest none = unrecognised_outcome
read_body resp digest (some wire) =
    if not (wire.v == 1)
    then unrecognised_outcome
    else if not (resp.status == 200)
    then refused_delivery_result resp wire digest
    else accepted_delivery_result wire digest

-- `Deliver` from the response on; `digest` is that of the artifact sent.
unfoldable pub read_response : Response → String → Answer
unfolding refused_delivery_result accepted_delivery_result
read_response resp digest =
    if resp.oversized || not resp.json_type
    then unrecognised_outcome
    else read_body resp digest resp.body
