-- ===== src/Courier/Routing.antt =====
-- The routing projection of an artifact: refusal of ambiguous members and the decode of
-- `device_id` (internal/evidence/courier/routing.go, and `recordDevice` of queue.go).
use ori_gateway.Base.{
  ℕ, String, ◌⊎◌, inl, inr, Bool, true, false, not, ◌&&◌, Option, none, some, List, [], ◌∷◌,
  if◌then◌else◌, any, ◌==◌, nat_eq, string_eq,
}
use ori_gateway.Base.Maps.{lookup}
use ori_gateway.Courier.Types.{Bytes}

-- A member's value as the decoder gives it. `text` carries whether the raw string holds Unicode
-- scalar values only (`scalarValueString`), and the decoded text; `integer` is a number in the
-- range of int64.
pub data Value : Type 0 where
  null : Value
  text : Bool → String → Value
  integer : ℕ → Value
  negative : Value
  composite : Value

abbrev pub Members : Type 0
Members = List (String × Value)

-- encoding/json and strings.EqualFold. `members` is the object's members in order, keys decoded,
-- and `none` for bytes that are no JSON object.
pub record Json : Type 0 where
  pub members : Bytes → Option Members
  pub equal_fold : String → String → Bool

pub data RoutingError : Type 0 where
  not_an_object member_twice misspelled_by_case not_scalar_values wrong_type : RoutingError

pub data Decoded {ℓ} (A : Type ℓ) : Type ℓ where
  ok : A → Decoded A
  err : RoutingError → Decoded A

abbrev pub is_scalar : Value → Bool
is_scalar (text scalar s) = scalar
is_scalar _ = true

unfoldable pub decode_text : Value → Decoded String
decode_text null = ok ""
decode_text (text scalar s) = ok s
decode_text _ = err wrong_type

module _ (json : Json) where
  -- The inner loop over the routing members: `none` is no refusal, with the members seen and
  -- whether the key is one of them.
  unfoldable pub match_members :
      List String → String → List String → Bool → RoutingError ⊎ (List String × Bool)
  match_members [] key seen routing = inr (seen, routing)
  match_members (member ∷ rest) key seen routing =
      if key == member
      then (if any (λ s. s == member) seen
          then inl member_twice
          else match_members rest key (member ∷ seen) true)
      else if json.equal_fold key member
      then inl misspelled_by_case
      else match_members rest key seen routing

  unfoldable pub refuse_members : List String → List String → Members → Option RoutingError
  unfolding match_members
  refuse_members routing_members seen [] = none
  refuse_members routing_members seen ((key, value) ∷ rest) =
      elim (match_members routing_members key seen false) [
        | inl e ↦ some e
        | inr (seen', routing) ↦
            if routing && not (is_scalar value)
            then some not_scalar_values
            else refuse_members routing_members seen' rest
      ]

  -- `decodeRouting`: the check, then the decode of the members that the struct names. The decode
  -- finds at most one member for each name once the check has passed.
  unfoldable pub decode_routing : List String → Bytes → Decoded Members
  unfolding refuse_members
  decode_routing routing_members payload = elim (json.members payload) [
    | none ↦ err not_an_object
    | some ms ↦ elim (refuse_members routing_members [] ms) [ none ↦ ok ms | some e ↦ err e ]
  ]

  -- json.Unmarshal into a string field: an absent or null member leaves the empty text.
  unfoldable pub string_member : String → Members → Decoded String
  unfolding lookup decode_text
  string_member name ms = elim (lookup name ms) [ none ↦ ok "" | some value ↦ decode_text value ]

  unfoldable pub decode_device : Bytes → Decoded String
  unfolding decode_routing string_member
  decode_device payload = elim (decode_routing ("device_id" ∷ []) payload) [
    | ok ms ↦ string_member "device_id" ms
    | err e ↦ err e
  ]

  -- The device a record belongs to; no readable one is the empty text.
  unfoldable pub record_device : Bytes → String
  unfolding decode_device
  record_device payload = elim (decode_device payload) [ ok device ↦ device | err e ↦ "" ]
