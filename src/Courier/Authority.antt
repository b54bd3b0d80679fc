-- ===== src/Courier/Authority.antt =====
-- The routing fields of a runtime's artifact and of an authority's one (`validateArtifactRoutingFields`,
-- `authorityRoutingProjection` and `validateAuthorityRouting` of internal/evidence/courier/courier.go).
-- A member of a negative number stands as 0: every test of one takes the two alike.
use ori_gateway.Base.{
  ℕ, String, Bool, true, false, not, ◌&&◌, ◌||◌, Option, none, some, [], ◌∷◌, ltb, leb,
  if◌then◌else◌, length, ◌==◌, nat_eq, string_eq,
}
use ori_gateway.Base.Maps.{lookup}
use ori_gateway.Courier.Types.{
  Bytes, ArtifactType, delivery_envelope, QueuedArtifact, valid_outbound_artifact_type,
}
use ori_gateway.Courier.Routing.{
  Value, null, integer, negative, Members, Json, Decoded, ok, err, wrong_type, decode_routing,
  string_member,
}
use ori_gateway.Courier.Sidecars.{max_safe_integer}

-- An open string type, like `ArtifactType`.
pub data AuthorityArtifactType : Type 0 where
  authority_delivery_receipt authority_epoch_confirmation : AuthorityArtifactType
  inbound_custody_acknowledgement : AuthorityArtifactType
  other_authority : String → AuthorityArtifactType

pub record AuthorityArtifact : Type 0 where
  pub kind : AuthorityArtifactType
  pub device : String
  pub payload : Bytes

unfoldable pub valid_authority_artifact_type : AuthorityArtifactType → Bool
valid_authority_artifact_type authority_delivery_receipt = true
valid_authority_artifact_type authority_epoch_confirmation = true
valid_authority_artifact_type _ = false

abbrev pub is_receipt : AuthorityArtifactType → Bool
is_receipt authority_delivery_receipt = true
is_receipt _ = false

abbrev pub is_envelope : ArtifactType → Bool
is_envelope delivery_envelope = true
is_envelope _ = false

-- json.Unmarshal into an int64 or a pointer to one: `none` is an absent or null member.
unfoldable pub decode_integer : Value → Decoded (Option ℕ)
decode_integer null = ok none
decode_integer (integer n) = ok (some n)
decode_integer negative = ok (some 0)
decode_integer _ = err wrong_type

unfoldable pub integer_member : String → Members → Decoded (Option ℕ)
unfolding lookup decode_integer
integer_member name ms = elim (lookup name ms) [
  | none ↦ ok none
  | some value ↦ decode_integer value
]

abbrev pub or_zero : Option ℕ → ℕ
or_zero none = 0
or_zero (some n) = n

-- The struct of device_id and local_seq.
pub record Outbound : Type 0 where
  pub device : String
  pub local_seq : ℕ

-- The struct of device_id, from_seq and to_seq.
pub record AuthorityRouting : Type 0 where
  pub device : String
  pub from_seq : Option ℕ
  pub to_seq : Option ℕ

abbrev pub max_artifact_bytes : ℕ
max_artifact_bytes = 1048576

pub data FieldError : Type 0 where
  unsupported_kind unparseable outside_domain too_large seq_not_positive seq_too_large : FieldError

-- `FromSeq == nil || ToSeq == nil || *FromSeq <= 0 || *ToSeq < *FromSeq || *ToSeq > MaxSafeInteger`.
abbrev pub bad_range : Option ℕ → Option ℕ → Bool
bad_range (some from_seq) (some to_seq) =
    from_seq == 0 || ltb to_seq from_seq || ltb max_safe_integer to_seq
bad_range _ _ = true

abbrev pub in_range : ℕ → Option ℕ → Option ℕ → Bool
in_range n (some from_seq) (some to_seq) = leb from_seq n && leb n to_seq
in_range n _ _ = false

module _ (json : Json) where
  unfoldable pub decode_outbound : Bytes → Option Outbound
  unfolding decode_routing string_member integer_member
  decode_outbound payload = elim (decode_routing json ("device_id" ∷ "local_seq" ∷ []) payload) [
    | err e ↦ none
    | ok ms ↦ elim (string_member json "device_id" ms) [
      | err e ↦ none
      | ok device ↦ elim (integer_member "local_seq" ms) [
        | err e ↦ none
        | ok seq ↦ some (record { device = device; local_seq = or_zero seq })
      ]
    ]
  ]

  unfoldable pub decode_authority : Bytes → Option AuthorityRouting
  unfolding decode_routing string_member integer_member
  decode_authority payload =
      elim (decode_routing json ("device_id" ∷ "from_seq" ∷ "to_seq" ∷ []) payload) [
        | err e ↦ none
        | ok ms ↦ elim (string_member json "device_id" ms) [
          | err e ↦ none
          | ok device ↦ elim (integer_member "from_seq" ms) [
            | err e ↦ none
            | ok from_seq ↦ elim (integer_member "to_seq" ms) [
              | err e ↦ none
              | ok to_seq ↦ some (record { device = device; from_seq = from_seq; to_seq = to_seq })
            ]
          ]
        ]
      ]

module _ (json : Json) (domain : String → Bool) where
  -- `none` is a valid artifact.
  unfoldable pub validate_artifact_routing_fields : ArtifactType → Bytes → Option FieldError
  unfolding decode_outbound valid_outbound_artifact_type
  validate_artifact_routing_fields kind payload =
      if not (valid_outbound_artifact_type kind)
      then some unsupported_kind
      else elim (decode_outbound json payload) [
        | none ↦ some unparseable
        | some routing ↦
            if not (domain routing.device)
            then some outside_domain
            else if ltb max_artifact_bytes (length payload)
            then some too_large
            else if is_envelope kind && routing.local_seq == 0
            then some seq_not_positive
            else if is_envelope kind && ltb max_safe_integer routing.local_seq
            then some seq_too_large
            else none
      ]

  unfoldable pub authority_routing_projection :
      AuthorityArtifactType → Bytes → Option AuthorityRouting
  unfolding decode_authority
  authority_routing_projection kind payload = elim (decode_authority json payload) [
    | none ↦ none
    | some routing ↦
        if not (domain routing.device)
        then none
        else if is_receipt kind && bad_range routing.from_seq routing.to_seq
        then none
        else some routing
  ]

  -- The device and whether the artifact covers the queued envelope; `none` is an error.
  unfoldable pub validate_authority_routing :
      QueuedArtifact → AuthorityArtifact → Option (String × Bool)
  unfolding decode_outbound authority_routing_projection
  validate_authority_routing queued artifact = elim (decode_outbound json queued.payload) [
    | none ↦ none
    | some outbound ↦
        if outbound.device == ""
        then none
        else elim (authority_routing_projection artifact.kind artifact.payload) [
          | none ↦ none
          | some authority ↦
              if not (authority.device == outbound.device)
              then none
              else if not (is_receipt artifact.kind)
              then some (authority.device, false)
              else some (
                authority.device,
                is_envelope queued.kind
                    && in_range outbound.local_seq authority.from_seq authority.to_seq,
              )
        ]
  ]
