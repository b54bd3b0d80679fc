-- ===== src/Courier/Channel/Forms.antt =====
-- When a refusal is well formed for its status (`refusedDeliveryResult` of
-- internal/evidence/courier/channel.go).
use ori_gateway.Base.{
  ℕ, String, ◌≡◌, refl, ap, ◌↔◌, ◌⊎◌, inl, inr, true, false, ◌||◌, Option, none, some, List, [],
  ◌∷◌, arith, eq_iff, Bool-cases, Option-cases, length, ◌==◌, nat_eq, string_eq,
}
use ori_gateway.Refusal.{recorded_reason}
use ori_gateway.Courier.Channel.{
  Response, ChannelResponse, ReturnedArtifact, well_formed_refusal, parse_retry_after,
}

-- The conditions on the statuses of a permanent refusal, on an unauthenticated request, on a request
-- over a rate and on an unavailable authority; `retry` is the wait that the refusal asks for.
abbrev pub Permanent : ℕ → Type 0
Permanent status = (status ≡ 400) ⊎ (status ≡ 403) ⊎ (status ≡ 409) ⊎ (status ≡ 422)

-- A refusal names the artifact, or none where its status allows it, and returns nothing.
abbrev pub Names : ℕ → ℕ → ChannelResponse → String → Type 0
Names status unnamed wire digest =
    (wire.artifact_digest ≡ digest) ⊎ ((status ≡ unnamed) × (wire.artifact_digest ≡ ""))

abbrev pub RateReason : String → Type 0
RateReason reason = (reason ≡ "rate_limited") ⊎ (reason ≡ "pending_registration_limit")

-- The wait of a request over a rate: the header's, which the reasons of a rate must have.
abbrev pub Waits : String → Option ℕ → ℕ → Type 0
Waits reason header retry =
    (header ≡ some retry) ⊎ ((header ≡ none) × (retry ≡ 0) × (RateReason reason → ⊥))

-- A refusal that is well formed for its status.
abbrev pub WellFormed : Response → ChannelResponse → String → ℕ → Type 0
WellFormed resp wire digest retry =
    (wire.authority_artifacts ≡ [])
    × ((Permanent resp.status
          × (wire.outcome ≡ "refused")
          × Names resp.status 400 wire digest
          × (retry ≡ 0))
        ⊎ ((resp.status ≡ 401)
            × (wire.outcome ≡ "refused")
            × (wire.artifact_digest ≡ "")
            × (retry ≡ 0))
        ⊎ ((resp.status ≡ 429)
            × (wire.outcome ≡ "pending")
            × (wire.artifact_digest ≡ digest)
            × Waits (recorded_reason resp.status wire.reason) (parse_retry_after resp.retry_after)
                retry)
        ⊎ ((resp.status ≡ 503)
            × (wire.outcome ≡ "pending")
            × Names 503 503 wire digest
            × (retry ≡ 0)))

empty_of_length : (rs : List ReturnedArtifact) → (length rs == 0) ≡ true → rs ≡ []
empty_of_length [] e = refl
empty_of_length (r ∷ rs) e = ground arith

rate_iff :
    (reason : String)
    → (reason == "rate_limited" || reason == "pending_registration_limit" ≡ true)
      ↔ RateReason reason
rate_iff reason =
    ground (arith, eq_iff reason "rate_limited", eq_iff reason "pending_registration_limit")

status_iff :
    (status : ℕ)
    → (status == 400 || status == 403 || status == 409 || status == 422 ≡ true) ↔ Permanent status
status_iff status = ground arith

module _ (resp : Response) (wire : ChannelResponse) (digest : String) (retry : ℕ) where
  pub refusal-WellFormed :
      well_formed_refusal resp wire digest ≡ some retry → WellFormed resp wire digest retry
  unfolding well_formed_refusal
  refusal-WellFormed e =
      elim (Bool-cases
        (resp.status == 400 || resp.status == 403 || resp.status == 409 || resp.status == 422)) [
          | inl p ↦ (
            empty_of_length wire.authority_artifacts (ground arith),
            inl (
              (status_iff resp.status).0 p,
              ground (arith, eq_iff wire.outcome "refused"),
              ground (arith, eq_iff wire.artifact_digest digest, eq_iff wire.artifact_digest ""),
              ground arith,
            ),
          )
          | inr p ↦ elim (Bool-cases (resp.status == 401)) [
            | inl u ↦ (
              empty_of_length wire.authority_artifacts (ground arith),
              inr (
                  inl (
                    ground arith,
                    ground (arith, eq_iff wire.outcome "refused"),
                    ground (arith, eq_iff wire.artifact_digest ""),
                    ground arith,
                  )),
            )
            | inr u ↦ elim (Bool-cases (resp.status == 429)) [
              | inl r ↦ (
                empty_of_length wire.authority_artifacts (ground arith),
                inr (
                    inr (
                      inl (
                        ground arith,
                        ground (arith, eq_iff wire.outcome "pending"),
                        ground (arith, eq_iff wire.artifact_digest digest),
                        elim (Option-cases (parse_retry_after resp.retry_after)) [
                          | inr (n, is) ↦ inl (ground arith)
                          | inl none_ ↦ inr (
                            none_,
                            ground arith,
                            λ limited. ground (
                              arith,
                              (rate_iff (recorded_reason resp.status wire.reason)).1 limited,
                            ),
                          )
                        ],
                      ))),
              )
              | inr r ↦ (
                empty_of_length wire.authority_artifacts (ground arith),
                inr (
                    inr (
                      inr (
                        ground arith,
                        ground (arith, eq_iff wire.outcome "pending"),
                        ground (
                          arith,
                          eq_iff wire.artifact_digest digest,
                          eq_iff wire.artifact_digest "",
                        ),
                        ground arith,
                      ))),
              )
            ]
          ]
        ]

  pub WellFormed-refusal :
      WellFormed resp wire digest retry → well_formed_refusal resp wire digest ≡ some retry
  unfolding well_formed_refusal
  WellFormed-refusal (empty, inl (p, o, n, z)) = ground (
    arith,
    (status_iff resp.status).1 p,
    eq_iff wire.outcome "refused",
    eq_iff wire.artifact_digest digest,
    eq_iff wire.artifact_digest "",
    ap length empty,
  )
  WellFormed-refusal (empty, inr (inl (p, o, n, z))) =
      ground (arith, eq_iff wire.outcome "refused", eq_iff wire.artifact_digest "", ap length empty)
  WellFormed-refusal (empty, inr (inr (inl (p, o, n, inl z)))) =
      ground
        (arith, eq_iff wire.outcome "pending", eq_iff wire.artifact_digest digest, ap length empty)
  WellFormed-refusal (empty, inr (inr (inl (p, o, n, inr (none_, z, free))))) =
      let slow : (recorded_reason resp.status wire.reason == "rate_limited"
            || recorded_reason resp.status wire.reason == "pending_registration_limit")
          ≡ false =
        elim (Bool-cases (
          recorded_reason resp.status wire.reason == "rate_limited"
          || recorded_reason resp.status wire.reason == "pending_registration_limit")) [
            | inl limited ↦
                absurd (free ((rate_iff (recorded_reason resp.status wire.reason)).0 limited))
            | inr fine ↦ fine
          ] in
      ground (
        arith,
        slow,
        eq_iff wire.outcome "pending",
        eq_iff wire.artifact_digest digest,
        ap length empty,
      )
  WellFormed-refusal (empty, inr (inr (inr (p, o, n, z)))) = ground (
    arith,
    eq_iff wire.outcome "pending",
    eq_iff wire.artifact_digest digest,
    eq_iff wire.artifact_digest "",
    ap length empty,
  )
