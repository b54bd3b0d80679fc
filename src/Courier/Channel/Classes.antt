-- ===== src/Courier/Channel/Classes.antt =====
-- Which responses are read as a result, and as which (internal/evidence/courier/channel.go).
use ori_gateway.Base.{
  ℕ, String, ◌≡◌, refl, sym, ap, subst, ◌∙◌, ◌↔◌, ◌⊎◌, inl, inr, true, false, not, ◌||◌, Option,
  none, some, List, arith, eq_iff, if-both, if◌then◌else◌, Option-cases, ◌==◌, nat_eq, string_eq,
}
use ori_gateway.Courier.Authority.{AuthorityArtifact}
use ori_gateway.Courier.Lane.Attempt.{
  Answer, DeliveryResult, no_answer, answered, unrecognised_outcome,
}
use ori_gateway.Courier.Channel.{
  Response, ChannelResponse, read_response, refused_delivery_result, accepted_delivery_result,
  well_formed_refusal, returned_artifacts, accept, read_body, refused_result, accepted_result,
}
use ori_gateway.Courier.Channel.Forms.{WellFormed, refusal-WellFormed, WellFormed-refusal}

-- The body that a response carries: of JSON within the bound, as the strict decoder takes it, and of
-- version 1.
abbrev pub Carries : Response → ChannelResponse → Type 0
Carries resp wire =
    (resp.oversized ≡ false) × (resp.json_type ≡ true) × (resp.body ≡ some wire) × (wire.v ≡ 1)

-- An acceptance and its artifacts.
abbrev pub Accepted : Response → ChannelResponse → String → List AuthorityArtifact → Type 0
Accepted resp wire digest artifacts =
    (resp.status ≡ 200)
    × (wire.outcome ≡ "accepted")
    × (wire.reason ≡ "")
    × (wire.retriable ≡ false)
    × (wire.artifact_digest ≡ digest)
    × (returned_artifacts wire.authority_artifacts ≡ some artifacts)

-- What a response says: an acceptance, or a refusal of the class that the policy gives.
abbrev pub Says : Response → String → DeliveryResult → Type 0
Says resp digest result =
    (wire : ChannelResponse) × Carries resp wire
    × (((artifacts : List AuthorityArtifact) × Accepted resp wire digest artifacts
          × (result ≡ accepted_result artifacts))
        ⊎ ((retry : ℕ) × WellFormed resp wire digest retry
            × (result ≡ refused_result resp.status wire.reason retry)))

-- What the reading of a response must say: an answer that is no result says nothing.
abbrev pub Classified : Response → String → Answer → Type 0
Classified resp digest (answered result) = Says resp digest result
Classified resp digest unrecognised_outcome = Unit {0}
Classified resp digest no_answer = ⊥

refused-Classified :
    (resp : Response) (wire : ChannelResponse) (digest : String)
    → Carries resp wire
    → Classified resp digest (refused_delivery_result resp wire digest)
unfolding refused_delivery_result
refused-Classified resp wire digest carries =
    elim (Option-cases (well_formed_refusal resp wire digest)) [
      | inl bad ↦ rw (bad, refused_delivery_result) tt
      | inr (retry, fine) ↦
          rw (fine, refused_delivery_result)
            (wire, carries, inr (retry, refusal-WellFormed resp wire digest retry fine, refl))
    ]

accepted-Classified :
    (resp : Response) (wire : ChannelResponse) (digest : String)
    → Carries resp wire
    → resp.status ≡ 200
    → Classified resp digest (accepted_delivery_result wire digest)
unfolding accepted_delivery_result
accepted-Classified resp wire digest carries ok_ =
    if-both (Classified resp digest)
      (not (wire.outcome == "accepted")
        || not (wire.reason == "")
        || wire.retriable
        || not (wire.artifact_digest == digest))
      _ _ (λ _. tt)
      (λ fine.
        taken (ground (arith, fine, eq_iff wire.outcome "accepted"))
          (ground (arith, fine, eq_iff wire.reason "")) (ground (arith, fine))
          (ground (arith, fine, eq_iff wire.artifact_digest digest))
          (returned_artifacts wire.authority_artifacts) refl)
  where
    taken :
        wire.outcome ≡ "accepted"
        → wire.reason ≡ ""
        → wire.retriable ≡ false
        → wire.artifact_digest ≡ digest
        → (o : Option (List AuthorityArtifact)) → returned_artifacts wire.authority_artifacts ≡ o
        → Classified resp digest (accept o)
    taken outcome bare final same none is = tt
    taken outcome bare final same (some artifacts) is =
        (wire, carries, inl (artifacts, (ok_, outcome, bare, final, same, is), refl))

pub read_response-Classified :
    (resp : Response) (digest : String) → Classified resp digest (read_response resp digest)
unfolding read_response
read_response-Classified resp digest =
    if-both (Classified resp digest) (resp.oversized || not resp.json_type) _ _ (λ _. tt)
      (λ fits. by_body (ground (arith, fits)) (ground (arith, fits)) resp.body refl)
  where
    by_body :
        resp.oversized ≡ false
        → resp.json_type ≡ true
        → (o : Option ChannelResponse) → resp.body ≡ o
        → Classified resp digest (read_body resp digest o)
    by_body fits json none e = tt
    by_body fits json (some wire) e =
        if-both (Classified resp digest) (not (wire.v == 1)) _ _ (λ _. tt)
          (λ one.
            let carries : Carries resp wire = (fits, json, e, ground (arith, one)) in
            if-both (Classified resp digest) (not (resp.status == 200)) _ _
              (λ other. refused-Classified resp wire digest carries)
              (λ ok_. accepted-Classified resp wire digest carries (ground (arith, ok_))))

read-carried :
    (resp : Response) (wire : ChannelResponse) (digest : String)
    → Carries resp wire
    → read_response resp digest ≡ (
        if not (resp.status == 200)
        then refused_delivery_result resp wire digest
        else accepted_delivery_result wire digest)
unfolding read_response
read-carried resp wire digest (fits, json, body, one) =
    rw (fits, json, body, read_response) (ground (arith, one))

WellFormed-status :
    (resp : Response) (wire : ChannelResponse) (digest : String) (retry : ℕ)
    → WellFormed resp wire digest retry
    → (resp.status == 200) ≡ false
WellFormed-status resp wire digest retry (empty, w) = ground (arith, w)

pub Says-read :
    (resp : Response) (digest : String) (result : DeliveryResult)
    → Says resp digest result
    → read_response resp digest ≡ answered result
unfolding accepted_delivery_result refused_delivery_result
Says-read resp digest result
      (wire, carries, inl (artifacts, (ok_, outcome, bare, final, same, is), e)) =
    read-carried resp wire digest carries
    ∙ ground (
      arith,
      eq_iff wire.outcome "accepted",
      eq_iff wire.reason "",
      eq_iff wire.artifact_digest digest,
      e,
      is,
    )
Says-read resp digest result (wire, carries, inr (retry, w, e)) =
    read-carried resp wire digest carries
    ∙ rw
        (
          WellFormed-status resp wire digest retry w,
          WellFormed-refusal resp wire digest retry w,
          refused_delivery_result,
        )
        (ap answered (sym e))

-- Whatever the authority sends, and in these cases only, a response is read as a result. As an
-- acceptance: a 200 of version 1 with the outcome accepted, no reason, not retriable, that names the
-- digest of the artifact sent, with its returned artifacts well formed. As a refusal: a body of
-- version 1 that is well formed for its status, which means the outcome refused for 400, 401, 403,
-- 409 and 422 and pending for 429 and 503; no digest for a 401, else that of the artifact sent or,
-- for a 400 and a 503, none; no artifacts; and for a 429 the header's wait, which the reasons of a
-- rate must have. Its class is then the policy's for its status and reason.
pub read_response-Says :
    (resp : Response) (digest : String) (result : DeliveryResult)
    → (read_response resp digest ≡ answered result) ↔ Says resp digest result
read_response-Says resp digest result = (
  λ e. subst (Classified resp digest) e (read_response-Classified resp digest),
  Says-read resp digest result,
)
