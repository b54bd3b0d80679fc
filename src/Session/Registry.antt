-- ===== src/Session/Registry.antt =====
-- The registry of sessions (internal/session/session.go).
use ori_gateway.Base.{
  ℕ, String, ◌≡◌, refl, ap, ◌∙◌, inl, inr, Bool, true, false, Option, none, some, List, [], ◌∷◌,
  ◌++◌, arith, eq_iff, if◌then◌else◌, Bool-cases, Option-cases, ◌==◌, nat_eq, string_eq,
}
use ori_gateway.Base.Maps.{Map, lookup, erase, Distinct, lookup-erase}
use ori_gateway.Session.{
  ReasoningResponse, Session, is_correlated, is_timed_out, correlate, evict_each, evict_timed_out,
}

-- Each session stands once, under its request.
pub record Filed (m : Map String Session) : Type 0 where
  pub distinct : Distinct m
  pub named : (id : String) (s : Session) → lookup id m ≡ some s → s.request.request_id ≡ id

abbrev pub timed_out : ℕ → Option Session → Bool
timed_out now none = false
timed_out now (some s) = is_timed_out now s

evict_each-left :
    (now : ℕ) (id : String) (rest m : Map String Session) (out : List Session)
    → Distinct rest
    → lookup id (evict_each now rest (m, out)).0
      ≡ (if timed_out now (lookup id rest) then none else lookup id m)
unfolding evict_each lookup
evict_each-left now id [] m out d = refl
evict_each-left now id ((j, s) ∷ rest) m out d = elim (Bool-cases (is_timed_out now s)) [
  | inl gone ↦
      rw (gone, evict_each)
        (ground (
          arith,
          evict_each-left now id rest (erase j m) (out ++ (s ∷ [])) d.1,
          lookup-erase j id m,
          eq_iff j id,
        ))
  | inr stays ↦
      rw (stays, evict_each) (ground (arith, evict_each-left now id rest m out d.1, eq_iff j id))
]

correlate-found :
    (response : ReasoningResponse) (m : Map String Session) (s : Session)
    → (correlate response m).1 ≡ some s
    → (lookup response.request_id m ≡ some s)
      × ((correlate response m).0 ≡ erase response.request_id m)
unfolding correlate
correlate-found response m s is = elim (Option-cases (lookup response.request_id m)) [
  | inl absent ↦ ground (arith, rw (absent, correlate) at is)
  | inr (x, found) ↦ ground (arith, found)
]

correlate-absent :
    (response : ReasoningResponse) (m : Map String Session)
    → lookup response.request_id m ≡ none
    → (correlate response m).1 ≡ none
unfolding correlate
correlate-absent response m absent = rw (absent, correlate) refl

-- A response finds the session of its request, once: the session found is the one the response is
-- correlated with, it leaves the registry, the sessions of other requests stay, and the same
-- response then finds nothing.
pub correlate-once :
    (response : ReasoningResponse) (m : Map String Session) (s : Session)
    → Filed m
    → (correlate response m).1 ≡ some s
    → (is_correlated response s ≡ true)
      × ((id : String)
          → lookup id (correlate response m).0
            ≡ (if response.request_id == id then none else lookup id m))
      × ((correlate response (correlate response m).0).1 ≡ none)
unfolding is_correlated
correlate-once response m s f is =
    let (found, left) = correlate-found response m s is in
    let after : (id : String)
        → lookup id (correlate response m).0
          ≡ (if response.request_id == id then none else lookup id m) =
      λ id. ap (lookup id) left ∙ lookup-erase response.request_id id m in
    (
      (eq_iff s.request.request_id response.request_id).1 (f.named response.request_id s found),
      after,
      correlate-absent response (correlate response m).0 (
          after response.request_id
          ∙ ground (arith, eq_iff response.request_id response.request_id)),
    )

-- An eviction takes out the sessions that have timed out by then, whatever the map's order, and
-- leaves every other session.
pub evict_timed_out-left :
    (now : ℕ) (m : Map String Session)
    → Filed m
    → (id : String)
    → lookup id (evict_timed_out now m).0
      ≡ (if timed_out now (lookup id m) then none else lookup id m)
unfolding evict_timed_out
evict_timed_out-left now m f id = evict_each-left now id m m [] f.distinct
