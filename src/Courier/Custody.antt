-- ===== src/Courier/Custody.antt =====
-- The custody acknowledgement of an envelope (internal/evidence/custody/custody.go).
use ori_gateway.Base.{
  ℕ, String, Bool, false, not, ◌&&◌, ◌||◌, Option, none, some, ltb, leb, if◌then◌else◌, length, all,
  ◌==◌, nat_eq, string_eq,
}
use ori_gateway.Courier.Queue.State.{codes}
use ori_gateway.Courier.Queue.Open.Names.{after_prefix}
use ori_gateway.Courier.Sidecars.{max_safe_integer}

pub record Acknowledgement : Type 0 where
  pub v : ℕ
  pub device_id : String
  pub local_seq : ℕ
  pub envelope_digest : String
  pub custody_at_ms : ℕ
  pub key_id : String
  pub mac : String

abbrev pub acknowledgement_version : ℕ
acknowledgement_version = 1

-- The signer: its key id, HMAC over the canonical text of the acknowledgement without its `mac`,
-- strings.TrimSpace against the empty text, and the canonical text itself.
pub record Signer : Type 0 where
  pub key_id : String
  pub authenticate : Acknowledgement → String
  pub is_blank : String → Bool

abbrev pub is_lower_hex : ℕ → Bool
is_lower_hex c = (leb 48 c && leb c 57) || (leb 97 c && leb c 102)

unfoldable pub valid_sha256_digest : String → Bool
unfolding after_prefix
valid_sha256_digest digest = elim (after_prefix "sha256:" digest) [
  | none ↦ false
  | some body ↦ length (codes body) == 64 && all is_lower_hex (codes body)
]

abbrev pub unsigned : Signer → String → ℕ → String → ℕ → Acknowledgement
unsigned signer device seq digest at = record {
  v = acknowledgement_version;
  device_id = device;
  local_seq = seq;
  envelope_digest = digest;
  custody_at_ms = at;
  key_id = signer.key_id;
  mac = "";
}

-- `none` is an error. A number that is not positive is 0.
unfoldable pub acknowledge : Signer → String → ℕ → String → ℕ → Option Acknowledgement
unfolding valid_sha256_digest
acknowledge signer device seq digest at =
    if signer.is_blank device
    then none
    else if not (valid_sha256_digest digest)
    then none
    else if seq == 0 || at == 0
    then none
    else if ltb max_safe_integer seq || ltb max_safe_integer at
    then none
    else some (record (unsigned signer device seq digest at) {
      mac = signer.authenticate (unsigned signer device seq digest at);
    })
