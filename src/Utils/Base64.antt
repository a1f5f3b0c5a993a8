-- ===== src/Utils/Base64.antt =====
-- utils.js: `b64Encode`, `b64Decode`, `encodeTaskForSave`, `decodeTaskOnLoad`. The browser's
-- functions that these call are a parameter; none is a thrown exception.
use cockpit_cronplus.Common.{
  ◌<◌, ◌≡◌, Option, none, some, [], Text, is_empty, text_eq, All, if◌then◌else◌,
}
use cockpit_cronplus.App.Types.{Task}

-- `encode_utf8` is `unescape(encodeURIComponent(s))`, `decode_utf8` is `decodeURIComponent(escape(s))`.
pub record Browser : Type 0 where
  pub encode_utf8 : Text → Option Text
  pub decode_utf8 : Text → Option Text
  pub btoa : Text → Option Text
  pub atob : Text → Option Text

-- What the code relies on: what is encoded as UTF-8 is bytes and is decoded again, and so are bytes
-- in base 64. The empty text is decoded to itself.
pub record IsCodec (b : Browser) : Type 0 where
  pub utf8_bytes : (s : Text) {e : Text} → b.encode_utf8 s ≡ some e → All (λ c. c < 256) e
  pub utf8_decodes : (s : Text) {e : Text} → b.encode_utf8 s ≡ some e → b.decode_utf8 e ≡ some s
  pub base64 :
      (e : Text) → All (λ c. c < 256) e → (t : Text) × (b.btoa e ≡ some t) × (b.atob t ≡ some e)
  pub empty : (b.atob [] ≡ some []) × (b.decode_utf8 [] ≡ some [])

module _ (b : Browser) where
  -- The fallback may throw too.
  unfoldable pub b64_encode : Text → Option Text
  b64_encode s = elim (b.encode_utf8 s) [
    | none ↦ b.btoa s
    | some e ↦ elim (b.btoa e) [ none ↦ b.btoa s | some t ↦ some t ]
  ]

  unfoldable pub b64_decode : Text → Option Text
  b64_decode s = elim (b.atob s) [ none ↦ none | some e ↦ b.decode_utf8 e ]

  -- `encodeTaskForSave`; none if it throws.
  unfoldable pub encode_task : Task → Option Task
  encode_task task = if is_empty task.command then some task else elim (b64_encode task.command) [
    | none ↦ none
    | some c ↦ some (record task { command = c })
  ]

  -- `decodeTaskOnLoad`: a command that cannot be decoded stays.
  unfoldable pub decode_task : Task → Task
  decode_task task = if is_empty task.command then task else elim (b64_decode task.command) [
    | none ↦ task
    | some d ↦ if text_eq d task.command then task else record task { command = d }
  ]
