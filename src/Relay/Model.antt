-- ===== src/Relay/Model.antt =====
-- The second half of `_call_ollama` of tools/relay_server.py: which pages are taken from the content
-- that the model answered with. The HTTP call and `json.loads` are libraries: what the content parses
-- to is given.
use gpti84_plus.Base.{◌≡◌, ◌≢◌, refl, List, [], ◌∷◌, Option, none, some, if◌then◌else◌}
use gpti84_plus.Base.Bytes.{Bytes}
use gpti84_plus.Relay.Wrap.{is_space, rstrip_spaces}
use gpti84_plus.Relay.Layout.{Entry, plain}

-- A `ValueError`, a value that is no object, or an object: with its pages, which are empty when they
-- are missing or not a list, and with the text of its reply.
pub data Parsed : Type 0 where
  not_json not_object : Parsed
  object : List Entry → Option Bytes → Parsed

abbrev pub lstrip_spaces : Bytes → Bytes
lstrip_spaces [] = []
lstrip_spaces (c ∷ cs) = if is_space c then lstrip_spaces cs else c ∷ cs

-- `s.strip()`
pub strip : Bytes → Bytes
unfolding rstrip_spaces
strip s = rstrip_spaces (lstrip_spaces s)

abbrev pub reply_or : Bytes → Option Bytes → Bytes
reply_or content none = content
reply_or content (some reply) = reply

-- `none` is the `AttributeError` of `obj.get`, which no caller catches.
pub pages_of : Bytes → Parsed → Option (List Entry)
unfolding strip
pages_of content not_json = some (plain (strip content) ∷ [])
pages_of content not_object = none
pages_of content (object (p ∷ ps) reply) = some (p ∷ ps)
pages_of content (object [] reply) = some (plain (strip (reply_or content reply)) ∷ [])

-- Of a content that does not parse to something else than an object there is a page at least.
pub pages_of-some :
    (content : Bytes) (parsed : Parsed)
    → parsed ≢ not_object
    → (p : Entry) × (ps : List Entry) × (pages_of content parsed ≡ some (p ∷ ps))
unfolding pages_of
pages_of-some content not_json h = (plain (strip content), [], refl)
pages_of-some content not_object h = absurd (h refl)
pages_of-some content (object (p ∷ ps) reply) h = (p, ps, refl)
pages_of-some content (object [] reply) h = (plain (strip (reply_or content reply)), [], refl)
