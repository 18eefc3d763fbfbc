-- ===== src/Rules/Normalize.antt =====
-- internal/rules/engine.go, `Normalize`: from a message to the parts that the engine evaluates. The
-- media type, which only the prompt of the AI provider prints, is left out.
pub mod Links
use tg_guard_bot.Common.{
  true, ◌++◌, Option, ◌-◌, length, ltb, List, false, leb, [], ◌+◌, not, some, ℕ, take, drop, none,
  str_eq, ◌*◌, pos, ℤ, ◌||◌, Bool, ◌/◌, if◌then◌else◌, String, ◌&&◌, ◌%◌, runes, ◌∷◌, count_where,
}
use tg_guard_bot.Domain.Context.{context_parts, ModerationPart}
use tg_guard_bot.Domain.Message.{Content, body, User, Entity}
use tg_guard_bot.Domain.Settings.{Text}
use tg_guard_bot.Rules.Evaluate.{Part, Normalized, Regexps}
use tg_guard_bot.Rules.Text.{Unicode, text_eq, clean}

unfoldable pub is_high : ℕ → Bool
is_high c = leb 0xd800 c && ltb c 0xdc00

unfoldable pub is_low : ℕ → Bool
is_low c = leb 0xdc00 c && ltb c 0xe000

unfoldable pub is_surrogate : ℕ → Bool
is_surrogate c = leb 0xd800 c && ltb c 0xe000

-- `utf16.Encode`.
unfoldable pub utf16_encode : Text → List ℕ
utf16_encode [] = []
utf16_encode (c ∷ cs) =
    if ltb c 0x10000
    then c ∷ utf16_encode cs
    else (0xd800 + (c - 0x10000) / 0x400) ∷ ((0xdc00 + (c - 0x10000) % 0x400) ∷ utf16_encode cs)

abbrev pub lone : ℕ → ℕ
lone u = if is_surrogate u then 0xfffd else u

abbrev pub joined_pair : ℕ → ℕ → ℕ
joined_pair u v = (u - 0xd800) * 0x400 + (v - 0xdc00) + 0x10000

-- The loop of `utf16.Decode`, behind a high surrogate that waits for its second half or behind none.
unfoldable pub decode_from : Option ℕ → List ℕ → Text
decode_from none [] = []
decode_from (some h) [] = 0xfffd ∷ []
decode_from none (u ∷ us) =
    let held = decode_from (some u) us in
    let rest = decode_from none us in if is_high u then held else lone u ∷ rest
decode_from (some h) (u ∷ us) =
    let held = decode_from (some u) us in
    let rest = decode_from none us in
    if is_low u
    then joined_pair h u ∷ rest
    else 0xfffd ∷ (if is_high u then held else lone u ∷ rest)

-- `utf16.Decode`.
unfoldable pub utf16_decode : List ℕ → Text
unfolding decode_from
utf16_decode units = decode_from none units

-- `units[e.Offset:e.Offset+e.Length]`, where the bounds hold.
unfoldable pub entity_units : List ℕ → ℤ → ℤ → Option (List ℕ)
entity_units units (pos offset) (pos extent) =
    if ltb 0 extent && (leb offset (length units) && leb extent (length units - offset))
    then some (take extent (drop offset units))
    else none
entity_units units _ _ = none

abbrev pub decoded_link : Unicode → Option (List ℕ) → List Text
decoded_link u none = []
decoded_link u (some units) = clean u (utf16_decode units) ∷ []

-- The body of the loop of `collect`.
unfoldable pub entity_links : Unicode → List ℕ → Entity → List Text
unfolding entity_units utf16_decode clean
entity_links u units e =
    (if str_eq e.kind "text_link" && not (str_eq e.url "") then clean u (runes e.url) ∷ [] else [])
    ++ (if str_eq e.kind "url" then decoded_link u (entity_units units e.offset e.extent) else [])

unfoldable pub all_links : Unicode → List ℕ → List Entity → List Text
unfolding entity_links
all_links u units [] = []
all_links u units (e ∷ es) = entity_links u units e ++ all_links u units es

-- `collect`.
unfoldable pub collect : Unicode → Text → List Entity → List Text
unfolding all_links utf16_encode
collect u t es = all_links u (utf16_encode t) es

unfoldable pub has_text : Text → List Text → Bool
unfolding text_eq
has_text t [] = false
has_text t (s ∷ ss) = text_eq s t || has_text t ss

-- The loop of `unique`, with the keys of its map `seen`.
unfoldable pub unique_from : List Text → List Text → List Text
unfolding has_text
unique_from known [] = []
unique_from known (t ∷ ts) = elim (has_text t known) [
  | true ↦ unique_from known ts
  | false ↦ t ∷ unique_from (t ∷ known) ts
]

-- `unique`.
unfoldable pub unique : List Text → List Text
unfolding unique_from
unique ts = unique_from [] ts

abbrev pub is_upper : ℕ → Bool
is_upper c = leb 65 c && leb c 90

abbrev pub is_letter : ℕ → Bool
is_letter c = (leb 97 c && leb c 122) || is_upper c

-- `UppercaseRatio >= .8`: the ratio is set from fifteen letters on, and the quotient of the two
-- floats is rounded to the nearest float, as the constant .8 is.
unfoldable pub mostly_upper_text : Text → Bool
mostly_upper_text t =
    let letters = count_where is_letter t in
    leb 15 letters && leb (letters * 4) (count_where is_upper t * 5)

abbrev pub sender_id : Option User → ℤ
sender_id none = pos 0
sender_id (some v) = v.id

abbrev pub sender_name : Option User → String
sender_name none = ""
sender_name (some v) = v.username

module _ (u : Unicode) (re : Regexps) where
  -- What `Normalize` finds in the body alone.
  unfoldable pub normalize_text : String → Text → Part
  unfolding clean unique mostly_upper_text
  normalize_text source t = record {
    context_source = source;
    has_wallet = re.wallet t;
    chat_id = pos 0;
    message_id = pos 0;
    user_id = pos 0;
    username = "";
    body = clean u t;
    urls = unique (re.find_urls (clean u t));
    mentions = unique (re.find_mentions (clean u t));
    is_new = false;
    first_message = false;
    mostly_upper = mostly_upper_text t;
  }

  unfoldable pub normalize_contexts : List ModerationPart → List Part
  unfolding normalize_text
  normalize_contexts [] = []
  normalize_contexts (p ∷ ps) = normalize_text p.source p.text ∷ normalize_contexts ps

  -- `Normalize`.
  unfoldable pub normalize : Content → Normalized
  unfolding normalize_text normalize_contexts collect unique mostly_upper_text context_parts body
      clean
  normalize m = record {
    main = record (normalize_text "" (runes (body m))) {
      chat_id = m.chat.id;
      message_id = m.id;
      user_id = sender_id m.from;
      username = sender_name m.from;
      urls = unique (
          re.find_urls (clean u (runes (body m)))
          ++ (collect u (runes m.text) m.entities
              ++ collect u (runes m.caption) m.caption_entities));
      mostly_upper = mostly_upper_text (runes m.text ++ runes m.caption);
    };
    contexts = normalize_contexts (context_parts m);
  }
