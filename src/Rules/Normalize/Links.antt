-- ===== src/Rules/Normalize/Links.antt =====
-- Entities give their links at UTF-16 offsets: what they select is the text between.
use tg_guard_bot.Common.{
  true, Bool-cases, drop, ◌≤◌, ◌∷◌, not, ◌&&◌, ◌++◌, ◌/◌, [], inl, ◌≡◌, All, ◌+◌, refl, ltb, ◌-◌,
  leb, Bool, ◌%◌, arith, inr, ℕ, length, take, List, false, none, pos, ◌∙◌, some, ap,
}
use tg_guard_bot.Domain.Message.{Entity}
use tg_guard_bot.Domain.Settings.{Text}
use tg_guard_bot.Rules.Normalize.{
  joined_pair, utf16_decode, is_surrogate, utf16_encode, is_high, is_low, collect, all_links,
  entity_links, decode_from, entity_units,
}
use tg_guard_bot.Rules.Text.{clean, Unicode}

-- A Unicode scalar value, as a rune of a Go string is.
unfoldable pub is_scalar : ℕ → Bool
is_scalar c = not (is_surrogate c) && leb c 0x10ffff

unfoldable pub Scalars : Text → Type 0
Scalars t = All (λ c. is_scalar c ≡ true) t

module _ {ℓ} {A : Type ℓ} where
  drop-append : (xs ys : List A) → drop (length xs) (xs ++ ys) ≡ ys
  drop-append [] ys = refl
  drop-append (x ∷ xs) ys = drop-append xs ys

  take-append : (xs ys : List A) → take (length xs) (xs ++ ys) ≡ xs
  take-append [] ys = refl
  take-append (x ∷ xs) ys = rw (take-append xs ys)

  length-append : (xs ys : List A) → length (xs ++ ys) ≡ length xs + length ys
  length-append [] ys = omega arith
  length-append (x ∷ xs) ys = grind (arith, length-append xs ys)

  append_assoc : (xs ys zs : List A) → (xs ++ ys) ++ zs ≡ xs ++ (ys ++ zs)
  append_assoc [] ys zs = refl
  append_assoc (x ∷ xs) ys zs = rw (append_assoc xs ys zs)

utf16_encode-append : (a b : Text) → utf16_encode (a ++ b) ≡ utf16_encode a ++ utf16_encode b
unfolding utf16_encode
utf16_encode-append [] b = refl
utf16_encode-append (c ∷ cs) b = elim (Bool-cases (ltb c 0x10000)) [
  | inl h ↦ rw (h, utf16_encode-append cs b)
  | inr h ↦ rw (h, utf16_encode-append cs b)
]

abbrev high_of : ℕ → ℕ
high_of c = 0xd800 + (c - 0x10000) / 0x400

abbrev low_of : ℕ → ℕ
low_of c = 0xdc00 + (c - 0x10000) % 0x400

joined_pair-split : (c : ℕ) → 0x10000 ≤ c → joined_pair (high_of c) (low_of c) ≡ c
joined_pair-split c h = omega arith

high_of-is_high : (c : ℕ) → 0x10000 ≤ c → c ≤ 0x10ffff → is_high (high_of c) ≡ true
unfolding is_high
high_of-is_high c h k = ground arith

low_of-is_low : (c : ℕ) → 0x10000 ≤ c → is_low (low_of c) ≡ true
unfolding is_low
low_of-is_low c h = ground arith

plain-not_high : (c : ℕ) → is_surrogate c ≡ false → is_high c ≡ false
unfolding is_high is_surrogate
plain-not_high c e = ground arith

decode_from-plain :
    (c : ℕ) (us : List ℕ)
    → is_surrogate c ≡ false
    → decode_from none (c ∷ us) ≡ c ∷ decode_from none us
unfolding decode_from
decode_from-plain c us e = rw (plain-not_high c e, e)

decode_from-pair :
    (u v : ℕ) (us : List ℕ)
    → is_high u ≡ true
    → is_low v ≡ true
    → decode_from none (u ∷ v ∷ us) ≡ joined_pair u v ∷ decode_from none us
unfolding decode_from
decode_from-pair u v us h l = rw (h, l)

decode-encode : (t : Text) → Scalars t → utf16_decode (utf16_encode t) ≡ t
unfolding utf16_encode utf16_decode is_scalar Scalars
decode-encode [] k = refl
decode-encode (c ∷ cs) k = elim (Bool-cases (ltb c 0x10000)) [
  | inl h ↦ rw (h, decode_from-plain c (utf16_encode cs) (ground arith), decode-encode cs k.1)
  | inr h ↦ rw (
    h,
    decode_from-pair (high_of c) (low_of c) (utf16_encode cs)
        (high_of-is_high c (ground arith) (ground arith)) (low_of-is_low c (ground arith)),
    joined_pair-split c (ground arith),
    decode-encode cs k.1,
  )
]

entity_units-between :
    (x y z : List ℕ)
    → ltb 0 (length y) ≡ true
    → entity_units (x ++ (y ++ z)) (pos (length x)) (pos (length y)) ≡ some y
unfolding entity_units
entity_units-between x y z h =
    let len : length (x ++ (y ++ z)) ≡ length x + (length y + length z) =
      length-append x (y ++ z) ∙ ap (λ n. length x + n) (length-append y z) in
    let inside : leb (length x) (length (x ++ (y ++ z))) ≡ true = grind (arith, len) in
    let fits : leb (length y) (length (x ++ (y ++ z)) - length x) ≡ true = grind (arith, len) in
    rw (h, inside, fits, drop-append x (y ++ z), take-append y z)

utf16_encode-nonempty :
    (b : Text) → ltb 0 (length b) ≡ true → ltb 0 (length (utf16_encode b)) ≡ true
unfolding utf16_encode
utf16_encode-nonempty [] h = h
utf16_encode-nonempty (c ∷ cs) h = elim (Bool-cases (ltb c 0x10000)) [
  | inl e ↦ rw e (ground arith)
  | inr e ↦ rw e (ground arith)
]

abbrev pub url_entity : ℕ → ℕ → Entity
url_entity offset extent = record {
  kind = "url";
  offset = pos offset;
  extent = pos extent;
  url = "";
}

-- The entity of the text `b` between `a` and `c`.
abbrev pub entity_of : Text → Text → Entity
entity_of a b = url_entity (length (utf16_encode a)) (length (utf16_encode b))

-- An entity of kind `url` whose offset and length are those of a stretch of the text in UTF-16 units, as
-- Telegram counts them, gives the normalized stretch as a link, and nothing else.
pub collect_between :
    (u : Unicode) (a b c : Text)
    → Scalars b
    → ltb 0 (length b) ≡ true
    → collect u (a ++ (b ++ c)) (entity_of a b ∷ []) ≡ clean u b ∷ []
unfolding collect all_links entity_links
collect_between u a b c k h =
    let parts : utf16_encode (a ++ (b ++ c))
        ≡ utf16_encode a ++ (utf16_encode b ++ utf16_encode c) =
      utf16_encode-append a (b ++ c) ∙ ap (λ x. utf16_encode a ++ x) (utf16_encode-append b c) in
    let found : entity_units (utf16_encode (a ++ (b ++ c))) (entity_of a b).offset
          (entity_of a b).extent
        ≡ some (utf16_encode b) =
      rw parts (
        entity_units-between (utf16_encode a) (utf16_encode b) (utf16_encode c)
          (utf16_encode-nonempty b h)) in
    rw (found, decode-encode b k)
