-- ===== src/Rules/Evaluate.antt =====
-- internal/rules/engine.go, `Evaluate` and `evaluatePart`; domain.Normalized. The regular
-- expressions of Go's package `regexp` are a parameter.
pub mod Bounds
pub mod Evidence
pub mod Distinct
use tg_guard_bot.Common.{
  false, ◌++◌, not, runes, length, Option, [], none, ◌∷◌, map, List, Bool, ℤ, String, some, ◌||◌, ℕ,
  str_append, ◌+◌, leb, ltb, str_eq, if◌then◌else◌, ◌&&◌,
}
use tg_guard_bot.Domain.Action.{action_eq, empty}
use tg_guard_bot.Domain.Builtin.{BuiltinRule, effective_rule, builtin_rules}
use tg_guard_bot.Domain.Message.{body}
use tg_guard_bot.Domain.Risk.{Match, named, rule_eq, Risk, RuleName, ad_rule}
use tg_guard_bot.Domain.Settings.{Settings, Text, AdRule, RuleSetting}
use tg_guard_bot.Rules.Decide.{stronger_action}
use tg_guard_bot.Rules.Text.{text_eq, contains, Unicode, clean, contains_text}

-- A part of a message without the contexts (`Normalized` of a forward's source or of a quote).
pub record Part : Type 0 where
  pub context_source : String
  pub has_wallet : Bool
  pub chat_id : ℤ
  pub message_id : ℤ
  pub user_id : ℤ
  pub username : String
  pub body : Text
  pub urls : List Text
  pub mentions : List Text
  pub is_new : Bool
  pub first_message : Bool
  -- `UppercaseRatio >= .8`: what the engine reads of the ratio
  pub mostly_upper : Bool

pub record Normalized : Type 0 where
  pub main : Part
  pub contexts : List Part

-- The compiled expressions: what `urlRE` and `mentionRE` find in a text, in order, whether `tgRE`,
-- `contactRE` and `walletRE` match, and `search p t`: `p` compiled under
-- "(?i)" and searched for in `t`, `none` where `p` does not compile; `search_plain p t`: without "(?i)".
pub record Regexps : Type 0 where
  pub find_urls : Text → List Text
  pub find_mentions : Text → List Text
  pub tg : Text → Bool
  pub contact : Text → Bool
  pub wallet : Text → Bool
  pub search : String → Text → Option Bool
  pub search_plain : String → Text → Option Bool

abbrev pub found : Option Bool → Bool
found (some b) = b
found none = false

-- One call of the closure `add`.
pub record Check : Type 0 where
  pub name : String
  pub matched : Bool
  pub points : ℕ
  pub reason : String

abbrev pub check : String → Bool → ℕ → String → Check
check n m p r = record { name = n; matched = m; points = p; reason = r }

abbrev pub override_matched : Option RuleSetting → Bool → Bool
override_matched none m = m
override_matched (some o) m = m && o.enabled

abbrev pub override_points : Option RuleSetting → ℕ → ℕ
override_points none p = p
override_points (some o) p = o.score

abbrev pub hit : String → ℕ → String → Match
hit n p r = record { rule = named n; score = p; reason = r }

-- The closure `add`.
unfoldable pub add : Settings → Check → Risk → Risk
add s c r =
    let points = override_points (s.rules c.name) c.points in
    if override_matched (s.rules c.name) c.matched
    then record r {
      score = r.score + points;
      matches = r.matches ++ hit c.name points c.reason ∷ [];
      local_action = stronger_action r.local_action (effective_rule s c.name).action;
    }
    else r

unfoldable pub add_all : Settings → List Check → Risk → Risk
add_all s [] r = r
add_all s (c ∷ cs) r = add_all s cs (add s c r)

-- `strings.Join(urls, " ")`.
unfoldable pub join_urls : List Text → Text
join_urls [] = []
join_urls (u ∷ []) = u
join_urls (u ∷ v ∷ us) = u ++ 32 ∷ join_urls (v ∷ us)

unfoldable pub words : List String → List Text
words ws = map runes ws

-- The loop over `compiledAdPresets`: the built-in rules that have a pattern.
unfoldable pub preset_checks : Regexps → Text → List BuiltinRule → List Check
preset_checks re joined [] = []
preset_checks re joined (b ∷ bs) =
    let rest = preset_checks re joined bs in
    if str_eq b.pattern_text ""
    then rest
    else check b.key (found (re.search b.pattern_text joined)) b.score b.label ∷ rest

-- The count of the loop over the runes of the text.
unfoldable pub emoji_count : Text → ℕ
emoji_count [] = 0
emoji_count (c ∷ cs) = if leb 0x1f300 c && leb c 0x1faff then emoji_count cs + 1 else emoji_count cs

abbrev pub has_links : Part → Bool
has_links n = ltb 0 (length n.urls)

unfoldable pub is_ad_text : Text → Bool
is_ad_text t = contains t (
    words (
      "代理" ∷ "推广" ∷ "包赔" ∷ "稳赚" ∷ "日赚" ∷ "兼职" ∷ "接单" ∷ "带单" ∷ "私聊" ∷ "收益翻倍" ∷ "guaranteed profit"
      ∷ "dm me" ∷ []))

unfoldable pub is_crypto_text : Regexps → Part → Bool
is_crypto_text re n =
    is_ad_text n.body
    && (n.has_wallet
        || (re.wallet n.body
            || contains n.body (words ("usdt" ∷ "trc20" ∷ "erc20" ∷ "换u" ∷ "充值" ∷ "兑换" ∷ []))))

-- The calls of `add` in their order: the presets, then the eleven named rules.
unfoldable pub checks : Regexps → Part → List Check
checks re n =
    let joined = n.body ++ 32 ∷ join_urls n.urls in
    preset_checks re joined builtin_rules
    ++ check "url" (has_links n) 20 "外部链接"
      ∷ check "telegram_link" (re.tg joined) 40 "Telegram 引流链接"
      ∷ check "contact" (re.contact n.body) 25 "联系方式"
      ∷ check "mention"
          (ltb 0 (length n.mentions)
            && contains n.body (words ("联系" ∷ "私聊" ∷ "咨询" ∷ "contact" ∷ "dm" ∷ [])))
          20 "用户名引流"
      ∷ check "advertising" (is_ad_text n.body) 25 "广告招揽词"
      ∷ check "gambling"
          (contains n.body (words ("博彩" ∷ "投注" ∷ "棋牌" ∷ "赌场" ∷ "casino" ∷ "betting" ∷ []))) 35
          "博彩推广词"
      ∷ check "porn" (contains n.body (words ("裸聊" ∷ "成人视频" ∷ "约炮" ∷ "成人视频" ∷ []))) 35 "色情推广词"
      ∷ check "crypto" (is_crypto_text re n) 20 "加密货币招揽"
      ∷ check "many_links" (leb 3 (length n.urls)) 25 "大量链接"
      ∷ check "caps" n.mostly_upper 15 "大量大写字符"
      ∷ check "emoji" (leb 15 (emoji_count n.body)) 15 "大量 Emoji"
      ∷ []

-- The three bonuses of new members: each is given only on top of some score.
unfoldable pub bonus : Bool → String → ℕ → String → Risk → Risk
bonus b name points reason r =
    if b && ltb 0 r.score
    then record r { score = r.score + points; matches = r.matches ++ hit name points reason ∷ [] }
    else r

unfoldable pub new_member_bonuses : Regexps → Part → Settings → Risk → Risk
new_member_bonuses re n s r =
    let guarded = s.new_member_protection in
    bonus (guarded && (n.first_message && re.contact n.body)) "first_contact" 30 "首条消息含联系方式" (
      bonus (guarded && (n.first_message && has_links n)) "first_link" 30 "首条消息含链接"
        (bonus (guarded && n.is_new) "new_member" 10 "入群不足十分钟" r))

-- The `switch rule.Mode`.
unfoldable pub ad_rule_matches : Unicode → Regexps → AdRule → Text → Bool
ad_rule_matches u re a t =
    let p = clean u (runes a.pattern_text) in
    if str_eq a.mode "contains"
    then not (text_eq p []) && contains_text t p
    else if str_eq a.mode "exact"
    then not (text_eq p []) && text_eq t p
    else str_eq a.mode "regex" && found (re.search a.pattern_text t)

-- The loop over `s.AdRules`; `i` is the index of the head.
unfoldable pub add_ad_rules : Unicode → Regexps → Text → ℕ → List AdRule → Risk → Risk
add_ad_rules u re t i [] r = r
add_ad_rules u re t i (a ∷ as') r = add_ad_rules u re t (i + 1) as' (
    if a.enabled && ad_rule_matches u re a t
    then record r {
      local_action = stronger_action r.local_action a.action;
      matches =
          r.matches
          ++ record {
            rule = ad_rule (i + 1);
            score = 100;
            reason = str_append "本地广告匹配：" a.pattern_text;
          }
            ∷ [];
    }
    else r)

-- The last two `if`s.
unfoldable pub cap_score : Risk → Risk
cap_score r =
    if not (action_eq r.local_action empty) || ltb 100 r.score then record r { score = 100 } else r

abbrev pub no_risk : Risk
no_risk = record { local_action = empty; score = 0; matches = []; spam = false }

unfoldable pub evaluate_part : Unicode → Regexps → Part → Settings → Risk
evaluate_part u re n s = cap_score (
    add_ad_rules u re n.body 0 s.ad_rules
      (new_member_bonuses re n s (add_all s (checks re n) no_risk)))

-- `seen[m.Rule]`.
unfoldable pub seen : RuleName → List RuleName → Bool
seen n [] = false
seen n (m ∷ ms) = rule_eq m n || seen n ms

-- The body of the inner loop of `Evaluate`; `label` is what a context puts in front of a reason.
unfoldable pub merge_match : (String → String) → Match → List RuleName × Risk → List RuleName × Risk
merge_match label m acc = if seen m.rule acc.0 then acc else (
  m.rule ∷ acc.0,
  record (acc.1) {
    matches = acc.1.matches ++ record m { reason = label m.reason } ∷ [];
    score = acc.1.score + m.score;
  },
)

unfoldable pub merge_matches :
    (String → String) → List Match → List RuleName × Risk → List RuleName × Risk
merge_matches label [] acc = acc
merge_matches label (m ∷ ms) acc = merge_matches label ms (merge_match label m acc)

-- One round of the outer loop.
unfoldable pub merge_part : (String → String) → Risk → List RuleName × Risk → List RuleName × Risk
merge_part label r acc =
    merge_matches label r.matches
      (acc.0, record (acc.1) { local_action = stronger_action acc.1.local_action r.local_action })

abbrev pub context_label : Part → String → String
context_label p reason = str_append "[" (str_append p.context_source (str_append "] " reason))

-- The rounds after the first: a context takes the main part's `IsNew` and `FirstMessage`.
unfoldable pub merge_contexts :
    Unicode → Regexps → Settings → Part → List Part → List RuleName × Risk → List RuleName × Risk
merge_contexts u re s n [] acc = acc
merge_contexts u re s n (p ∷ ps) acc = merge_contexts u re s n ps (
    merge_part (context_label p)
      (evaluate_part u re (record p { is_new = n.is_new; first_message = n.first_message }) s) acc)

-- `Evaluate`, on the main part and the contexts.
unfoldable pub evaluate_parts : Unicode → Regexps → Settings → Part → List Part → Risk
evaluate_parts u re s n [] = evaluate_part u re n s
evaluate_parts u re s n (p ∷ ps) =
    cap_score
      (merge_contexts u re s n (p ∷ ps)
        (merge_part (λ reason. reason) (evaluate_part u re n s) ([], no_risk))).1

unfoldable pub evaluate : Unicode → Regexps → Normalized → Settings → Risk
unfolding evaluate_parts
evaluate u re n s = evaluate_parts u re s n.main n.contexts
