-- ===== src/Examples/Messages.antt =====
-- `Evaluate` on concrete messages.
use tg_guard_bot.Common.{
  ◌&&◌, leb, [], if◌then◌else◌, refl, pos, ◌∷◌, inr, String, negsuc, ◌==◌, arith, runes, inl, false,
  true, ◌≡◌, some, eq_iff, ◌+◌, List,
}
use tg_guard_bot.Domain.Action.{empty, mute}
use tg_guard_bot.Domain.Builtin.{find_rule, builtin_rules, find_builtin_rule, effective_rule}
use tg_guard_bot.Domain.Risk.{named, ad_rule}
use tg_guard_bot.Domain.Settings.{Text, Settings}
use tg_guard_bot.Examples.Policy.{settings_example}
use tg_guard_bot.Rules.Decide.{stronger_action}
use tg_guard_bot.Rules.Evaluate.{
  merge_contexts, evaluate_part, is_ad_text, merge_part, Part, add, new_member_bonuses, Regexps,
  ad_rule_matches, bonus, merge_matches, add_ad_rules, preset_checks, words, is_crypto_text,
  add_all, Normalized, join_urls, evaluate, seen, emoji_count, merge_match, checks, cap_score,
}
use tg_guard_bot.Rules.Evaluate.Bounds.{ScoreExplained, evaluate_explained, HasActions}
use tg_guard_bot.Rules.Evaluate.Distinct.{Distinct, evaluate-Distinct}
use tg_guard_bot.Rules.Evaluate.Evidence.{IsBonus, reported, evaluate_disabled}
use tg_guard_bot.Rules.Text.{clean, contains_text, text_eq, Unicode, contains}

abbrev pub ascii : Unicode
ascii = record {
  is_format = λ c. c == 0x200b;
  to_lower = λ c. if leb 65 c && leb c 90 then c + 32 else c;
  equal_fold = λ a b. text_eq a b;
}

abbrev pub simple_regexps : Regexps
simple_regexps = record {
  find_urls = λ t. [];
  find_mentions = λ t. [];
  tg = λ t. false;
  contact = λ t. false;
  wallet = λ t. false;
  search = λ p t. some false;
  search_plain = λ p t. some false;
}

abbrev part : String → List Text → Part
part t links = record {
  context_source = "引用文字";
  has_wallet = false;
  chat_id = negsuc 99;
  message_id = pos 7;
  user_id = pos 5;
  username = "";
  body = runes t;
  urls = links;
  mentions = [];
  is_new = true;
  first_message = true;
  mostly_upper = false;
}

abbrev advert : Normalized
advert = record { main = part "please buy" (runes "t.co" ∷ []); contexts = part "casino" [] ∷ [] }

clean_lowers : clean ascii (runes "  BUY\t Now ") ≡ runes "buy now"
unfolding clean
clean_lowers = refl

advert_score : (evaluate ascii simple_regexps advert settings_example).score ≡ 100
unfolding evaluate evaluate_part merge_part merge_contexts merge_matches merge_match seen cap_score
    add_ad_rules ad_rule_matches clean contains_text text_eq new_member_bonuses bonus add_all add
    stronger_action effective_rule find_builtin_rule builtin_rules find_rule checks preset_checks
    join_urls words contains is_ad_text is_crypto_text emoji_count
advert_score = refl

custom_rules-HasActions : HasActions settings_example.ad_rules
custom_rules-HasActions = (omega arith, tt)

evaluate_explained_example : ScoreExplained (evaluate ascii simple_regexps advert settings_example)
evaluate_explained_example =
    evaluate_explained ascii simple_regexps settings_example custom_rules-HasActions advert

url_scored : ¬ IsBonus "url"
url_scored (inl e) = cc ((eq_iff "url" "new_member").1 e)
url_scored (inr (inl e)) = cc ((eq_iff "url" "first_link").1 e)
url_scored (inr (inr e)) = cc ((eq_iff "url" "first_contact").1 e)

evaluate_disabled_example :
    reported (named "url") (evaluate ascii simple_regexps advert settings_example).matches ≡ false
evaluate_disabled_example =
    evaluate_disabled ascii simple_regexps settings_example (named "url")
      (url_scored, (record { action = empty; enabled = false; score = 20 }, (refl, refl))) advert

-- The only custom rule of the group, switched off.
abbrev quiet_settings : Settings
quiet_settings = record settings_example {
  ad_rules =
      record { pattern_text = "buy"; mode = "contains"; action = mute; enabled = false } ∷ [];
}

custom_rule_disabled :
    reported (ad_rule 1) (evaluate ascii simple_regexps advert quiet_settings).matches ≡ false
unfolding evaluate evaluate_part merge_part merge_contexts merge_matches merge_match seen cap_score
    add_ad_rules ad_rule_matches clean contains_text text_eq new_member_bonuses bonus add_all add
    stronger_action effective_rule find_builtin_rule builtin_rules find_rule checks preset_checks
    join_urls words contains is_ad_text is_crypto_text emoji_count reported
custom_rule_disabled = refl

evaluate-Distinct_example :
    Distinct
      (evaluate ascii simple_regexps
        (record { main = advert.main; contexts = part "casino" [] ∷ [] })
        settings_example).matches
    × ScoreExplained (
        evaluate ascii simple_regexps
          (record { main = advert.main; contexts = part "casino" [] ∷ [] })
          settings_example)
evaluate-Distinct_example =
    evaluate-Distinct ascii simple_regexps settings_example advert.main (part "casino" []) []
      custom_rules-HasActions
