-- ===== src/Domain/Action.antt =====
-- internal/domain/types.go: the words that `Decision.Action` and the rule actions take. The source
-- keeps them as strings; `empty` is "", and `other` is any string that the code does not name.
use tg_guard_bot.Common.{Bool, true, false, String, str_eq}

pub data Action : Type 0 where
  empty allow shadow_log delete warn mute ban kick unmute unban : Action
  other : String → Action

-- `a == b` on two action strings.
abbrev pub action_eq : Action → Action → Bool
action_eq empty empty = true
action_eq allow allow = true
action_eq shadow_log shadow_log = true
action_eq delete delete = true
action_eq warn warn = true
action_eq mute mute = true
action_eq ban ban = true
action_eq kick kick = true
action_eq unmute unmute = true
action_eq unban unban = true
action_eq (other a) (other b) = str_eq a b
action_eq _ _ = false
