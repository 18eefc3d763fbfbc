-- ===== src/Bot/Dispatch/Gate.antt =====
-- No command and no review behind a message that the moderation does not let pass.
use tg_guard_bot.Common.{
  true, inl, Bool-cases, ◌||◌, Bool, inr, not, ◌⊎◌, refl, false, ◌≡◌, arith, ℕ,
}
use tg_guard_bot.Bot.Dispatch.{Bot, group_message, follow, Services}
use tg_guard_bot.Database.{Log, Db}
use tg_guard_bot.Domain.Message.{Message}
use tg_guard_bot.Effects.{Act, continue, Result, World, err, ◌>>=◌, ok}
use tg_guard_bot.Service.Moderate.{moderate_result, know_group}
use tg_guard_bot.Service.Moderation.{is_harmless}
use tg_guard_bot.Service.Protection.{authorized_of}

module _ {D A B R : Type 0} where
  -- Two actions that start alike differ only where what follows differs.
  same-bind :
      (m : Act D A) (f g : A → Act D B) (w : World D)
      → ((a : A) (w' : World D) → m w ≡ (ok a, w') → (f a w' ≡ g a w') ⊎ R)
      → ((m >>= f) w ≡ (m >>= g) w) ⊎ R
  unfolding ◌>>=◌
  same-bind m f g w k = go (m w) refl
    where
      go : (r : Result A × World D) → m w ≡ r → (continue r.0 f r.1 ≡ continue r.0 g r.1) ⊎ R
      go (ok a, w') e = k a w' e
      go (err x, w') e = inl refl

module _ (b : Bot) (update : ℕ) (edited : Bool) (m : Message) where
  -- The run from `w` went this way: the group is registered and approved, the moderation let the
  -- message pass, and the message is not an edit.
  pub record LetThrough (w : World Db) : Type 0 where
    pub known : World Db
    pub ready : World Db
    pub log : Log
    pub after : World Db
    registered : know_group m.content.chat w ≡ (ok tt, known)
    approved : authorized_of m.content.chat.id known ≡ (ok true, ready)
    judged :
        moderate_result b.unicode b.sha256 b.regexps b.provider update m.content ready
        ≡ (ok log, after)
    pub harmless : is_harmless b.unicode b.sha256 log.decision.action ≡ true
    pub original : edited ≡ false

  -- What becomes of a message of a supergroup depends on the commands and the menus only if the group
  -- is approved, the moderation of the message succeeds with a log whose decision is to allow it or only
  -- to record it, and the message is not an edit: in every other case the run is the same whatever the
  -- commands do.
  pub group_message_gated :
      (s s' : Services) (w : World Db)
      → (group_message b s update edited m w ≡ group_message b s' update edited m w) ⊎ LetThrough w
  unfolding group_message follow
  group_message_gated s s' w = same-bind _ _ _ w λ a w1 e1. same-bind _ _ _ w1 λ granted w2 e2.
      elim (Bool-cases granted) [
        | inr no_ ↦ inl (rw no_ refl)
        | inl yes_ ↦ rw yes_ (same-bind _ _ _ w2 λ l w3 e3. same-follow w1 w2 l w3 e1 (cc) e3)
      ]
    where
      same-follow :
          (w1 w2 : World Db) (l : Log) (w3 : World Db)
          → know_group m.content.chat w ≡ (ok tt, w1)
          → authorized_of m.content.chat.id w1 ≡ (ok true, w2)
          → moderate_result b.unicode b.sha256 b.regexps b.provider update m.content w2 ≡ (ok l, w3)
          → (follow b s update edited m l w3 ≡ follow b s' update edited m l w3) ⊎ LetThrough w
      same-follow w1 w2 l w3 e1 e2 e3 =
          elim (Bool-cases (not (is_harmless b.unicode b.sha256 l.decision.action) || edited)) [
            | inl stop ↦ inl (rw stop refl)
            | inr go ↦ inr (record {
              known = w1;
              ready = w2;
              log = l;
              after = w3;
              registered = e1;
              approved = e2;
              judged = e3;
              harmless = ground (arith, go);
              original = ground (arith, go);
            })
          ]
