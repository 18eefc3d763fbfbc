-- ===== src/Service/Moderate/Shielded.antt =====
-- What is known of a spared sender on the way to the decision: the sender counts as protected.
use tg_guard_bot.Common.{
  true, arith, ◌∙◌, ℕ, Bool, not, ◌⊎◌, eq_ℤ, List, false, inr, ◌≡◌, ◌||◌, inl, any, String, ℤ, refl,
  sym,
}
use tg_guard_bot.Database.{list_status, ListEntry, ListKind, Db}
use tg_guard_bot.Database.Logs.{is_log_key}
use tg_guard_bot.Database.Members.{register_group}
use tg_guard_bot.Domain.Message.{User, Chat, Member}
use tg_guard_bot.Effects.{World, Env, exec, Tried, get_admins, Call}
use tg_guard_bot.Effects.Keeps.{
  Stable, Keeps-exec, Keeps, Keeps-redis, Triple-then, Triple-return, Keeps-recall, Triple-split,
  Keeps-bind, Keeps-pure, Keeps-if, Keeps-list_admins,
}
use tg_guard_bot.Effects.Rules.{Triple}
use tg_guard_bot.Effects.Steps.{Triple-query, Triple-assume, Triple-environment}
use tg_guard_bot.Service.Keywords.Replies.{is_send}
use tg_guard_bot.Service.Moderate.{know_group, moderation_protected}
use tg_guard_bot.Service.Protection.{spares, list_status_of}

-- The bot itself, a super administrator, or a member whom the lists spare at every moment.
unfoldable pub IsSpared : Env → List ListEntry → ℤ → ℤ → Type 0
IsSpared e lists chat user =
    ((eq_ℤ user e.bot_id || e.super_admin user) ≡ true)
    ⊎ ((time : ℕ) → spares (list_status time chat user lists) ≡ true)

abbrev is_admins_query : Call → Bool
is_admins_query (get_admins chat) = true
is_admins_query _ = false

-- A message, or the question for the administrators of a chat.
abbrev pub is_quiet : Call → Bool
is_quiet c = is_send c || is_admins_query c

abbrev pub is_deed : Tried → Bool
is_deed t = not (is_quiet t.call)

-- Telegram was asked for something other than a message or the administrators.
abbrev pub has_acted : World Db → Bool
has_acted w = any is_deed w.trace

abbrev pub Speaks : World Db → Type 0
Speaks w = has_acted w ≡ false

is_send-is_quiet : (c : Call) → is_send c ≡ true → is_quiet c ≡ true
is_send-is_quiet c h = rw h

pub speaks : Stable is_send Speaks
speaks = record {
  after_step = λ w i. i;
  after_call = λ w c b h i. rw (is_send-is_quiet c h, i);
  after_sight = λ w chat user i. i;
}

module _ (e : Env) (lists : List ListEntry) (key : String) where
  -- The run so far: only messages and questions for the administrators, and no log of the event.
  abbrev pub Fresh : World Db → Type 0
  Fresh w =
      (has_acted w ≡ false)
      × (w.env ≡ e)
      × (w.db.lists ≡ lists)
      × (any (is_log_key key) w.db.logs ≡ false)

  pub fresh : Stable is_quiet Fresh
  fresh = record {
    after_step = λ w i. i;
    after_call = λ w c b h i. (ground (arith, h, i.0), i.1, i.2, i.3);
    after_sight = λ w chat user i. i;
  }

  -- A statement on other tables.
  pub Keeps-aside :
      (f : ℕ → Db → Db)
      → ((time : ℕ) (db : Db) → (f time db).lists ≡ db.lists)
      → ((time : ℕ) (db : Db) → (f time db).logs ≡ db.logs)
      → Keeps Fresh (exec f)
  Keeps-aside f h k =
      Keeps-exec fresh f (λ w time i. (i.0, i.1, h time w.db ∙ i.2, rw (k time w.db) i.3))

  pub Keeps-know_group : (c : Chat) → Keeps Fresh (know_group c)
  unfolding know_group register_group
  Keeps-know_group c =
      Triple-split _ (λ h. Keeps-pure tt)
        λ h. Keeps-aside (register_group c) (λ time db. rw h) (λ time db. rw h)

  module _ (chat : ℤ) (sender : User) (spared : IsSpared e lists chat sender.id) where
    pub Known : ListKind → Type 0
    Known kind =
        ((eq_ℤ sender.id e.bot_id || e.super_admin sender.id) ≡ true) ⊎ (spares kind ≡ true)

    pub list_status-Known :
        Triple Fresh (list_status_of chat sender.id) (λ kind w. Fresh w × Known kind) Fresh
    unfolding list_status_of IsSpared Known
    list_status-Known = Triple-query _ (λ w time i. (i, go w time i spared)) (λ w i. i)
      where
        go :
            (w : World Db) (time : ℕ)
            → Fresh w
            → IsSpared e lists chat sender.id
            → Known (list_status time chat sender.id w.db.lists)
        go w time i (inl h) = inl h
        go w time i (inr k) = inr (rw i.2 (k time))

    pub protected-Known :
        (kind : ListKind)
        → Known kind
        → Triple Fresh (moderation_protected chat sender kind) (λ b w. Fresh w × (b ≡ true)) Fresh
    unfolding moderation_protected Known
    protected-Known kind h = Triple-then (Triple-environment (λ w i. (i, i.1))) λ found_env.
        Triple-assume λ same.
          Triple-split _ (λ yes. Triple-return true (λ w i. (i, refl)))
            λ free. Triple-then (Keeps-recall _) λ cached.
              Triple-then
                (Keeps-if cached (Keeps-recall _) (
                  Keeps-bind (Keeps-list_admins fresh chat refl)
                    λ found. Keeps-bind (Keeps-redis fresh) λ a. Keeps-pure found))
                λ admins. Triple-return _ (λ w i. (i, spares_all kind admins free same h))
      where
        spares_all :
            (kind : ListKind) (admins : List Member) {f : Env}
            → (sender.is_bot || (eq_ℤ sender.id f.bot_id || f.super_admin sender.id)) ≡ false
            → f ≡ e
            → Known kind
            → (any (λ a. eq_ℤ a.user.id sender.id) admins || spares kind) ≡ true
        spares_all kind admins {f} free same (inl h) =
            let clear : (sender.is_bot || (eq_ℤ sender.id e.bot_id || e.super_admin sender.id))
                ≡ false =
              rw (sym same) free in
            ground (arith, clear, h)
        spares_all kind admins free same (inr h) = ground (arith, h)
