-- ===== src/Verification/Answers.antt =====
-- `Answer`: who can pass, how often one can try, and what a redelivered answer does.
use mathlib.Core.Option
use tg_guard_bot.Common.{
  arith, find_where, some, List, update_where, eq_iff, str_eq, ℤ, inr, ◌<◌, ◌≤◌, inl, ◌∙◌, ℕ,
  Bool-cases, true, String, ◌≡◌, refl, eq_ℤ_iff, Option-cases, ap, find_where-holds, ◌⊎◌,
  if◌then◌else◌, Option, none, ◌∷◌, [],
}
use tg_guard_bot.Verification.{
  Status, pending, Tables, Verification, complete, status_eq, hash_answer, has_token, accepted,
  judge, past_event, session, answer, Answered, wrong_answer,
}

has_token_iff : (token : String) (v : Verification) → has_token token v ≡ true → v.token ≡ token
has_token_iff token v h = (eq_iff v.token token).0 h

-- What a session reads after an update, by token, that keeps the tokens.
pub session-update :
    (k token : String) (f : Verification → Verification) (xs : List Verification)
    → ((w : Verification) → (f w).token ≡ w.token)
    → find_where (has_token k) (update_where (has_token token) f xs) ≡ (
        if str_eq k token
        then Option.map f (find_where (has_token k) xs)
        else find_where (has_token k) xs)
session-update k token f [] keep = ground arith
session-update k token f (x ∷ xs) keep = ground (
  arith,
  keep x,
  eq_iff x.token token,
  eq_iff x.token k,
  eq_iff k token,
  eq_iff (f x).token k,
  session-update k token f xs keep,
)

-- The same where the session is known.
pub session-update_known :
    (k token : String) (f : Verification → Verification) (xs : List Verification) (v : Verification)
    → ((w : Verification) → (f w).token ≡ w.token)
    → find_where (has_token token) xs ≡ some v
    → find_where (has_token k) (update_where (has_token token) f xs)
      ≡ (if str_eq k token then some (f v) else find_where (has_token k) xs)
session-update_known k token f xs v keep e = elim (Bool-cases (str_eq k token)) [
  | inl same ↦
      let e' = ap (λ j. find_where (has_token j) xs) ((eq_iff k token).0 same) ∙ e in
      session-update k token f xs keep ∙ ground (arith, e')
  | inr miss ↦ session-update k token f xs keep ∙ ground arith
]

-- What a session must look like for an answer to complete it.
pub record Passes (sha256 : String → String) (now : ℕ) (token : String) (user : ℤ) (text : String)
    (v : Verification) : Type 0 where
  pub owner : v.user_id ≡ user
  pub waiting : v.status ≡ pending
  pub in_time : now ≤ v.expires_at
  pub tries_left : v.attempts < 3
  pub right_answer : v.answer_hash ≡ hash_answer sha256 token text

status_eq-pending : (s : Status) → status_eq s pending ≡ true → s ≡ pending
status_eq-pending s h = ground arith

judge-accepted :
    (sha256 : String → String) (now : ℕ) (event : String) (v : Verification) (text : String)
    (t t' : Tables) {w : Verification}
    → judge sha256 now event v text t ≡ (accepted w, t')
    → Passes sha256 now v.token v.user_id text v
      × (w ≡ complete v)
      × (t'.sessions ≡ update_where (has_token v.token) complete t.sessions)
unfolding judge
judge-accepted sha256 now event v text t t' h =
    let hash = hash_answer sha256 v.token text in
    ground (arith, eq_iff v.answer_hash hash, status_eq-pending v.status)

-- An answer is accepted in two cases only. Either the session of the token belongs to the user, is
-- pending, in time, was answered wrongly at most twice, and the answer's hash is the stored one; then
-- the session is completing afterwards and no other session changes. Or this very event was accepted
-- before, and nothing changes.
pub answer_accepted :
    (sha256 : String → String) (now : ℕ) (token : String) (user : ℤ) (text event : String)
    (t t' : Tables) (w : Verification)
    → answer sha256 now token user text event t ≡ (accepted w, t')
    → ((v : Verification) × (session token t ≡ some v)
        × Passes sha256 now token user text v
        × ((k : String)
            → session k t' ≡ (if str_eq k token then some (complete v) else session k t)))
      ⊎ ((t' ≡ t)
          × (w.user_id ≡ user)
          × ((a : Answered) × (past_event token event t ≡ some a) × (a.correct ≡ true)))
unfolding answer
answer_accepted sha256 now token user text event t t' w h = elim (Option-cases (session token t)) [
  | inl e ↦ ground arith
  | inr (v, e) ↦ elim (Option-cases (past_event token event t)) [
    | inr (a, p) ↦ inr (
      ground (arith, eq_ℤ_iff v.user_id user),
      ground (arith, eq_ℤ_iff v.user_id user),
      (a, p, ground arith),
    )
    | inl p ↦
        let fresh : judge sha256 now event v text t ≡ (accepted w, t') = ground arith in
        let owner : v.user_id ≡ user = ground (arith, eq_ℤ_iff v.user_id user) in
        let same : v.token ≡ token =
          has_token_iff token v (find_where-holds (has_token token) t.sessions e) in
        let (passes, _, rows) = judge-accepted sha256 now event v text t t' fresh in
        let rows' : t'.sessions ≡ update_where (has_token token) complete t.sessions =
          rows ∙ ap (λ k. update_where (has_token k) complete t.sessions) same in
        inl (
          v,
          e,
          record {
            owner = owner;
            waiting = passes.waiting;
            in_time = passes.in_time;
            tries_left = passes.tries_left;
            right_answer = passes.right_answer ∙ ap (λ k. hash_answer sha256 k text) same;
          },
          λ k.
              ap (find_where (has_token k)) rows'
              ∙ session-update_known k token complete t.sessions v (λ x. refl) e,
        )
  ]
]

-- The wrong answers counted for a token.
abbrev pub tries : Option Verification → ℕ
tries none = 0
tries (some v) = v.attempts

-- No session collects more than three wrong answers.
pub tries-answer :
    (sha256 : String → String) (now : ℕ) (token : String) (user : ℤ) (text event : String)
    (t : Tables) (k : String)
    → tries (session k t) ≤ 3
    → tries (session k (answer sha256 now token user text event t).1) ≤ 3
unfolding answer
tries-answer sha256 now token user text event t k h = elim (Option-cases (session token t)) [
  | inl e ↦ ground arith
  | inr (v, e) ↦
      let same : v.token ≡ token =
        has_token_iff token v (find_where-holds (has_token token) t.sessions e) in
      let e' : find_where (has_token v.token) t.sessions ≡ some v =
        ap (λ j. find_where (has_token j) t.sessions) same ∙ e in
      ground (
        arith,
        session-update_known k v.token (wrong_answer now) t.sessions v
            (λ x. unfold wrong_answer in refl) e',
        session-update_known k v.token complete t.sessions v (λ x. refl) e',
      )
]
