-- ===== src/Autonomy/Split.antt =====
-- `splitRecipients` of backend/src/email/autonomy.ts against two filters, and the ROUTINE check.
use email_ops_community.Prelude.{
  ℕ, suc, ◌≤◌, ◌≡◌, refl, ◌↔◌, Bool, true, false, not, List, [], ◌∷◌, ◌++◌, map, arith, All, keep,
  take, length, ltb, keep-not-eq-nil,
}
use email_ops_community.Prelude.Text.{Text, has_text}
use email_ops_community.Autonomy.{
  AgentComposeContext, is_external_recipient, split_recipients, routine_reasons, because,
  first_contact, PolicyReason,
}

pub split_recipients-external :
    (rs ds : List Text) → (split_recipients rs ds).1 ≡ keep (λ r. is_external_recipient r ds) rs
unfolding split_recipients
split_recipients-external [] ds = refl
split_recipients-external (r ∷ rs) ds = ground (arith, split_recipients-external rs ds)

pub split_recipients-internal :
    (rs ds : List Text)
    → (split_recipients rs ds).0 ≡ keep (λ r. not (is_external_recipient r ds)) rs
unfolding split_recipients
split_recipients-internal [] ds = refl
split_recipients-internal (r ∷ rs) ds = ground (arith, split_recipients-internal rs ds)

because-nil : (b : Bool) (c m : Text) → (because b c m ≡ []) ↔ (b ≡ false)
because-nil b c m = ground arith

map-take-nil :
    (f : Text → PolicyReason) (n : ℕ) (xs : List Text) → (map f (take (suc n) xs) ≡ []) ↔ (xs ≡ [])
map-take-nil f n [] = ground arith
map-take-nil f n (x ∷ xs) = ground arith

append-nil_iff : (xs ys : List PolicyReason) → (xs ++ ys ≡ []) ↔ ((xs ≡ []) × (ys ≡ []))
append-nil_iff [] ys = ground arith
append-nil_iff (x ∷ xs) ys = ground arith

module _ (a b c d e f : List PolicyReason) where
  six-nil_iff :
      (a ++ b ++ c ++ d ++ e ++ f ≡ [])
      ↔ ((a ≡ []) × (b ≡ []) × (c ≡ []) × (d ≡ []) × (e ≡ []) × (f ≡ []))
  six-nil_iff = ground (
    arith,
    append-nil_iff (a ++ b ++ c ++ d ++ e) f,
    append-nil_iff (a ++ b ++ c ++ d) e,
    append-nil_iff (a ++ b ++ c) d,
    append-nil_iff (a ++ b) c,
    append-nil_iff a b,
  )

untrusted_summary : (xs : List Text) → xs ≡ [] → ltb 5 (length xs) ≡ false
untrusted_summary xs h = rw h refl

abbrev pub IsRoutine : AgentComposeContext → List Text → Type 0
IsRoutine ctx external =
    (ctx.autonomous_send_enabled ≡ true)
    × (ctx.is_in_thread_reply_to_inbound ≡ true)
    × (ctx.attachment_count ≡ 0)
    × (length external ≤ 5)
    × All (λ r. has_text ctx.trusted_addresses r ≡ true) external

pub routine_reasons-nil :
    (ctx : AgentComposeContext) (external : List Text)
    → (routine_reasons ctx external ≡ []) ↔ IsRoutine ctx external
unfolding routine_reasons
routine_reasons-nil ctx external =
    let trusted = λ (r : Text). has_text ctx.trusted_addresses r in
    let untrusted = keep (λ r. not (trusted r)) external in
    ground (
      arith,
      six-nil_iff _ _ _ _ _ _,
      because-nil _ _ _,
      map-take-nil first_contact 4 untrusted,
      untrusted_summary untrusted,
      keep-not-eq-nil trusted external,
    )
