-- ===== src/MailRules/Checks.antt =====
-- What the checks of backend/src/mail-rules/mail-rules.service.ts before a write let through.
use email_ops_community.Prelude.{ℕ, ◌+◌, ◌≤◌, ◌≡◌, refl, Option, none, some, length, arith}
use mathlib.Core.Path.{subst}
use email_ops_community.Prelude.Int.{ℤ, pos, negsuc, ◌≤ℤ◌}
use email_ops_community.Prelude.Text.{Text}
use email_ops_community.Json.{Json}
use email_ops_community.MailRules.{MailRuleRow}
use email_ops_community.MailRules.Write.{
  Checked, passed, refused, priority_max, normalize_name, normalize_priority, compile_match,
  compile_actions, count_conditions,
}
use email_ops_community.MailRules.Shape.{compile_match-bounds}
use email_ops_community.MailRules.Table.{
  CreateMailRuleInput, UpdateMailRuleInput, Accepted, accept, Patch, accept_patch, and_then,
  check_opt,
}

abbrev pub IsName : Text → Type 0
IsName name = (1 ≤ length name) × (length name ≤ 120)

abbrev pub IsUpTo : ℕ → ℤ → Type 0
IsUpTo limit p = (pos 0 ≤ℤ p) × (p ≤ℤ pos limit)

abbrev pub IsMatch : Json → Type 0
IsMatch match = (1 ≤ count_conditions match) × (count_conditions match ≤ 60)

-- A row within the caps; the priority may be past the largest that is accepted, by `over`.
abbrev pub IsWithin : ℕ → MailRuleRow → Type 0
IsWithin over r = IsName r.name × IsUpTo (priority_max + over) r.priority × IsMatch r.match

-- What passes has the property.
pub OnPassed : {A : Type 0} → (A → Type 0) → Checked A → Type 0
OnPassed Q (passed a) = Q a
OnPassed Q (refused why) = Unit

OnPassed-and_then :
    {A B : Type 0} (Q : B → Type 0) (c : Checked A) (f : A → Checked B)
    → ((a : A) → c ≡ passed a → OnPassed Q (f a))
    → OnPassed Q (and_then c f)
unfolding OnPassed
OnPassed-and_then Q (passed a) f h = h a refl
OnPassed-and_then Q (refused why) f h = tt

OnPassed-of :
    {A : Type 0} {Q : A → Type 0} (c : Checked A) → ((a : A) → c ≡ passed a → Q a) → OnPassed Q c
unfolding OnPassed
OnPassed-of (passed a) h = h a refl
OnPassed-of (refused why) h = tt

pub OnPassed-at :
    {A : Type 0} (Q : A → Type 0) (c : Checked A) (a : A) → OnPassed Q c → c ≡ passed a → Q a
unfolding OnPassed
OnPassed-at Q c a h e = subst (λ x. OnPassed Q x) e h

-- A value that is absent has every property.
unfoldable pub IfThere : {A : Type 0} → (A → Type 0) → Option A → Type 0
IfThere P none = Unit
IfThere P (some a) = P a

OnPassed-check_opt :
    {A B : Type 0} (P : B → Type 0) (f : A → Checked B) (o : Option A)
    → ((a : A) → OnPassed P (f a))
    → OnPassed (IfThere P) (check_opt f o)
unfolding OnPassed IfThere
OnPassed-check_opt P f none there = tt
OnPassed-check_opt P f (some a) there =
    OnPassed-and_then (IfThere P) (f a) (λ b. passed (some b))
      (λ b e. OnPassed-at P (f a) b (there a) e)

normalize_name-IsName : (raw : Text) → OnPassed IsName (normalize_name raw)
unfolding normalize_name OnPassed
normalize_name-IsName raw = ground arith

normalize_priority-IsUpTo : (raw : ℤ) → OnPassed (IsUpTo priority_max) (normalize_priority raw)
unfolding normalize_priority OnPassed
normalize_priority-IsUpTo (pos n) = ground arith
normalize_priority-IsUpTo (negsuc n) = ground arith

compile_match-IsMatch : (raw : Json) → OnPassed IsMatch (compile_match raw)
compile_match-IsMatch raw =
    OnPassed-of (compile_match raw)
      (λ node e. let b = compile_match-bounds raw node e in (b.0, b.1))

abbrev pub IsAccepted : Accepted → Type 0
IsAccepted a = IsName a.name × IfThere (IsUpTo priority_max) a.priority × IsMatch a.match

abbrev pub IsPatch : Patch → Type 0
IsPatch p =
    IfThere IsName p.name × IfThere (IsUpTo priority_max) p.priority × IfThere IsMatch p.match

checked_opt :
    {A B : Type 0} (P : B → Type 0) (f : A → Checked B) (o : Option A) (r : Option B)
    → ((a : A) → OnPassed P (f a))
    → check_opt f o ≡ passed r
    → IfThere P r
checked_opt P f o r there e =
    OnPassed-at (IfThere P) (check_opt f o) r (OnPassed-check_opt P f o there) e

pub accept-IsAccepted : (input : CreateMailRuleInput) → OnPassed IsAccepted (accept input)
unfolding accept OnPassed
accept-IsAccepted input = OnPassed-and_then IsAccepted (normalize_name input.name) _ (λ name n.
    OnPassed-and_then IsAccepted (compile_match input.match) _ (λ match m.
      OnPassed-and_then IsAccepted (compile_actions input.actions) _ (λ actions _.
        OnPassed-and_then IsAccepted (check_opt normalize_priority input.priority) _ (λ priority p.
          (
            OnPassed-at IsName (normalize_name input.name) name (normalize_name-IsName input.name)
                n,
            checked_opt (IsUpTo priority_max) normalize_priority input.priority priority
                normalize_priority-IsUpTo p,
            OnPassed-at IsMatch (compile_match input.match) match
                (compile_match-IsMatch input.match) m,
          )))))

pub accept_patch-IsPatch : (input : UpdateMailRuleInput) → OnPassed IsPatch (accept_patch input)
unfolding accept_patch OnPassed
accept_patch-IsPatch input =
    OnPassed-and_then IsPatch (check_opt normalize_name input.name) _ (λ name n.
      OnPassed-and_then IsPatch (check_opt normalize_priority input.priority) _ (λ priority p.
        OnPassed-and_then IsPatch (check_opt compile_match input.match) _ (λ match m.
          OnPassed-and_then IsPatch (check_opt compile_actions input.actions) _ (λ actions _. (
            checked_opt IsName normalize_name input.name name normalize_name-IsName n,
            checked_opt (IsUpTo priority_max) normalize_priority input.priority priority
                normalize_priority-IsUpTo p,
            checked_opt IsMatch compile_match input.match match compile_match-IsMatch m,
          )))))
