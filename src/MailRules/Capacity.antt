-- ===== src/MailRules/Capacity.antt =====
-- What every run of `create`, `update` and `remove` of
-- backend/src/mail-rules/mail-rules.service.ts keeps true of the table.
use email_ops_community.Prelude.{
  ℕ, ◌+◌, ◌*◌, ◌≤◌, leb, ◌≡◌, refl, sym, inl, inr, true, false, not, Option, none, some, List, [],
  ◌∷◌, ◌++◌, keep, find, length, All-weaken, All-last, All-kept, keep-last, keep-keep-le, arith,
  All, Bool-cases, Option-cases, if_both,
}
use mathlib.Core.Path.{subst}
use email_ops_community.Prelude.Int.{ℤ, pos, negsuc, leb_ℤ}
use email_ops_community.Prelude.Text.{Text, text_eq, text_eq_iff}
use email_ops_community.Mailboxes.{MailboxAccount}
use email_ops_community.MailRules.{MailRuleRow}
use email_ops_community.MailRules.Write.{Checked, passed, refused, priority_max}
use email_ops_community.MailRules.Table.{
  Accepted, accept, Patch, accept_patch, patched, is_of, is_rule, max_priority, or_old, Write,
  creating, updating, removing, perform, perform_all, new_row, plus_step, or_next, next_priority,
  mailbox_fault, insert_row, create_accepted, create, update_rows, update_accepted, write_patch,
  update, remove,
}
use email_ops_community.MailRules.Checks.{
  IsName, IsUpTo, IsMatch, IsWithin, OnPassed, OnPassed-at, IfThere, IsAccepted, accept-IsAccepted,
  IsPatch, accept_patch-IsPatch,
}

-- Every row is within the caps, and no mailbox has more than a hundred.
pub record IsCapped (over : ℕ) (rows : List MailRuleRow) : Type 0 where
  pub within : All (IsWithin over) rows
  pub few : (w m : Text) → length (keep (is_of w m) rows) ≤ 100

-- The priorities.
IsUpTo-later : (n over : ℕ) (p : ℤ) → IsUpTo n p → IsUpTo (n + over) p
IsUpTo-later n over p h = ground (arith, h)

IsWithin-later : (over : ℕ) (r : MailRuleRow) → IsWithin over r → IsWithin (over + 10) r
IsWithin-later over r h = (h.0, ground (arith, h.1), h.2)

max_priority-IsUpTo :
    (limit : ℕ) (rows : List MailRuleRow)
    → All (λ r. IsUpTo limit r.priority) rows
    → IfThere (IsUpTo limit) (max_priority rows)
unfolding IfThere max_priority
max_priority-IsUpTo limit [] h = unfold max_priority in tt
max_priority-IsUpTo limit (r ∷ rows) h = elim (Option-cases (max_priority rows)) [
  | inl e ↦ rw (max_priority, e) h.0
  | inr (p, e) ↦
      let largest : IsUpTo limit p =
        subst (λ o. IfThere (IsUpTo limit) o) e (max_priority-IsUpTo limit rows h.1) in
      rw (max_priority, e) (if_both (IsUpTo limit) (leb_ℤ r.priority p) p r.priority largest h.0)
]

plus_step-IsUpTo : (limit : ℕ) (p : ℤ) → IsUpTo limit p → IsUpTo (limit + 10) (plus_step p)
plus_step-IsUpTo limit (pos n) h = ground (arith, h)
plus_step-IsUpTo limit (negsuc n) h = ground (arith, h)

next_priority-IsUpTo :
    (limit : ℕ) (rows : List MailRuleRow)
    → All (λ r. IsUpTo limit r.priority) rows
    → IsUpTo (limit + 10) (next_priority rows)
unfolding IfThere
next_priority-IsUpTo limit rows h = elim (Option-cases (max_priority rows)) [
  | inl e ↦ rw e (ground arith)
  | inr (p, e) ↦
      let largest : IsUpTo limit p =
        subst (λ o. IfThere (IsUpTo limit) o) e (max_priority-IsUpTo limit rows h) in
      rw e (plus_step-IsUpTo limit p largest)
]

or_next-IsUpTo :
    (over : ℕ) (o : Option ℤ) (rows : List MailRuleRow)
    → IfThere (IsUpTo priority_max) o
    → All (λ r. IsUpTo (priority_max + over) r.priority) rows
    → IsUpTo (priority_max + (over + 10)) (or_next o rows)
unfolding IfThere
or_next-IsUpTo over none rows h rs =
    ground (arith, next_priority-IsUpTo (priority_max + over) rows rs)
or_next-IsUpTo over (some p) rows h rs = ground (arith, h)

IsCapped-later :
    (over : ℕ) (rows : List MailRuleRow) → IsCapped over rows → IsCapped (over + 10) rows
IsCapped-later over rows h = record {
  within = All-weaken (IsWithin over) (IsWithin (over + 10)) (IsWithin-later over) rows h.within;
  few = h.few;
}

is_of-true :
    (w m : Text) (r : MailRuleRow) → is_of w m r ≡ true → (r.workspace_id ≡ w) × (r.mailbox_id ≡ m)
is_of-true w m r h = (
  (text_eq_iff r.workspace_id w).0 (ground (arith, h)),
  (text_eq_iff r.mailbox_id m).0 (ground (arith, h)),
)

-- One more row of a mailbox that has room.
few-last :
    (rows : List MailRuleRow) (r : MailRuleRow)
    → leb 100 (length (keep (is_of r.workspace_id r.mailbox_id) rows)) ≡ false
    → ((w m : Text) → length (keep (is_of w m) rows) ≤ 100)
    → (w m : Text) → length (keep (is_of w m) (rows ++ r ∷ [])) ≤ 100
few-last rows r room few w m = elim (Bool-cases (is_of w m r)) [
  | inl e ↦
      let (ew, em) = is_of-true w m r e in
      let room' : leb 100 (length (keep (is_of w m) rows)) ≡ false = rw (sym ew, sym em) room in
      rw (keep-last (is_of w m) rows r, e) (ground (arith, room'))
  | inr e ↦ rw (keep-last (is_of w m) rows r, e) (ground (arith, few w m))
]

new_row-IsWithin :
    (over : ℕ) (id w m : Text) (a : Accepted) (own : List MailRuleRow)
    → IsAccepted a
    → All (IsWithin over) own
    → IsWithin (over + 10) (new_row id w m a (or_next a.priority own))
new_row-IsWithin over id w m a own h within = (
  h.0,
  or_next-IsUpTo over a.priority own h.1 (
      All-weaken (IsWithin over) (λ r. IsUpTo (priority_max + over) r.priority) (λ r x. x.1) own
        within),
  h.2,
)

insert_row-IsCapped :
    (over : ℕ) (id w m : Text) (a : Accepted) (rows : List MailRuleRow)
    → IsAccepted a
    → IsCapped over rows
    → IsCapped (over + 10) (insert_row id w m a rows).1
insert_row-IsCapped over id w m a rows ok h =
    let own = keep (is_of w m) rows in
    elim (Bool-cases (leb 100 (length own))) [
      | inl e ↦ rw e (IsCapped-later over rows h)
      | inr e ↦
          let r = new_row id w m a (or_next a.priority own) in
          let later = IsCapped-later over rows h in
          let kept = All-kept (IsWithin over) (is_of w m) rows h.within in
          rw e (record {
            within =
                All-last (IsWithin (over + 10)) rows r later.within
                  (new_row-IsWithin over id w m a own ok kept);
            few = few-last rows r e h.few;
          })
    ]

create-IsCapped :
    (over : ℕ) (mailboxes : List MailboxAccount) (id w : Text) (u : Option Text) (m : Text)
    (c : Checked Accepted) (rows : List MailRuleRow)
    → OnPassed IsAccepted c
    → IsCapped over rows
    → IsCapped (over + 10) (create_accepted mailboxes id w u m c rows).1
create-IsCapped over mailboxes id w u m (refused why) rows ok h = IsCapped-later over rows h
create-IsCapped over mailboxes id w u m (passed a) rows ok h =
    elim (Option-cases (mailbox_fault mailboxes w u m true)) [
      | inl e ↦
          rw (create_accepted, e)
            (insert_row-IsCapped over id w m a rows (OnPassed-at IsAccepted (passed a) a ok refl) h)
      | inr (why, e) ↦ rw (create_accepted, e) (IsCapped-later over rows h)
    ]

IfThere-later :
    (over : ℕ) (o : Option ℤ)
    → IfThere (IsUpTo priority_max) o
    → IfThere (IsUpTo (priority_max + over)) o
unfolding IfThere
IfThere-later over none h = tt
IfThere-later over (some p) h = ground (arith, h)

or_old-has :
    {A : Type 0} (P : A → Type 0) (o : Option A) (a : A) → IfThere P o → P a → P (or_old o a)
unfolding IfThere
or_old-has P none a h pa = pa
or_old-has P (some b) a h pa = h

patched-IsWithin :
    (over : ℕ) (p : Patch) (r : MailRuleRow)
    → IsPatch p
    → IsWithin over r
    → IsWithin over (patched p r)
patched-IsWithin over p r ok h =
    let upto =
      or_old-has (IsUpTo (priority_max + over)) p.priority r.priority
        (IfThere-later over p.priority ok.1) h.1 in
    (or_old-has IsName p.name r.name ok.0 h.0, upto, or_old-has IsMatch p.match r.match ok.2 h.2)

update_rows-All :
    (over : ℕ) (id : Text) (p : Patch) (rows : List MailRuleRow)
    → IsPatch p
    → All (IsWithin over) rows
    → All (IsWithin over) (update_rows id p rows)
unfolding update_rows
update_rows-All over id p [] ok h = tt
update_rows-All over id p (r ∷ rows) ok h = (
  if_both (IsWithin over) (text_eq r.id id) (patched p r) r (patched-IsWithin over p r ok h.0) h.0,
  update_rows-All over id p rows ok h.1,
)

update_rows-few :
    (w m id : Text) (p : Patch) (rows : List MailRuleRow)
    → length (keep (is_of w m) (update_rows id p rows)) ≡ length (keep (is_of w m) rows)
unfolding update_rows
update_rows-few w m id p [] = refl
update_rows-few w m id p (r ∷ rows) = ground (arith, update_rows-few w m id p rows)

write_patch-IsCapped :
    (over : ℕ) (w m id : Text) (p : Patch) (rows : List MailRuleRow)
    → IsPatch p
    → IsCapped over rows
    → IsCapped over (write_patch w m id p rows).1
write_patch-IsCapped over w m id p rows ok h = elim (Option-cases (find (is_rule w m id) rows)) [
  | inl e ↦ rw (write_patch, e) h
  | inr (r, e) ↦
      rw (write_patch, e)
        (record {
          within = update_rows-All over id p rows ok h.within;
          few = λ w' m'. rw (update_rows-few w' m' id p rows) (h.few w' m');
        })
]

update-IsCapped :
    (over : ℕ) (mailboxes : List MailboxAccount) (w : Text) (u : Option Text) (m id : Text)
    (c : Checked Patch) (rows : List MailRuleRow)
    → OnPassed IsPatch c
    → IsCapped over rows
    → IsCapped over (update_accepted mailboxes w u m id c rows).1
update-IsCapped over mailboxes w u m id (refused why) rows ok h = h
update-IsCapped over mailboxes w u m id (passed p) rows ok h =
    elim (Option-cases (mailbox_fault mailboxes w u m false)) [
      | inl e ↦
          rw (update_accepted, e)
            (write_patch-IsCapped over w m id p rows (OnPassed-at IsPatch (passed p) p ok refl) h)
      | inr (why, e) ↦ rw (update_accepted, e) h
    ]

remove-IsCapped :
    (over : ℕ) (mailboxes : List MailboxAccount) (w : Text) (u : Option Text) (m id : Text)
    (rows : List MailRuleRow)
    → IsCapped over rows
    → IsCapped over (remove mailboxes w u m id rows).1
unfolding remove
remove-IsCapped over mailboxes w u m id rows h =
    elim (Option-cases (mailbox_fault mailboxes w u m false)) [
      | inl e ↦
          rw (remove, e)
            (record {
              within = All-kept (IsWithin over) (λ r. not (is_rule w m id r)) rows h.within;
              few = λ w' m'. ground (
                arith,
                keep-keep-le (is_of w' m') (λ r. not (is_rule w m id r)) rows,
                h.few w' m',
              );
            })
      | inr (why, e) ↦ rw (remove, e) h
    ]

perform-IsCapped :
    (over : ℕ) (mailboxes : List MailboxAccount) (x : Write) (rows : List MailRuleRow)
    → IsCapped over rows
    → IsCapped (over + 10) (perform mailboxes x rows)
unfolding perform create update
perform-IsCapped over mailboxes (creating id w u m input) rows h =
    create-IsCapped over mailboxes id w u m (accept input) rows (accept-IsAccepted input) h
perform-IsCapped over mailboxes (updating w u m id input) rows h = IsCapped-later over _ (
    update-IsCapped over mailboxes w u m id (accept_patch input) rows (accept_patch-IsPatch input)
      h)
perform-IsCapped over mailboxes (removing w u m id) rows h =
    IsCapped-later over _ (remove-IsCapped over mailboxes w u m id rows h)

-- After any creates, updates and removes, whoever asks for them and whatever they hold: no mailbox
-- has more than a hundred rules, and every rule has a name of 1 to 120 characters, a match of 1 to
-- 60 conditions and a priority from 0 to the largest accepted one plus ten for each request, beside
-- what the table had before.
pub perform_all-IsCapped :
    (mailboxes : List MailboxAccount) (writes : List Write) (over : ℕ) (rows : List MailRuleRow)
    → IsCapped over rows
    → IsCapped (over + 10 * length writes) (perform_all mailboxes writes rows)
unfolding perform_all
perform_all-IsCapped mailboxes [] over rows h = subst (λ n. IsCapped n rows) (omega arith) h
perform_all-IsCapped mailboxes (x ∷ xs) over rows h =
    subst (λ n. IsCapped n (perform_all mailboxes xs (perform mailboxes x rows))) (omega arith)
      (perform_all-IsCapped mailboxes xs (over + 10) (perform mailboxes x rows)
        (perform-IsCapped over mailboxes x rows h))
