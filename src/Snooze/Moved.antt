-- ===== src/Snooze/Moved.antt =====
-- What the table of the snoozed threads says of the mailboxes, in
-- backend/src/scheduling/scheduling.service.ts.
use email_ops_community.Prelude.{
  ◌≡◌, refl, inl, inr, Option, none, some, List, [], ◌∷◌, ◌++◌, Bool-cases, Option-cases,
}
use email_ops_community.Prelude.Text.{Text}
use email_ops_community.Scheduling.{Context, resolve_sovereign_mailbox_for_caller}
use email_ops_community.Mailboxes.{MailboxAccount}
use email_ops_community.Snooze.{
  active, SnoozedThread, archive, Move, Answer, moved, refused, thrown, State, Engine, Result,
  value, failed, SnoozeThreadInput, asked, after_archive, archive_move, new_row,
  resolve_snooze_subject, snooze_thread,
}

-- The engine has been asked once, to archive the thread, and has done it; the table has one row
-- more, an active one for the thread.
abbrev pub Archived : Engine → SnoozeThreadInput → SnoozedThread → State → State → Type 0
Archived engine input row s s' =
    (m : Move) × (s'.moves ≡ s.moves ++ m ∷ [])
    × (engine s.moves m ≡ moved)
    × (m.thread_id ≡ input.thread_id)
    × (m.folder ≡ archive)
    × (s'.threads ≡ s.threads ++ row ∷ [])
    × (row.thread_id ≡ input.thread_id)
    × (row.state ≡ active)

abbrev pub Snoozed :
    Engine → SnoozeThreadInput → State → Result (Option SnoozedThread) × State → Type 0
Snoozed engine input s (value (some row), s') = Archived engine input row s s'
Snoozed engine input s (value none, s') = s'.threads ≡ s.threads
Snoozed engine input s (failed, s') = s'.threads ≡ s.threads

after_archive-Snoozed :
    (engine : Engine) (input : SnoozeThreadInput) (mailbox : MailboxAccount) (row : SnoozedThread)
    (a : Answer) (s : State)
    → row.thread_id ≡ input.thread_id
    → row.state ≡ active
    → engine s.moves (archive_move mailbox input) ≡ a
    → Snoozed engine input s (after_archive a row (asked (archive_move mailbox input) s))
after_archive-Snoozed engine input mailbox row moved s t st e =
    (archive_move mailbox input, refl, e, refl, refl, refl, t, st)
after_archive-Snoozed engine input mailbox row refused s t st e = refl
after_archive-Snoozed engine input mailbox row thrown s t st e = refl

-- A snooze row and an archived thread come together: when a row is reported, the engine was asked
-- exactly once and has archived that thread, and the row is in the table; in every other case, a
-- throw of the engine included, the table is as it was.
pub snooze_thread-Snoozed :
    (cx : Context) (engine : Engine) (detail : Option (List (Option Text))) (new_id : Text)
    (uc_uid : Option Text) (input : SnoozeThreadInput) (s : State)
    → Snoozed engine input s (snooze_thread cx engine detail new_id uc_uid input s)
unfolding snooze_thread
snooze_thread-Snoozed cx engine detail new_id uc_uid input s = elim (Option-cases input.until) [
  | inl e ↦ rw (e, snooze_thread) refl
  | inr (until, e) ↦
      elim (Option-cases
        (resolve_sovereign_mailbox_for_caller cx input.workspace_id uc_uid input.mailbox_id)) [
          | inl f ↦ rw (e, f, snooze_thread) refl
          | inr (mailbox, f) ↦ elim (Bool-cases cx.is_configured) [
            | inl g ↦
                rw (e, f, g, snooze_thread)
                  (after_archive-Snoozed engine input mailbox
                    (new_row new_id uc_uid input until
                      (resolve_snooze_subject input.subject detail))
                    (engine s.moves (archive_move mailbox input)) s refl refl refl)
            | inr g ↦ rw (e, f, g, snooze_thread) refl
          ]
        ]
]
