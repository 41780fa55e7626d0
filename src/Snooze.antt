-- ===== src/Snooze.antt =====
-- backend/src/scheduling/scheduling.service.ts: snoozed threads. A thread leaves the inbox when it is
-- snoozed and comes back when its time is due or the snooze is taken back.
pub mod Moved
pub mod Wake
pub mod Returned
mod Tests
use email_ops_community.Prelude.{
  ℕ, suc, leb, ◌==◌, Bool, true, false, not, ◌&&◌, Option, none, some, List, [], ◌∷◌, ◌++◌, find,
  keep, take, length, if◌then◌else◌,
}
use mathlib.Core.List.{reverse}
use email_ops_community.Prelude.Text.{Text, txt, text_eq, trim, is_empty}
use email_ops_community.Scheduling.{Context, resolve_sovereign_mailbox_for_caller}
use email_ops_community.Mailboxes.{MailboxAccount}

pub data SnoozedThreadState : Type 0 where
  active surfaced cancelled : SnoozedThreadState

pub record SnoozedThread : Type 0 where
  pub id : Text
  pub workspace_id : Text
  pub mailbox_id : Text
  pub thread_id : Text
  pub snooze_until : ℕ
  pub subject : Option Text
  pub state : SnoozedThreadState
  pub created_by : Option Text

pub data Folder : Type 0 where
  archive inbox : Folder

-- A call of `moveThreadToFolder`.
pub record Move : Type 0 where
  pub mailbox_email : Text
  pub thread_id : Text
  pub folder : Folder

-- The engine moves the thread, refuses, or throws; it may look at what it was asked before.
pub data Answer : Type 0 where
  moved refused thrown : Answer

-- The table, and the calls of the engine so far, oldest first.
pub record State : Type 0 where
  pub threads : List SnoozedThread
  pub moves : List Move

abbrev pub Engine : Type 0
Engine = List Move → Move → Answer

-- What a handler returns: a value, or the exception of the engine.
pub data Result (A : Type 0) : Type 0 where
  value : A → Result A
  failed : Result A

abbrev pub is_active : SnoozedThreadState → Bool
is_active active = true
is_active _ = false

abbrev pub asked : Move → State → State
asked m s = record s { moves = s.moves ++ m ∷ [] }

abbrev first_with_ink : List (Option Text) → Option Text
first_with_ink [] = none
first_with_ink (none ∷ subjects) = first_with_ink subjects
first_with_ink (some s ∷ subjects) =
    let rest = first_with_ink subjects in
    if is_empty (trim s) then rest else some (take 300 (trim s))

abbrev text_or_empty : Option Text → Text
text_or_empty none = []
text_or_empty (some s) = s

-- `resolveSnoozeSubject`; `detail` has the subjects of the thread's messages, oldest first, and is
-- none where the engine throws.
unfoldable pub resolve_snooze_subject : Option Text → Option (List (Option Text)) → Option Text
resolve_snooze_subject given detail =
    let provided = trim (text_or_empty given) in
    if not (is_empty provided)
    then some (take 300 provided)
    else elim detail [ none ↦ none | some subjects ↦ first_with_ink (reverse subjects) ]

pub record SnoozeThreadInput : Type 0 where
  pub workspace_id : Text
  pub mailbox_id : Text
  pub thread_id : Text
  pub until : Option ℕ
  pub subject : Option Text

abbrev pub new_row : Text → Option Text → SnoozeThreadInput → ℕ → Option Text → SnoozedThread
new_row new_id uc_uid input until subject = record {
  id = new_id;
  workspace_id = input.workspace_id;
  mailbox_id = input.mailbox_id;
  thread_id = input.thread_id;
  snooze_until = until;
  subject = subject;
  state = active;
  created_by = uc_uid;
}

abbrev pub archive_move : MailboxAccount → SnoozeThreadInput → Move
archive_move mailbox input = record {
  mailbox_email = mailbox.email_address;
  thread_id = input.thread_id;
  folder = archive;
}

-- The last statements of `snoozeThread`, with the answer of the engine.
abbrev pub after_archive : Answer → SnoozedThread → State → Result (Option SnoozedThread) × State
after_archive moved row s = (value (some row), record s { threads = s.threads ++ row ∷ [] })
after_archive refused row s = (value none, s)
after_archive thrown row s = (failed, s)

-- `snoozeThread`; the time is none where it is not finite, the new row's id is the database's.
unfoldable pub snooze_thread :
    Context
    → Engine
    → Option (List (Option Text))
    → Text
    → Option Text
    → SnoozeThreadInput
    → State
    → Result (Option SnoozedThread) × State
snooze_thread cx engine detail new_id uc_uid input s = elim input.until [
  | none ↦ (value none, s)
  | some until ↦
      elim (resolve_sovereign_mailbox_for_caller cx input.workspace_id uc_uid input.mailbox_id) [
        | none ↦ (value none, s)
        | some mailbox ↦
            if cx.is_configured
            then after_archive (engine s.moves (archive_move mailbox input))
                (new_row new_id uc_uid input until (resolve_snooze_subject input.subject detail))
                (asked (archive_move mailbox input) s)
            else (value none, s)
      ]
]

unfoldable pub set_state :
    (SnoozedThread → Bool) → SnoozedThreadState → List SnoozedThread → List SnoozedThread
set_state condition st [] = []
set_state condition st (r ∷ rows) =
    (if condition r then record r { state = st } else r) ∷ set_state condition st rows

-- The end of `unsnooze`: the update asks for the id only.
abbrev after_restore : Answer → Text → State → Result Bool × State
after_restore moved id s =
    (value true, record s { threads = set_state (λ r. text_eq r.id id) cancelled s.threads })
after_restore refused id s = (value false, s)
after_restore thrown id s = (failed, s)

abbrev pub restore_move : MailboxAccount → SnoozedThread → Move
restore_move mailbox row = record {
  mailbox_email = mailbox.email_address;
  thread_id = row.thread_id;
  folder = inbox;
}

unfoldable pub unsnooze : Context → Engine → Option Text → Text → Text → State → Result Bool × State
unsnooze cx engine uc_uid workspace_id id s =
    elim (find (λ r. text_eq r.id id && text_eq r.workspace_id workspace_id && is_active r.state)
      s.threads) [
        | none ↦ (value false, s)
        | some row ↦
            elim (resolve_sovereign_mailbox_for_caller cx workspace_id uc_uid row.mailbox_id) [
              | none ↦ (value false, s)
              | some mailbox ↦
                  if cx.is_configured
                  then after_restore (engine s.moves (restore_move mailbox row)) id
                      (asked (restore_move mailbox row) s)
                  else (value false, s)
            ]
      ]

-- The body of the loop of `surfaceDueSnoozes`, on a row as it was read: whether it counts.
abbrev pub wakes : Text → SnoozedThread → Bool
wakes id r = text_eq r.id id && is_active r.state

abbrev pub after_wake : Answer → Text → State → Bool × State
after_wake moved id s = (
  length (keep (wakes id) s.threads) == 1,
  record s { threads = set_state (wakes id) surfaced s.threads },
)
after_wake _ id s = (false, s)

unfoldable pub surface_row : Context → Engine → SnoozedThread → State → Bool × State
surface_row cx engine row s =
    elim (find
      (λ m.
        text_eq m.id row.mailbox_id
        && text_eq m.workspace_id row.workspace_id
        && text_eq m.provider (txt "stalwart")
        && m.active)
      cx.mailboxes) [
        | none ↦ (false, s)
        | some mailbox ↦
            if cx.is_configured
            then after_wake (engine s.moves (restore_move mailbox row)) row.id
                (asked (restore_move mailbox row) s)
            else (false, s)
      ]

-- The rows that the sweep reads, earliest first.
unfoldable insert_by_until : SnoozedThread → List SnoozedThread → List SnoozedThread
insert_by_until r [] = r ∷ []
insert_by_until r (q ∷ rows) =
    let rest = insert_by_until r rows in
    if leb r.snooze_until q.snooze_until then r ∷ q ∷ rows else q ∷ rest

unfoldable order_by_until : List SnoozedThread → List SnoozedThread
unfolding insert_by_until
order_by_until [] = []
order_by_until (r ∷ rows) = insert_by_until r (order_by_until rows)

unfoldable pub due_snoozes : ℕ → ℕ → List SnoozedThread → List SnoozedThread
unfolding order_by_until
due_snoozes now limit rows =
    take limit (order_by_until (keep (λ r. is_active r.state && leb r.snooze_until now) rows))

abbrev add_surfaced : Bool → ℕ → ℕ
add_surfaced true n = suc n
add_surfaced false n = n

unfoldable pub surface_rows : Context → Engine → List SnoozedThread → State → ℕ × State
unfolding surface_row
surface_rows cx engine [] s = (0, s)
surface_rows cx engine (row ∷ rows) s =
    let (counted, s') = surface_row cx engine row s in
    let (n, final) = surface_rows cx engine rows s' in (add_surfaced counted n, final)

unfoldable pub surface_due_snoozes : Context → Engine → ℕ → ℕ → State → ℕ × State
unfolding due_snoozes surface_rows
surface_due_snoozes cx engine now limit s =
    surface_rows cx engine (due_snoozes now limit s.threads) s
