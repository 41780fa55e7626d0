-- ===== src/Snooze/Tests.antt =====
-- The witnesses of the theorems on the snoozed threads.
use email_ops_community.Prelude.{true, false, some, none, [], ◌∷◌}
use email_ops_community.Prelude.Text.{txt}
use email_ops_community.Scheduling.{Context, composed}
use email_ops_community.Mailboxes.{MailboxAccount, shared}
use email_ops_community.Snooze.{
  SnoozedThread, active, State, Engine, moved, refused, SnoozeThreadInput, snooze_thread,
  surface_due_snoozes, due_snoozes,
}
use email_ops_community.Snooze.Moved.{Snoozed, snooze_thread-Snoozed}
use email_ops_community.Snooze.Wake.{AllWoken, surface_due_snoozes-AllWoken}
use email_ops_community.Snooze.Returned.{Round, surface_due_snoozes-Round}

abbrev mailbox : MailboxAccount
mailbox = record {
  id = txt "m";
  workspace_id = txt "w";
  email_address = txt "m@x.y";
  provider = txt "stalwart";
  active = true;
  display_name = none;
  is_default = true;
  postmark_lane = true;
  owner_kind = shared;
  owner_key = none;
}

abbrev cx : Context
cx = record {
  mailboxes = mailbox ∷ [];
  users = [];
  is_configured = true;
  handles = λ m. false;
  compose_email = λ calls c. composed;
}

abbrev willing : Engine
willing = λ asked m. moved

abbrev request : SnoozeThreadInput
request = record {
  workspace_id = txt "w";
  mailbox_id = txt "m";
  thread_id = txt "t";
  until = some 7;
  subject = none;
}

abbrev row : SnoozedThread
row = record {
  id = txt "z";
  workspace_id = txt "w";
  mailbox_id = txt "m";
  thread_id = txt "t";
  snooze_until = 7;
  subject = some (txt "hi");
  state = active;
  created_by = none;
}

abbrev start : State
start = record { threads = row ∷ []; moves = [] }

snooze_thread-Snoozed_example : Snoozed willing request start (
    snooze_thread cx willing
      (some (some (txt "hi") ∷ []))
      (txt "z2")
      (some (txt "u"))
      request
      start)
snooze_thread-Snoozed_example =
    snooze_thread-Snoozed cx willing (some (some (txt "hi") ∷ [])) (txt "z2") (some (txt "u"))
      request start

surface_due_snoozes-AllWoken_example :
    AllWoken start.threads (surface_due_snoozes cx willing 9 100 start).1.threads
surface_due_snoozes-AllWoken_example = surface_due_snoozes-AllWoken cx willing 9 100 start

-- The engine refuses its first move and makes the others.
abbrev wavering : Engine
wavering [] m = refused
wavering (c ∷ cs) m = moved

abbrev two_due : State
two_due = record {
  threads = row ∷ record row { id = txt "z9"; thread_id = txt "t9" } ∷ [];
  moves = [];
}

surface_due_snoozes-Round_example :
    Round wavering
      (due_snoozes 9 100 two_due.threads)
      two_due
      (surface_due_snoozes cx wavering 9 100 two_due).1
surface_due_snoozes-Round_example = surface_due_snoozes-Round cx wavering 9 100 two_due
