-- ===== src/Triage/Taught.antt =====
-- backend/src/mail-triage: a policy for an address, and the mail that comes from that address after it.
use email_ops_community.Prelude.{
  ℕ, true, false, ◌&&◌, Option, none, some, List, [], ◌∷◌, find, Bool-cases, ◌≡◌, refl, arith, inl,
  inr, ap,
}
use email_ops_community.Prelude.Text.{Text, txt, text_eq_refl, trim, to_lower_case}
use email_ops_community.Triage.{
  SenderPolicyScope, address_scope, domain_scope, SenderPolicyKind, allow, block,
  MessageDisposition, inbox, spam, SenderPolicy, ThreadDisposition, SetSenderPolicyInput, has_scope,
  same_scope, is_policy, matching, verdict_in, SpamLabel, clean_label, spam_label, evaluate, upsert,
  set, is_thread, normalize, for_domain, domain_of, first_kind, refiled, policy_of,
}
use email_ops_community.Triage.Written.{Found, upsert-Found, find-keep}
use mathlib.Core.Bool.{false≢true}
use email_ops_community.Triage.Classify.{
  Inbound, SpamPort, TriageStore, ClassifyResult, classify_inbound, by_policy, apply_disposition,
  stamp_known, stamp_score,
}

scopes_differ :
    (s : SenderPolicyScope) → same_scope s address_scope ≡ true → same_scope s domain_scope ≡ false
scopes_differ address_scope h = refl
scopes_differ domain_scope h = absurd (false≢true h)

for_domain-address :
    (w : Text) (d : Option Text) (r : SenderPolicy)
    → has_scope address_scope r ≡ true
    → for_domain w d r ≡ false
unfolding for_domain is_policy has_scope
for_domain-address w none r e = refl
for_domain-address w (some []) r e = refl
for_domain-address w (some (c ∷ s)) r e = ground (arith, scopes_differ r.scope e)

-- The address rows that match an address are the rows of its key.
is_policy-matching :
    (w a : Text) (r : SenderPolicy)
    → is_policy w address_scope a r ≡ (matching w a r && has_scope address_scope r)
unfolding matching is_policy
is_policy-matching w a r = elim (Bool-cases (has_scope address_scope r)) [
  | inl e ↦ ground (arith, e, for_domain-address w (domain_of a) r e)
  | inr e ↦ ground (arith, e)
]

-- What a policy of the kind says of received mail.
abbrev folder_of : SenderPolicyKind → MessageDisposition
folder_of allow = inbox
folder_of block = spam

unfoldable pub Rules : SenderPolicyKind → SenderPolicy → Type 0
Rules k r = r.kind ≡ k

unfoldable pub Filed : MessageDisposition → ThreadDisposition → Type 0
Filed d r = r.disposition ≡ d

kind_of_Found :
    (k : SenderPolicyKind) (r : Option SenderPolicy) (other : Option SenderPolicyKind)
    → Found (Rules k) r
    → first_kind r other ≡ some k
unfolding Found Rules
kind_of_Found k none other h = absurd h
kind_of_Found k (some r) other h = ap {B = Option SenderPolicyKind} some h

is_policy_refl :
    (w a : Text) (r : SenderPolicy)
    → r.workspace_id ≡ w
    → r.scope ≡ address_scope
    → r.pattern ≡ a
    → is_policy w address_scope a r ≡ true
unfolding is_policy has_scope
is_policy_refl w a r e f g = rw (e, f, g, text_eq_refl w, text_eq_refl a) refl

refiled-is_policy :
    (uc_uid : Option Text) (input : SetSenderPolicyInput) (w a : Text) (r : SenderPolicy)
    → is_policy w address_scope a r ≡ true
    → is_policy w address_scope a (refiled uc_uid input r) ≡ true
unfolding is_policy has_scope
refiled-is_policy uc_uid input w a r h = h

abbrev pub address_rule : SenderPolicyKind → Text → Option Text → Option Text → SetSenderPolicyInput
address_rule k raw reason agent_key = record {
  scope = address_scope;
  pattern = raw;
  kind = k;
  reason = reason;
  agent_key = agent_key;
}

-- A policy for an address is the one that its mail is judged by.
set-evaluate :
    (new_id w : Text) (uc_uid : Option Text) (c : ℕ) (raw : Text) (k : SenderPolicyKind)
    (reason agent_key : Option Text) (policies : List SenderPolicy)
    → evaluate
        (set new_id w uc_uid (address_rule k (c ∷ raw) reason agent_key) policies)
        w
        (some (c ∷ raw))
      ≡ some k
unfolding evaluate set normalize verdict_in Rules
set-evaluate new_id w uc_uid c raw k reason agent_key policies =
    let a = to_lower_case (trim (c ∷ raw)) in
    let input = address_rule k (c ∷ raw) reason agent_key in
    let new = policy_of new_id w uc_uid input a in
    let q = is_policy w address_scope a in
    let rows = upsert q (refiled uc_uid input) new policies in
    let found =
      upsert-Found (Rules k) q (refiled uc_uid input) new (refiled-is_policy uc_uid input w a)
        (λ r. refl) (is_policy_refl w a new refl refl refl) refl policies in
    let same = find-keep (has_scope address_scope) (matching w a) q (is_policy-matching w a) rows in
    rw same (kind_of_Found k (find q rows) _ found)

abbrev pub disposition_in : Option ThreadDisposition → Option MessageDisposition
disposition_in none = none
disposition_in (some r) = some (r.disposition)

Filed-in :
    (d : MessageDisposition) (r : Option ThreadDisposition)
    → Found (Filed d) r
    → disposition_in r ≡ some d
unfolding Found Filed
Filed-in d none h = absurd h
Filed-in d (some r) h = ap {B = Option MessageDisposition} some h

is_thread_refl :
    (w t : Text) (r : ThreadDisposition)
    → r.workspace_id ≡ w
    → r.thread_id ≡ t
    → is_thread w t r ≡ true
unfolding is_thread
is_thread_refl w t r e f = rw (e, f, text_eq_refl w, text_eq_refl t) refl

-- The overlay after a thread is filed: its first row has the folder.
abbrev pub disposition_at : Text → Text → List ThreadDisposition → Option MessageDisposition
disposition_at w thread_id rows = disposition_in (find (is_thread w thread_id) rows)

module _ (Score : Type 0) where
  apply_disposition-filed :
      (w thread_id : Text) (d : MessageDisposition) (v : SpamLabel) (s : TriageStore Score)
      → disposition_at w thread_id
          (apply_disposition Score w thread_id d none (some v) s).dispositions
        ≡ some d
  unfolding apply_disposition stamp_known stamp_score Filed
  apply_disposition-filed w thread_id d v s =
      let new : ThreadDisposition = record {
        workspace_id = w;
        thread_id = thread_id;
        disposition = d;
        set_by_uc_uid = none;
        set_by_agent_key = some (txt "spam-filter");
      } in
      Filed-in d (find (is_thread w thread_id) _) (
        upsert-Found (Filed d) (is_thread w thread_id) _ new (λ r h. h) (λ r. refl)
          (is_thread_refl w thread_id new refl refl) refl s.dispositions)

  -- Mail of the thread arrives from the address when the workspace has the policies.
  abbrev pub classify_taught :
      SpamPort Score
      → Text
      → List SenderPolicy
      → Text
      → Text
      → Option Text
      → Option Text
      → TriageStore Score
      → ClassifyResult Score × TriageStore Score
  classify_taught port w policies address thread_id subject body s =
      classify_inbound Score port w
        (record {
          thread_id = thread_id;
          from_address = some address;
          subject = subject;
          body = body;
        })
        (record s { policies = policies })

  by_policy-taught :
      (port : SpamPort Score) (w : Text) (k : SenderPolicyKind) (input : Inbound Score)
      (s : TriageStore Score)
      → let r = by_policy Score (some k) port w input s in
        (r.0.disposition ≡ folder_of k)
        × (disposition_at w input.thread_id r.1.dispositions ≡ some (folder_of k))
  unfolding by_policy
  by_policy-taught port w allow input s =
      (refl, apply_disposition-filed w input.thread_id inbox clean_label s)
  by_policy-taught port w block input s =
      (refl, apply_disposition-filed w input.thread_id spam spam_label s)

  -- A policy that blocks or allows an address is set, whatever policies the workspace has. Then mail
  -- from that address, as it was typed, is classified by the kind of the policy, whatever the spam
  -- engine says: it goes to spam if the kind is BLOCK and to the inbox if it is ALLOW, and the stored
  -- folder of its thread is the one that the result names.
  pub classify_inbound-taught :
      (port : SpamPort Score) (new_id w : Text) (uc_uid : Option Text) (c : ℕ) (raw : Text)
      (k : SenderPolicyKind) (reason agent_key subject body : Option Text) (thread_id : Text)
      (s : TriageStore Score)
      → let taught = set new_id w uc_uid (address_rule k (c ∷ raw) reason agent_key) s.policies in
        let r = classify_taught port w taught (c ∷ raw) thread_id subject body s in
        (r.0.disposition ≡ folder_of k)
        × (disposition_at w thread_id r.1.dispositions ≡ some (folder_of k))
  unfolding classify_inbound
  classify_inbound-taught port new_id w uc_uid c raw k reason agent_key subject body thread_id s =
      let input : Inbound Score = record {
        thread_id = thread_id;
        from_address = some (c ∷ raw);
        subject = subject;
        body = body;
      } in
      let taught = set new_id w uc_uid (address_rule k (c ∷ raw) reason agent_key) s.policies in
      rw (set-evaluate new_id w uc_uid c raw k reason agent_key s.policies)
        (by_policy-taught port w k input (record s { policies = taught }))
