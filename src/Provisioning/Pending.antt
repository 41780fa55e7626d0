-- ===== src/Provisioning/Pending.antt =====
-- Which requests stay pending under the writes of
-- backend/src/provisioning/provisioning-requests.service.ts.
use email_ops_community.Prelude.{
  ◌==◌, ◌≡◌, refl, sym, ◌∙◌, inl, inr, Bool, true, false, not, ◌||◌, Option, none, some, List, [],
  ◌∷◌, any, keep, find, length, arith, Bool-cases, if_both, and-eq-true, if◌then◌else◌,
}
use email_ops_community.Prelude.Text.{Text, text_eq, text_eq_iff}
use email_ops_community.Provisioning.{ProvisioningPolicyShape}
use email_ops_community.Provisioning.Requests.{
  rejected, ProvisioningRequest, Services, Store, is_request, is_pending, claimable, update_where,
  replay, Replayed, ended, broke,
}
use email_ops_community.Provisioning.Review.{
  Reviewer, Claimed, reviewed, Rejection, noted, audit_rejection, claim, assert_approver, stamp,
  finish_approval, reject,
}

pub or-eq-false : (a b : Bool) → (a || b) ≡ false → (a ≡ false) × (b ≡ false)
or-eq-false a b h = ground (arith, h)

-- A write that leaves no row pending that was not.
pub any-update_where :
    (w id : Text) (p : ProvisioningRequest → Bool)
    (change : ProvisioningRequest → ProvisioningRequest) (rows : List ProvisioningRequest)
    → ((r : ProvisioningRequest) → is_pending (change r).state ≡ false)
    → any (claimable w id) rows ≡ false
    → any (claimable w id) (update_where p change rows) ≡ false
unfolding update_where
any-update_where w id p change [] over h = refl
any-update_where w id p change (r ∷ rows) over h =
    let (now, later) = or-eq-false (claimable w id r) (any (claimable w id) rows) h in
    let rest = any-update_where w id p change rows over later in
    let head : claimable w id (if p r then change r else r) ≡ false = elim (Bool-cases (p r)) [
      | inl e ↦ rw e (ground (arith, over r))
      | inr e ↦ rw e now
    ] in
    rw (head, rest) refl

-- After the conditional write of its key, no row of the key is pending.
pub any-claimed :
    (w id : Text) (change : ProvisioningRequest → ProvisioningRequest)
    (rows : List ProvisioningRequest)
    → ((r : ProvisioningRequest) → is_pending (change r).state ≡ false)
    → any (claimable w id) (update_where (claimable w id) change rows) ≡ false
unfolding update_where
any-claimed w id change [] over = refl
any-claimed w id change (r ∷ rows) over =
    let rest = any-claimed w id change rows over in
    elim (Bool-cases (claimable w id r)) [
      | inl e ↦ rw (e, rest) (ground (arith, over r))
      | inr e ↦ rw (e, rest) (ground (arith, e))
    ]

pub any-keep :
    (p : ProvisioningRequest → Bool) (rows : List ProvisioningRequest)
    → (length (keep p rows) == 0) ≡ false
    → any p rows ≡ true
any-keep p [] h = ground (arith, h)
any-keep p (r ∷ rows) h = ground (arith, h, any-keep p rows)

pub stamp-over :
    (by : Reviewer) (o : Replayed) (r : ProvisioningRequest)
    → is_pending (stamp by o r).state ≡ false
stamp-over by (ended ref) r = refl
stamp-over by (broke why) r = ground arith

pub finish_approval-any :
    (services : Services) (c : Claimed) (s : Store) (w id : Text)
    → any (claimable w id) s.requests ≡ false
    → any (claimable w id) (finish_approval services c s).requests ≡ false
unfolding finish_approval
finish_approval-any services c s w id h =
    any-update_where w id (λ r. text_eq r.id c.request.id) _ s.requests
      (stamp-over c.reviewer
        (replay services c.reviewer.workspace_id c.reviewer.uc_uid c.request s.calls).0)
      h

-- A claim leaves the other rows, and none of its own key, pending.
pub claim-any :
    (change : ProvisioningRequest → ProvisioningRequest) (by : Reviewer) (key w id : Text)
    (s : Store)
    → ((r : ProvisioningRequest) → is_pending (change r).state ≡ false)
    → any (claimable w id) s.requests ≡ false
    → any (claimable w id) (claim change by key s).1.requests ≡ false
claim-any change by key w id s over h =
    any-update_where w id (claimable by.workspace_id key) change s.requests over h

pub find-holds :
    (p : ProvisioningRequest → Bool) (rows : List ProvisioningRequest) (r : ProvisioningRequest)
    → find p rows ≡ some r
    → p r ≡ true
find-holds p [] r h = ground (arith, h)
find-holds p (q ∷ rows) r h = elim (Bool-cases (p q)) [
  | inl e ↦ ground (arith, e, h)
  | inr e ↦ let h' : find p rows ≡ some r = ground (arith, e, h) in find-holds p rows r h'
]

pub same_key :
    (w w' id id' : Text) (r : ProvisioningRequest)
    → is_request w id r ≡ true
    → is_request w' id' r ≡ true
    → (w ≡ w') × (id ≡ id')
same_key w w' id id' r h h' =
    let (i, v) = (and-eq-true (text_eq r.id id) (text_eq r.workspace_id w)).0 h in
    let (i', v') = (and-eq-true (text_eq r.id id') (text_eq r.workspace_id w')).0 h' in
    (
      sym ((text_eq_iff r.workspace_id w).0 v) ∙ (text_eq_iff r.workspace_id w').0 v',
      sym ((text_eq_iff r.id id).0 i) ∙ (text_eq_iff r.id id').0 i',
    )

pub audit_rejection-any :
    (by : Reviewer) (row : Option ProvisioningRequest) (s : Store) (w id : Text)
    → any (claimable w id) s.requests ≡ false
    → any (claimable w id) (audit_rejection by row s).1.requests ≡ false
audit_rejection-any by none s w id h = h
audit_rejection-any by (some r) s w id h = h

pub reject-any :
    (policy : ProvisioningPolicyShape) (by : Reviewer) (key : Text) (remark : Option Text)
    (w id : Text) (s : Store)
    → any (claimable w id) s.requests ≡ false
    → any (claimable w id) (reject policy by key remark s).1.requests ≡ false
unfolding reject
reject-any policy by key remark w id s h =
    let change : ProvisioningRequest → ProvisioningRequest =
      λ r. noted remark (reviewed rejected by r) in
    let after = claim-any change by key w id s (λ r. refl) h in
    let P : Rejection × Store → Type 0 = λ p. any (claimable w id) p.1.requests ≡ false in
    if_both P (not (assert_approver policy by)) _ _ h (
      if_both P (length (keep (claimable by.workspace_id key) s.requests) == 0) _ _ after
        (audit_rejection-any by _ (claim change by key s).1 w id after))
