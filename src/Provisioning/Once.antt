-- ===== src/Provisioning/Once.antt =====
-- Reviews of provisioning requests that interleave, of
-- backend/src/provisioning/provisioning-requests.service.ts.
use email_ops_community.Prelude.{
  ℕ, zero, suc, ◌+◌, ◌≤◌, ◌==◌, ◌≡◌, refl, ◌∙◌, ◌⊎◌, inl, inr, true, false, not, Option, none, some,
  List, [], ◌∷◌, ◌++◌, any, keep, find, length, keep-last, arith, Bool-cases, Option-cases, if_both,
}
use email_ops_community.Prelude.Text.{Text}
use email_ops_community.Provisioning.{ProvisioningPolicyShape}
use email_ops_community.Provisioning.Requests.{approved, Services, Store, is_request, claimable}
use email_ops_community.Provisioning.Review.{
  Reviewer, Claimed, Begun, won, not_approver, reviewed, lost, read_back, claim, assert_approver,
  begin_approval, reject,
}
use email_ops_community.Provisioning.World.{
  World, start, Event, begins, finishes, rejects, note_begun, pick, finish_one, happen, happen_all,
  is_of, approvals,
}
use email_ops_community.Provisioning.Pending.{
  any-claimed, any-keep, finish_approval-any, claim-any, reject-any, find-holds, same_key,
}

-- A request with an approval under way or done has just this one, and is no longer pending.
IsOnce : Text → Text → World → Type 0
IsOnce w id x =
    (approvals w id x.claimed + approvals w id x.replayed ≡ 0)
    ⊎ ((approvals w id x.claimed + approvals w id x.replayed ≡ 1)
        × (any (claimable w id) x.store.requests ≡ false))

-- Taking one out leaves the count of it and the others.
Splits : Text → Text → List Claimed → Option (Claimed × List Claimed) → Type 0
Splits w id cs none = Unit
Splits w id cs (some (c, rest)) = approvals w id cs ≡ approvals w id (c ∷ rest)

Splits-later :
    (w id : Text) (d : Claimed) (ds : List Claimed) (o : Option (Claimed × List Claimed))
    → Splits w id ds o
    → Splits w id (d ∷ ds) (elim o [ none ↦ none | some (c, cs) ↦ some (c, d ∷ cs) ])
unfolding Splits
Splits-later w id d ds none h = tt
Splits-later w id d ds (some (c, rest)) h = ground (arith, h)

pick-Splits : (w id : Text) (n : ℕ) (cs : List Claimed) → Splits w id cs (pick n cs)
unfolding pick Splits
pick-Splits w id n [] = tt
pick-Splits w id zero (d ∷ ds) = refl
pick-Splits w id (suc n) (d ∷ ds) = Splits-later w id d ds (pick n ds) (pick-Splits w id n ds)

-- The steps.
IsOnce-store :
    (w id : Text) (x : World) (s : Store)
    → (any (claimable w id) x.store.requests ≡ false → any (claimable w id) s.requests ≡ false)
    → IsOnce w id x
    → IsOnce w id (record x { store = s })
unfolding IsOnce
IsOnce-store w id x s keeps (inl h) = inl h
IsOnce-store w id x s keeps (inr (h, over)) = inr (h, keeps over)

-- A claim that was won: it is of another request, or the first of its own.
IsOnce-won :
    (w id : Text) (x : World) (s : Store) (c : Claimed)
    → (any (claimable w id) x.store.requests ≡ false → any (claimable w id) s.requests ≡ false)
    → (is_of w id c ≡ true
        → (any (claimable w id) x.store.requests ≡ true)
          × (any (claimable w id) s.requests ≡ false))
    → IsOnce w id x
    → IsOnce w id (record { store = s; claimed = x.claimed ++ c ∷ []; replayed = x.replayed })
unfolding IsOnce
IsOnce-won w id x s c keeps mine h =
    let grown = keep-last (is_of w id) x.claimed c in
    elim (Bool-cases (is_of w id c)) [
      | inl e ↦
          let (was, over) = mine e in
          elim h [
            | inl none_yet ↦ inr (rw (grown, e) (ground (arith, none_yet)), over)
            | inr (one, done) ↦ ground (arith, was, done)
          ]
      | inr e ↦ elim h [
        | inl none_yet ↦ inl (rw (grown, e) (ground (arith, none_yet)))
        | inr (one, done) ↦ inr (rw (grown, e) (ground (arith, one)), keeps done)
      ]
    ]

finish_one-IsOnce :
    (w id : Text) (services : Services) (x : World) (o : Option (Claimed × List Claimed))
    → Splits w id x.claimed o
    → IsOnce w id x
    → IsOnce w id (finish_one services x o)
unfolding Splits IsOnce
finish_one-IsOnce w id services x none e h = h
finish_one-IsOnce w id services x (some (c, cs)) e h =
    let grown = keep-last (is_of w id) x.replayed c in
    let over = finish_approval-any services c x.store w id in
    elim (Bool-cases (is_of w id c)) [
      | inl f ↦
          let e' : approvals w id x.claimed ≡ suc (approvals w id cs) = e ∙ rw (f, keep) refl in
          elim h [
            | inl none_yet ↦ ground (arith, e', none_yet)
            | inr (one, done) ↦ inr (rw (grown, f) (ground (arith, e', one)), over done)
          ]
      | inr f ↦
          let e' : approvals w id x.claimed ≡ approvals w id cs = e ∙ rw (f, keep) refl in
          elim h [
            | inl none_yet ↦ inl (rw (grown, f) (ground (arith, e', none_yet)))
            | inr (one, done) ↦ inr (rw (grown, f) (ground (arith, e', one)), over done)
          ]
    ]

-- What a claim that was won says of the key.
Wins : Text → Text → World → Store → Begun → Type 0
Wins w id x s (won c) =
    is_of w id c ≡ true
    → (any (claimable w id) x.store.requests ≡ true) × (any (claimable w id) s.requests ≡ false)
Wins w id x s not_approver = Unit
Wins w id x s Begun.not_found = Unit
Wins w id x s (Begun.conflict st) = Unit

note_begun-IsOnce :
    (w id : Text) (x : World) (s : Store) (b : Begun)
    → (any (claimable w id) x.store.requests ≡ false → any (claimable w id) s.requests ≡ false)
    → Wins w id x s b
    → IsOnce w id x
    → IsOnce w id (note_begun (b, s) x)
unfolding Wins
note_begun-IsOnce w id x s (won c) keeps wins h = IsOnce-won w id x s c keeps wins h
note_begun-IsOnce w id x s not_approver keeps wins h = IsOnce-store w id x s keeps h
note_begun-IsOnce w id x s Begun.not_found keeps wins h = IsOnce-store w id x s keeps h
note_begun-IsOnce w id x s (Begun.conflict st) keeps wins h = IsOnce-store w id x s keeps h

lost-Wins :
    (w id : Text) (x : World) (s t : Store) (by : Reviewer) (key : Text)
    → Wins w id x s (lost by key t)
unfolding Wins
lost-Wins w id x s t by key =
    elim (Option-cases (find (is_request by.workspace_id key) t.requests)) [
      | inl e ↦ rw (Wins, e) tt
      | inr (r, e) ↦ rw (Wins, e) tt
    ]

read_back-Wins :
    (w id : Text) (x : World) (by : Reviewer) (key : Text)
    → (length (keep (claimable by.workspace_id key) x.store.requests) == 0) ≡ false
    → let s = (claim (reviewed approved by) by key x.store).1 in Wins w id x s (read_back by key s)
unfolding Wins
read_back-Wins w id x by key counted =
    let s = (claim (reviewed approved by) by key x.store).1 in
    elim (Option-cases (find (is_request by.workspace_id key) s.requests)) [
      | inl e ↦ rw (Wins, e) tt
      | inr (r, e) ↦
          rw (Wins, e)
            (λ mine.
              let own = find-holds (is_request by.workspace_id key) s.requests r e in
              let (ew, ei) = same_key w by.workspace_id id key r mine own in
              (
                rw (ew, ei) (any-keep (claimable by.workspace_id key) x.store.requests counted),
                rw (ew, ei)
                    (any-claimed by.workspace_id key (reviewed approved by) x.store.requests
                      (λ q. refl)),
              ))
    ]

begin_approval-IsOnce :
    (w id : Text) (policy : ProvisioningPolicyShape) (by : Reviewer) (key : Text) (x : World)
    → IsOnce w id x
    → IsOnce w id (note_begun (begin_approval policy by key x.store) x)
unfolding begin_approval
begin_approval-IsOnce w id policy by key x h =
    let s = (claim (reviewed approved by) by key x.store).1 in
    let keeps = claim-any (reviewed approved by) by key w id x.store (λ r. refl) in
    let P : Begun × Store → Type 0 = λ b. IsOnce w id (note_begun b x) in
    if_both P (not (assert_approver policy by)) _ _ h
      (elim (Bool-cases (length (keep (claimable by.workspace_id key) x.store.requests) == 0)) [
        | inl e ↦
            rw e (note_begun-IsOnce w id x s (lost by key s) keeps (lost-Wins w id x s s by key) h)
        | inr e ↦ rw e (
            note_begun-IsOnce w id x s (read_back by key s) keeps (read_back-Wins w id x by key e)
              h)
      ])

happen-IsOnce :
    (w id : Text) (services : Services) (policy : ProvisioningPolicyShape) (e : Event) (x : World)
    → IsOnce w id x
    → IsOnce w id (happen services policy e x)
unfolding happen
happen-IsOnce w id services policy (begins by key) x h =
    begin_approval-IsOnce w id policy by key x h
happen-IsOnce w id services policy (finishes n) x h =
    finish_one-IsOnce w id services x (pick n x.claimed) (pick-Splits w id n x.claimed) h
happen-IsOnce w id services policy (rejects by key remark) x h =
    IsOnce-store w id x (reject policy by key remark x.store).1
      (reject-any policy by key remark w id x.store) h

happen_all-IsOnce :
    (w id : Text) (services : Services) (policy : ProvisioningPolicyShape) (es : List Event)
    (x : World)
    → IsOnce w id x
    → IsOnce w id (happen_all services policy es x)
unfolding happen_all
happen_all-IsOnce w id services policy [] x h = h
happen_all-IsOnce w id services policy (e ∷ es) x h =
    happen_all-IsOnce w id services policy es (happen services policy e x)
      (happen-IsOnce w id services policy e x h)

-- However the claims, replays and rejections of any reviewers interleave, a request is replayed at
-- most once, and once it is under way or replayed it is never pending again.
pub happen_all-once :
    (services : Services) (policy : ProvisioningPolicyShape) (es : List Event) (s : Store)
    (w id : Text)
    → let x = happen_all services policy es (start s) in
      (approvals w id x.replayed ≤ 1)
      × ((approvals w id x.claimed + approvals w id x.replayed ≡ 0)
          ⊎ (any (claimable w id) x.store.requests ≡ false))
unfolding IsOnce
happen_all-once services policy es s w id =
    elim (happen_all-IsOnce w id services policy es (start s) (inl refl)) [
      | inl h ↦ (ground (arith, h), inl h)
      | inr (h, over) ↦ (ground (arith, h), inr over)
    ]
