-- ===== src/Provisioning/World.antt =====
-- Reviews of provisioning requests as sequences of their parts, of
-- backend/src/provisioning/provisioning-requests.service.ts.
use email_ops_community.Prelude.{
  ℕ, zero, suc, Bool, Option, none, some, List, [], ◌∷◌, ◌++◌, keep, length,
}
use email_ops_community.Prelude.Text.{Text}
use email_ops_community.Provisioning.{ProvisioningPolicyShape}
use email_ops_community.Provisioning.Requests.{Services, Store, is_request}
use email_ops_community.Provisioning.Review.{
  Reviewer, Claimed, Begun, won, begin_approval, finish_approval, reject,
}

-- The store, the approvals between their claim and their replay, and the requests replayed so far.
pub record World : Type 0 where
  pub store : Store
  pub claimed : List Claimed
  pub replayed : List Claimed

abbrev pub start : Store → World
start s = record { store = s; claimed = []; replayed = [] }

-- What may happen next: a claim, the rest of any approval under way, or a rejection.
pub data Event : Type 0 where
  begins : Reviewer → Text → Event
  finishes : ℕ → Event
  rejects : Reviewer → Text → Option Text → Event

abbrev pub note_begun : Begun × Store → World → World
note_begun (won c, s) x = record { store = s; claimed = x.claimed ++ c ∷ []; replayed = x.replayed }
note_begun (_, s) x = record x { store = s }

-- The approval at a position, and the others.
unfoldable pub pick : ℕ → List Claimed → Option (Claimed × List Claimed)
pick n [] = none
pick zero (c ∷ cs) = some (c, cs)
pick (suc n) (c ∷ cs) =
    let rest = pick n cs in elim rest [ none ↦ none | some (d, ds) ↦ some (d, c ∷ ds) ]

abbrev pub finish_one : Services → World → Option (Claimed × List Claimed) → World
finish_one services x none = x
finish_one services x (some (c, cs)) = record {
  store = finish_approval services c x.store;
  claimed = cs;
  replayed = x.replayed ++ c ∷ [];
}

unfoldable pub happen : Services → ProvisioningPolicyShape → Event → World → World
unfolding pick
happen services policy (begins by id) x = note_begun (begin_approval policy by id x.store) x
happen services policy (finishes n) x = finish_one services x (pick n x.claimed)
happen services policy (rejects by id remark) x = record x {
  store = (reject policy by id remark x.store).1;
}

unfoldable pub happen_all : Services → ProvisioningPolicyShape → List Event → World → World
unfolding happen
happen_all services policy [] x = x
happen_all services policy (e ∷ es) x = happen_all services policy es (happen services policy e x)

-- The approvals of one request.
abbrev pub is_of : Text → Text → Claimed → Bool
is_of w id c = is_request w id c.request

abbrev pub approvals : Text → Text → List Claimed → ℕ
approvals w id cs = length (keep (is_of w id) cs)
