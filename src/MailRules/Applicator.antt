-- ===== src/MailRules/Applicator.antt =====
-- The applicator of backend/src/mail-rules/mail-rules.service.ts: its replay, its engine calls and its
-- fence.
use email_ops_community.Prelude.{
  ℕ, ◌+◌, ◌≡◌, ◌≢◌, ◌⊎◌, refl, sym, ap, ◌∙◌, Bool, true, false, not, ◌&&◌, Option, none, some, List,
  [], ◌∷◌, ◌++◌, map, any, keep, arith, Bool-cases, inl, inr, if◌then◌else◌, All,
}
use mathlib.Core.List.{append-nil, append_assoc}
use email_ops_community.Prelude.Int.{◌≤ℤ◌, leb_ℤ, leb_ℤ_of_le}
use email_ops_community.Prelude.Text.{Text, text_eq, trim, is_empty}
use email_ops_community.RuleEngine.{
  InboundMessage, CompiledRule, RuleAction, RuleActionType, move_to_folder, label, archive, trash,
  mark_read, stop, is_stop, evaluate_rules, sort_rules, insert_rule, sort_key, run_rules,
  parse_actions,
}
use email_ops_community.RuleEngine.Order.{IsSorted, sort_rules_lem}
use email_ops_community.RuleEngine.Walk.{fires}
use email_ops_community.MailRules.{
  engine_call, move_thread_to_mailbox, move_thread_to_folder, set_thread_read, archive_folder,
  trash_folder, MailRuleRow, InboundRuleMessage, Engine, EngineCall, call_of, add_call,
  count_answer, bump, EngineAnswer, done, declined, thrown, apply_actions, usable_row, compile,
  matched_rules, apply_sorted, apply_rows, bump_hits, apply_inbound,
}

-- The actions of the rules, one after the other.
abbrev pub actions_of : List CompiledRule → InboundMessage → List RuleAction
actions_of [] msg = []
actions_of (r ∷ rs) msg = evaluate_rules (r ∷ []) msg ++ actions_of rs msg

insert_rule-below :
    (r : CompiledRule) (rs : List CompiledRule)
    → All (λ x. sort_key r ≤ℤ sort_key x) rs
    → insert_rule r rs ≡ r ∷ rs
unfolding insert_rule
insert_rule-below r [] h = refl
insert_rule-below r (x ∷ xs) h =
    let e : leb_ℤ (sort_key r) (sort_key x) ≡ true = leb_ℤ_of_le (sort_key r) (sort_key x) h.0 in
    rw e refl

sort_rules_of_IsSorted : (rs : List CompiledRule) → IsSorted rs → sort_rules rs ≡ rs
unfolding sort_rules
sort_rules_of_IsSorted [] h = refl
sort_rules_of_IsSorted (r ∷ rs) h =
    ap (insert_rule r) (sort_rules_of_IsSorted rs h.1) ∙ insert_rule-below r rs h.0

-- One rule alone gives its own actions, if it fires.
evaluate_rules-one :
    (r : CompiledRule) (msg : InboundMessage)
    → evaluate_rules (r ∷ []) msg ≡ (if fires r msg then parse_actions r.actions else [])
unfolding evaluate_rules run_rules sort_rules insert_rule
evaluate_rules-one r msg = elim (Bool-cases (fires r msg)) [
  | inl f ↦ elim (Bool-cases (any is_stop (parse_actions r.actions))) [
    | inl s ↦ rw (f, s) refl
    | inr s ↦ rw (f, s) (append-nil _)
  ]
  | inr f ↦ rw f refl
]

module _ (r : CompiledRule) (rs : List CompiledRule) (msg : InboundMessage) where
  replay_step :
      (b : Bool) (acts : List RuleAction)
      → evaluate_rules (r ∷ []) msg ≡ (if b then acts else [])
      → run_rules rs msg ≡ actions_of (matched_rules rs msg) msg
      → (if b
          then if any is_stop acts then acts else acts ++ run_rules rs msg
          else run_rules rs msg)
        ≡ actions_of (matched_rules (r ∷ rs) msg) msg
  unfolding matched_rules
  replay_step false acts e ih = rw e ih
  replay_step true [] e ih = rw e ih
  replay_step true (a ∷ acts) e ih = elim (Bool-cases (any is_stop (a ∷ acts))) [
    | inl s ↦ rw (e, s) (rw e (sym (append-nil (a ∷ acts))))
    | inr s ↦ rw (e, s) (rw e (ap (λ z. (a ∷ acts) ++ z) ih))
  ]

run_rules-actions_of :
    (rs : List CompiledRule) (msg : InboundMessage)
    → run_rules rs msg ≡ actions_of (matched_rules rs msg) msg
unfolding run_rules
run_rules-actions_of [] msg = unfold matched_rules in refl
run_rules-actions_of (r ∷ rs) msg =
    replay_step r rs msg (fires r msg) (parse_actions r.actions) (evaluate_rules-one r msg)
      (run_rules-actions_of rs msg)

-- The replay that counts hits agrees with the evaluation: the actions that are executed are those of
-- the collected rules, each evaluated alone, in their order.
pub evaluate_rules-matched_rules :
    (rs : List CompiledRule) (msg : InboundMessage)
    → evaluate_rules (sort_rules rs) msg ≡ actions_of (matched_rules (sort_rules rs) msg) msg
unfolding evaluate_rules
evaluate_rules-matched_rules rs msg =
    ap (λ z. run_rules z msg) (sort_rules_of_IsSorted (sort_rules rs) (sort_rules_lem rs).0)
    ∙ run_rules-actions_of (sort_rules rs) msg

-- The folder that a move names, blank where it has no value.
abbrev pub folder_of : Option Text → Text
folder_of none = []
folder_of (some s) = s

-- The action makes no call: it is STOP or LABEL, or a move that names no folder.
abbrev pub IsSilent : RuleAction → Type 0
IsSilent a =
    (a.type ≡ stop)
    ⊎ ((a.type ≡ label) ⊎ ((a.type ≡ move_to_folder) × (trim (folder_of a.value) ≡ [])))

module _ (email thread : Text) where
  -- The action makes this call.
  abbrev pub Asks : RuleAction → EngineCall → Type 0
  Asks a c =
      ((a.type ≡ archive) × (c ≡ move_thread_to_folder email thread archive_folder))
      ⊎ (((a.type ≡ trash) × (c ≡ move_thread_to_folder email thread trash_folder))
          ⊎ (((a.type ≡ mark_read) × (c ≡ set_thread_read email thread true))
              ⊎ ((a.type ≡ move_to_folder)
                  × ((trim (folder_of a.value) ≢ [])
                      × (c ≡ move_thread_to_mailbox email thread (trim (folder_of a.value)))))))

  -- The calls are those of the actions, in order: each action makes its call, unless it is silent.
  abbrev pub Performs : List RuleAction → List EngineCall → Type 0
  Performs [] [] = Unit
  Performs [] (c ∷ cs) = ⊥
  Performs (a ∷ acts) [] = IsSilent a × Performs acts []
  Performs (a ∷ acts) (c ∷ cs) =
      (IsSilent a × Performs acts (c ∷ cs)) ⊎ (Asks a c × Performs acts cs)

  -- What one action adds to the calls.
  abbrev Adds : RuleAction → Option EngineCall → Type 0
  Adds a none = IsSilent a
  Adds a (some c) = Asks a c

  is_empty-nil : (s : Text) → is_empty s ≡ true → s ≡ []
  is_empty-nil [] h = refl
  is_empty-nil (c ∷ s) h = ground (arith, h)

  is_empty-not_nil : (s : Text) → is_empty s ≡ false → s ≢ []
  is_empty-not_nil [] h = ground (arith, h)
  is_empty-not_nil (c ∷ s) h = ground arith

  move-Adds :
      (s : Text)
      → Adds
          (record { type = move_to_folder; value = some s })
          (call_of email thread (record { type = move_to_folder; value = some s }))
  unfolding engine_call
  move-Adds s = elim (Bool-cases (is_empty (trim s))) [
    | inl e ↦ rw e (inr (inr (refl, is_empty-nil (trim s) e)))
    | inr e ↦ rw e (inr (inr (inr (refl, (is_empty-not_nil (trim s) e, refl)))))
  ]

  typed-Adds :
      (t : RuleActionType) (v : Option Text)
      → Adds
          (record { type = t; value = v })
          (call_of email thread (record { type = t; value = v }))
  unfolding engine_call trim
  typed-Adds move_to_folder none = inr (inr (refl, refl))
  typed-Adds move_to_folder (some s) = move-Adds s
  typed-Adds label v = inr (inl refl)
  typed-Adds archive v = inl (refl, refl)
  typed-Adds trash v = inr (inl (refl, refl))
  typed-Adds mark_read v = inr (inr (inl (refl, refl)))
  typed-Adds stop v = inl refl

  Performs-add_call :
      (a : RuleAction) (acts : List RuleAction) (c : Option EngineCall) (cs : List EngineCall)
      → Adds a c
      → Performs acts cs
      → Performs (a ∷ acts) (add_call [] c ++ cs)
  Performs-add_call a acts none [] h p = (h, p)
  Performs-add_call a acts none (d ∷ cs) h p = inl (h, p)
  Performs-add_call a acts (some c) cs h p = inr (h, p)

add_call-append :
    (calls rest : List EngineCall) (c : Option EngineCall)
    → add_call calls c ++ rest ≡ calls ++ (add_call [] c ++ rest)
add_call-append calls rest none = refl
add_call-append calls rest (some c) = append_assoc calls (c ∷ []) rest

-- The calls that the engine answers with true, each asked after those before it.
abbrev pub done_among : Engine → List EngineCall → List EngineCall → ℕ
done_among engine asked [] = 0
done_among engine asked (c ∷ cs) =
    (elim (engine asked c) [ done ↦ 1 | declined ↦ 0 | thrown ↦ 0 ])
    + done_among engine (asked ++ c ∷ []) cs

bump-done :
    (a : EngineAnswer) (n k : ℕ)
    → bump a n + k ≡ n + ((elim a [ done ↦ 1 | declined ↦ 0 | thrown ↦ 0 ]) + k)
bump-done done n k = omega arith
bump-done declined n k = omega arith
bump-done thrown n k = omega arith

count_answer-done_among :
    (engine : Engine) (asked cs : List EngineCall) (c : Option EngineCall) (n : ℕ)
    → count_answer engine asked c n + done_among engine (add_call asked c) cs
      ≡ n + done_among engine asked (add_call [] c ++ cs)
count_answer-done_among engine asked cs none n = refl
count_answer-done_among engine asked cs (some c) n =
    bump-done (engine asked c) n (done_among engine (asked ++ c ∷ []) cs)

module _ (engine : Engine) (email thread : Text) where
  -- Whatever the engine answers, and also where a call throws, the calls that are made are those of
  -- the actions, in order: an archive, a trash and a mark-as-read make their call, a move to a folder
  -- makes one with the folder it names, and only STOP, a LABEL and a move to a blank folder make none.
  -- The number that is reported as applied grows by the calls that the engine answered with true.
  pub apply_actions-Performs :
      (acts : List RuleAction) (applied : ℕ) (calls : List EngineCall)
      → (made : List EngineCall) × (Performs email thread acts made
          × ((apply_actions engine email thread acts applied calls).1 ≡ calls ++ made)
          × ((apply_actions engine email thread acts applied calls).0
              ≡ applied + done_among engine calls made))
  unfolding apply_actions
  apply_actions-Performs [] applied calls = ([], (tt, sym (append-nil calls), omega arith))
  apply_actions-Performs (a ∷ acts) applied calls =
      let c = call_of email thread a in
      let (made, (performed, log, count)) =
        apply_actions-Performs acts (count_answer engine calls c applied) (add_call calls c) in
      (
        add_call [] c ++ made,
        (
          Performs-add_call email thread a acts c made (typed-Adds email thread a.type a.value)
              performed,
          log ∙ add_call-append calls made c,
          count ∙ count_answer-done_among engine calls made c applied,
        ),
      )

-- The rows that the fence keeps out.
abbrev pub foreign : Text → Text → List MailRuleRow → List MailRuleRow
foreign workspace_id mailbox_id rows =
    keep (λ r. not (text_eq r.workspace_id workspace_id && text_eq r.mailbox_id mailbox_id)) rows

-- The rows that may act: enabled, of this workspace and of this mailbox.
abbrev pub acting : Text → Text → List MailRuleRow → List MailRuleRow
acting workspace_id mailbox_id rows =
    keep
      (λ r.
        if text_eq r.workspace_id workspace_id
        then if text_eq r.mailbox_id mailbox_id then r.enabled else false
        else false)
      rows

keep-acting :
    (w m : Text) (rows : List MailRuleRow)
    → keep (usable_row w m) (acting w m rows) ≡ keep (usable_row w m) rows
keep-acting w m [] = refl
keep-acting w m (r ∷ rows) = ground (arith, keep-acting w m rows)

foreign-bump_hits :
    (w m : Text) (ids : List Text) (rows : List MailRuleRow)
    → foreign w m (bump_hits w m ids rows) ≡ foreign w m rows
unfolding bump_hits
foreign-bump_hits w m ids [] = refl
foreign-bump_hits w m ids (r ∷ rows) = ground (arith, foreign-bump_hits w m ids rows)

apply_rows-acting :
    (engine : Engine) (w m email : Text) (msg : InboundRuleMessage) (rows : List MailRuleRow)
    → apply_rows engine w m email msg rows ≡ apply_rows engine w m email msg (acting w m rows)
unfolding apply_rows
apply_rows-acting engine w m email msg rows =
    ap (λ z. apply_sorted engine email msg (sort_rules (map compile z)))
      (sym (keep-acting w m rows))

counted-foreign :
    (engine : Engine) (counted : Bool) (w m email : Text) (msg : InboundRuleMessage)
    (rows : List MailRuleRow)
    → foreign w m (apply_inbound engine counted w m email msg rows).1 ≡ foreign w m rows
unfolding apply_inbound
counted-foreign engine true w m email msg rows = foreign-bump_hits w m _ rows
counted-foreign engine false w m email msg rows = refl

-- The fence: two tables with the same enabled rows of this workspace and this mailbox, in the same
-- order, whatever else they hold, give the same calls, the same summary and the same hits; and the
-- rows of any other workspace or mailbox stay as they were.
pub apply_inbound-fence :
    (engine : Engine) (counted : Bool) (w m email : Text) (msg : InboundRuleMessage)
    (rows others : List MailRuleRow)
    → acting w m rows ≡ acting w m others
    → ((apply_inbound engine counted w m email msg rows).0
        ≡ (apply_inbound engine counted w m email msg others).0)
      × (foreign w m (apply_inbound engine counted w m email msg rows).1 ≡ foreign w m rows)
unfolding apply_inbound
apply_inbound-fence engine counted w m email msg rows others same = (
  apply_rows-acting engine w m email msg rows
      ∙ ap (apply_rows engine w m email msg) same
      ∙ sym (apply_rows-acting engine w m email msg others),
  counted-foreign engine counted w m email msg rows,
)
