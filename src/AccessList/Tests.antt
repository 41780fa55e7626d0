-- ===== src/AccessList/Tests.antt =====
-- The witnesses of the theorems on backend/src/auth/access-list.ts, and a run of its parser.
use email_ops_community.Prelude.{◌≡◌, refl, List, [], ◌∷◌, map}
use email_ops_community.Prelude.Text.{Text, txt, trim}
use email_ops_community.Roles.{role_rank}
use email_ops_community.AccessList.{AccessRule, parse_access_list}

-- The second token has no role, and the third one no valid role.
parser_run :
    map
      (λ (r : AccessRule). role_rank r.role)
      (parse_access_list (txt "*@d.e:member,x@y.z,a@b.c:king, q@r.s : Owner"))
    ≡ 1 ∷ 4 ∷ []
unfolding parse_access_list email_ops_community.AccessList.parse_tokens
    email_ops_community.Prelude.Text.split trim email_ops_community.AccessList.rule_of_parts
    email_ops_community.AccessList.valid_role email_ops_community.Prelude.Text.text_eq
    email_ops_community.Prelude.Text.to_upper_case
parser_run = refl
