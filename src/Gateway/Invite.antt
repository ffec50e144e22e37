-- ===== src/Gateway/Invite.antt =====
-- packages/common/src/invite-intent.ts, `detectInviteIntent`. A captured code is `none` where there is none or
-- where it is empty.
use groceryclaw.Inbound.{truthy}
use groceryclaw.Gateway.{Platform}
use groceryclaw.Base.{String, Option, none, some, if◌then◌else◌, str_eq}

abbrev pub normalize_whitespace : Platform → String → String
normalize_whitespace pf s = pf.one_space (pf.trim s)

unfoldable pub detect_invite_intent : Platform → String → Option String
detect_invite_intent pf t =
    if str_eq t ""
    then none
    else let cleaned = normalize_whitespace pf t in
      if str_eq cleaned "" then none else elim (truthy (pf.invite_prefixed cleaned)) [
        | some code ↦ some code
        | none ↦ truthy (pf.invite_bare (pf.upper cleaned))
      ]
