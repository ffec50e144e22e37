-- ===== src/Agent/Safety.antt =====
-- What the host of a voice turn guarantees (apps/alexa-sim/src/agent.ts), whatever the brain and the
-- tools answer.
use groceryclaw.Base.Assoc.{
  lookup, insert, lookup-insert_self, lookup-delete, lookup-insert, delete,
}
use groceryclaw.Agent.Turn.{
  verdict_of, Host, Sent, send, passes, with_profile, Locals, handle_uses, refuse, handle_use,
  json_parts, blocked, not_yes, not_heard, already_confirmed,
}
use groceryclaw.Agent.{
  redact, Fields, PendingConfirmation, Part, ChatMessage, Block, spoken_part, tool_result, text,
  json_part, null, truthy, held_by_host, Role, tool_use, text_block, thinking, redacted_thinking,
}
use groceryclaw.Base.{
  ℕ, suc, ◌+◌, ◌⊎◌, String, Bool, true, false, ◌&&◌, ◌||◌, List, [], ◌∷◌, ◌++◌, Option, none, some,
  ◌≡◌, refl, ◌≢◌, inl, inr, if◌then◌else◌, Option-cases, Bool-cases, arith, ◌∙◌, ap, str_eq,
  str_eq_iff, is_some, All, ne_of_test, All-append, subst, sym,
}
use groceryclaw.Agent.Rounds.{push}

-- An order is confirmed only on the owner's yes in this turn, and for the draft that was pending when
-- the turn began.
abbrev pub IsAuthorized : Bool → Option PendingConfirmation → Sent → Type 0
IsAuthorized affirmed start x =
    x.name ≡ "confirm_reorder"
    → (affirmed ≡ true)
      × ((p : PendingConfirmation) × (start ≡ some p)
          × (lookup "confirmation_token" x.args ≡ some (text p.token)))

-- The confirmations that were answered with data.
abbrev pub is_confirmation : Sent → Bool
is_confirmation x = str_eq x.name "confirm_reorder" && is_some x.answer.structured

abbrev pub count_confirmations : List Sent → ℕ
count_confirmations [] = 0
count_confirmations (x ∷ xs) =
    let n = count_confirmations xs in if is_confirmation x then suc n else n

count-append :
    (xs ys : List Sent)
    → count_confirmations (xs ++ ys) ≡ count_confirmations xs + count_confirmations ys
count-append [] ys = omega arith
count-append (x ∷ xs) ys = ground (arith, count-append xs ys)

-- The token stands in no data that the model reads: it is missing, null or the host's mark.
abbrev pub IsRedacted : Fields → Type 0
IsRedacted f =
    (lookup "confirmation_token" f ≡ none)
    ⊎ ((lookup "confirmation_token" f ≡ some null)
        ⊎ (lookup "confirmation_token" f ≡ some held_by_host))

-- The same of a tool's answer, whose spoken text is one that may be said.
abbrev pub IsRedactedPart : (Says : String → Type 0) → Part → Type 0
IsRedactedPart Says (spoken_part s) = Says s
IsRedactedPart Says (json_part f) = IsRedacted f

abbrev pub IsRedactedBlock : (Says : String → Type 0) → Block → Type 0
IsRedactedBlock Says (tool_result id st ps) = All (IsRedactedPart Says) ps
IsRedactedBlock Says _ = Unit

abbrev pub IsRedactedMessage : (Says : String → Type 0) → ChatMessage → Type 0
IsRedactedMessage Says m = All (IsRedactedBlock Says) m.content

-- The spoken answers of the tools and the host's own refusals are texts that may be said.
pub record Speaks {W : Type 0} (Says : String → Type 0) (h : Host W) : Type 0 where
  pub answers : (name : String) (args : Fields) (w : W) → Says (h.call_tool name args w).1.spoken
  pub refuses_without_yes : Says not_yes
  pub refuses_unheard : Says not_heard
  pub refuses_twice : Says already_confirmed

pub redact-IsRedacted : (f : Fields) → IsRedacted (redact f)
unfolding redact
redact-IsRedacted f = elim (Option-cases (lookup "confirmation_token" f)) [
  | inl e ↦ rw (e, redact) (inl e)
  | inr (v, e) ↦ ground (
    arith,
    e,
    lookup-insert_self "confirmation_token" (if truthy v then held_by_host else null) f,
  )
]

verdict-passes :
    (affirmed confirmed : Bool) (start : Option PendingConfirmation) (name : String)
    (args full : Fields)
    → verdict_of affirmed confirmed start name args ≡ passes full
    → ((name ≢ "confirm_reorder") × (full ≡ args))
      ⊎ ((affirmed ≡ true)
          × (confirmed ≡ false)
          × ((p : PendingConfirmation) × (start ≡ some p)
              × (full ≡ insert "confirmation_token" (text p.token) args)))
unfolding verdict_of
verdict-passes affirmed confirmed start name args full e =
    elim (Bool-cases (str_eq name "confirm_reorder")) [
      | inr other ↦
          inl (ground (arith, other, str_eq_iff name "confirm_reorder"), ground (arith, other))
      | inl same ↦ elim (Option-cases start) [
        | inl none' ↦ absurd (ground (arith, same, none'))
        | inr (p, e') ↦
            inr (
              ground (arith, same, e'),
              ground (arith, same, e'),
              (p, e', ground (arith, same, e')),
            )
      ]
    ]

json_parts-IsRedactedPart :
    (Says : String → Type 0) (o : Option Fields) → All (IsRedactedPart Says) (json_parts o)
json_parts-IsRedactedPart Says none = tt
json_parts-IsRedactedPart Says (some f) = (redact-IsRedacted f, tt)

verdict-blocked :
    (affirmed confirmed : Bool) (start : Option PendingConfirmation) (name why : String)
    (args : Fields)
    → verdict_of affirmed confirmed start name args ≡ blocked why
    → (why ≡ not_yes) ⊎ ((why ≡ not_heard) ⊎ (why ≡ already_confirmed))
unfolding verdict_of
verdict-blocked affirmed confirmed start name why args e = elim (Option-cases start) [
  | inl none' ↦ elim (Bool-cases affirmed) [
    | inl yes' ↦ inr (inl (ground (arith, e, none', yes')))
    | inr no' ↦ inl (ground (arith, e, none', no'))
  ]
  | inr (p, e') ↦ elim (Bool-cases affirmed) [
    | inl yes' ↦ inr (inr (ground (arith, e, e', yes')))
    | inr no' ↦ inl (ground (arith, e, e', no'))
  ]
]

module _ {W : Type 0} (h : Host W) where
  with_profile-token :
      (name : String) (args : Fields)
      → lookup "confirmation_token" (with_profile h name args) ≡ lookup "confirmation_token" args
  unfolding with_profile
  with_profile-token name args =
      let differ = ne_of_test "voice_profile" "confirmation_token" (unfold str_eq in refl) in
      ground (
        arith,
        lookup-delete "voice_profile" "confirmation_token" args,
        lookup-insert "voice_profile" "confirmation_token" (text h.voice_profile)
            (delete "voice_profile" args),
        str_eq_iff "voice_profile" "confirmation_token",
        differ,
      )

  -- What a call that is sent records.
  sent_of : (name : String) → Fields → W → Sent
  sent_of name args w = record {
    name = name;
    args = with_profile h name args;
    answer = (h.call_tool name (with_profile h name args) w).1;
  }

  send-sent :
      (id name : String) (args raw : Fields) (l : Locals W)
      → (send h id name args raw l).0.sent ≡ l.sent ++ sent_of name args l.world ∷ []
  unfolding send sent_of
  send-sent id name args raw l = ground arith

  send-confirmed :
      (id name : String) (args raw : Fields) (l : Locals W)
      → (send h id name args raw l).0.confirmed
        ≡ (is_confirmation (sent_of name args l.world) || l.confirmed)
  unfolding send sent_of
  send-confirmed id name args raw l = ground arith

  send-messages :
      (id name : String) (args raw : Fields) (l : Locals W)
      → (send h id name args raw l).0.messages ≡ l.messages
  unfolding send
  send-messages id name args raw l = ground arith

  send-IsRedactedBlock :
      (Says : String → Type 0) (speaks : Speaks Says h) (id name : String) (args raw : Fields)
      (l : Locals W)
      → IsRedactedBlock Says (send h id name args raw l).1
  unfolding send sent_of
  send-IsRedactedBlock Says speaks id name args raw l =
      (speaks.answers name (with_profile h name args) l.world, json_parts-IsRedactedPart Says _)

  refuse-IsRedactedBlock :
      (Says : String → Type 0) (speaks : Speaks Says h) (start : Option PendingConfirmation)
      (confirmed : Bool) (id name why : String) (args raw : Fields) (l : Locals W)
      → verdict_of h.affirmed confirmed start name args ≡ blocked why
      → IsRedactedBlock Says (refuse id name raw why l).1
  unfolding refuse
  refuse-IsRedactedBlock Says speaks start confirmed id name why args raw l e =
      elim (verdict-blocked h.affirmed confirmed start name why args e) [
        | inl same ↦ (subst Says (sym same) speaks.refuses_without_yes, tt)
        | inr (inl same) ↦ (subst Says (sym same) speaks.refuses_unheard, tt)
        | inr (inr same) ↦ (subst Says (sym same) speaks.refuses_twice, tt)
      ]

-- What holds of the variables of the turn at every point of the rounds; `Ok` is what is known of each
-- block of the messages.
pub record IsSafe {W : Type 0} (Ok : Block → Type 0) (affirmed : Bool)
    (start : Option PendingConfirmation) (l : Locals W) : Type 0 where
  pub authorized : All (IsAuthorized affirmed start) l.sent
  pub once : count_confirmations l.sent ≡ (if l.confirmed then 1 else 0)
  pub blocks : All (λ m. All Ok m.content) l.messages

module _ {W : Type 0} (Ok : Block → Type 0) (h : Host W) (start : Option PendingConfirmation) where
  send-IsSafe :
      (id name : String) (args raw : Fields) (l : Locals W)
      → IsAuthorized h.affirmed start (sent_of h name args l.world)
      → (name ≡ "confirm_reorder" → l.confirmed ≡ false)
      → IsSafe Ok h.affirmed start l
      → IsSafe Ok h.affirmed start (send h id name args raw l).0
  unfolding sent_of
  send-IsSafe id name args raw l auth fresh s = record {
    authorized =
        rw (send-sent h id name args raw l)
          (All-append (IsAuthorized h.affirmed start) l.sent _ s.authorized (auth, tt));
    once =
        rw
          (
            send-sent h id name args raw l,
            send-confirmed h id name args raw l,
            count-append l.sent (sent_of h name args l.world ∷ []),
            s.once,
          )
          (ground (arith, str_eq_iff name "confirm_reorder", fresh));
    blocks = rw (send-messages h id name args raw l) s.blocks;
  }

  refuse-IsSafe :
      (id name : String) (args : Fields) (why : String) (l : Locals W)
      → IsSafe Ok h.affirmed start l
      → IsSafe Ok h.affirmed start (refuse id name args why l).0
  unfolding refuse
  refuse-IsSafe id name args why l s = record {
    authorized = s.authorized;
    once = s.once;
    blocks = s.blocks;
  }

  passed-IsAuthorized :
      (name : String) (args full : Fields) (l : Locals W)
      → verdict_of h.affirmed l.confirmed start name args ≡ passes full
      → IsAuthorized h.affirmed start (sent_of h name full l.world)
        × (name ≡ "confirm_reorder" → l.confirmed ≡ false)
  unfolding sent_of
  passed-IsAuthorized name args full l e =
      elim (verdict-passes h.affirmed l.confirmed start name args full e) [
        | inl (other, _) ↦ ((λ same. absurd (other same)), λ same. absurd (other same))
        | inr (yes', fresh, (p, held, same)) ↦ (
          (λ _. (
            yes',
            (
              p,
              held,
              with_profile-token h name full
                  ∙ ap (lookup "confirmation_token") same
                  ∙ lookup-insert_self "confirmation_token" (text p.token) args,
            ),
          )),
          λ _. fresh,
        )
      ]

  handle_use-IsSafe :
      (Says : String → Type 0) (speaks : Speaks Says h) (id name : String) (args : Fields)
      (l : Locals W)
      → IsSafe Ok h.affirmed start l
      → IsSafe Ok h.affirmed start (handle_use h start id name args l).0
        × IsRedactedBlock Says (handle_use h start id name args l).1
  unfolding handle_use
  handle_use-IsSafe Says speaks id name args l s =
      (elim (verdict_of h.affirmed l.confirmed start name args)
          as (λ v.
            verdict_of h.affirmed l.confirmed start name args ≡ v
            → IsSafe Ok h.affirmed start (handle_use h start id name args l).0
              × IsRedactedBlock Says (handle_use h start id name args l).1) [
                | blocked why ↦ λ e.
                    rw (e, handle_use)
                      (
                        refuse-IsSafe id name args why l s,
                        refuse-IsRedactedBlock h Says speaks start l.confirmed id name why args args
                            l e,
                      )
                | passes full ↦ λ e.
                    let (auth, fresh) = passed-IsAuthorized name args full l e in
                    rw (e, handle_use)
                      (
                        send-IsSafe id name full args l auth fresh s,
                        send-IsRedactedBlock h Says speaks id name full args l,
                      )
              ])
        refl

  pub handle_uses-IsSafe :
      (Says : String → Type 0) (speaks : Speaks Says h) (bs : List Block) (l : Locals W)
      → IsSafe Ok h.affirmed start l
      → IsSafe Ok h.affirmed start (handle_uses h start bs l).0
        × All (IsRedactedBlock Says) (handle_uses h start bs l).1
  unfolding handle_uses
  handle_uses-IsSafe Says speaks [] l s = (s, tt)
  handle_uses-IsSafe Says speaks (tool_use id name args ∷ bs) l s =
      let (s', b) = handle_use-IsSafe Says speaks id name args l s in
      let (s'', rest) =
        handle_uses-IsSafe Says speaks bs (handle_use h start id name args l).0 s' in
      (s'', (b, rest))
  handle_uses-IsSafe Says speaks (text_block t ∷ bs) l s = handle_uses-IsSafe Says speaks bs l s
  handle_uses-IsSafe Says speaks (tool_result i st ps ∷ bs) l s =
      handle_uses-IsSafe Says speaks bs l s
  handle_uses-IsSafe Says speaks (thinking ∷ bs) l s = handle_uses-IsSafe Says speaks bs l s
  handle_uses-IsSafe Says speaks (redacted_thinking ∷ bs) l s =
      handle_uses-IsSafe Says speaks bs l s

  pub push-IsSafe :
      (r : Role) (bs : List Block) (l : Locals W)
      → All Ok bs
      → IsSafe Ok h.affirmed start l
      → IsSafe Ok h.affirmed start (push r bs l)
  push-IsSafe r bs l ok s = record {
    authorized = s.authorized;
    once = s.once;
    blocks = All-append (λ m. All Ok m.content) l.messages _ s.blocks (ok, tt);
  }
