-- ===== src/Agent/Outcome.antt =====
-- The guarantees of the host for a whole turn (apps/alexa-sim/src/agent.ts, `runTurn`).
use groceryclaw.Agent.Turn.{Brain, Host, Locals, answered, raised}
use groceryclaw.Agent.Rounds.{
  ask, Ending, replied, ask_round, threw, rounds, Which, push, fallback, primary,
}
use groceryclaw.Agent.{Block, PendingConfirmation, ChatMessage, assistant, is_tool_use, user}
use groceryclaw.Base.{
  ℕ, zero, suc, String, Bool, not, ◌||◌, List, Option, none, some, ◌≡◌, refl, inl, inr,
  Option-cases, Bool-cases, arith, subst, any, All, All-map,
}
use groceryclaw.Agent.Safety.{IsSafe, IsRedactedBlock, push-IsSafe, handle_uses-IsSafe, Speaks}

-- What is assumed of a brain: each block of its answers is `Ok`.
abbrev pub Writes : (Block → Type 0) → Brain → Type 0
Writes Ok b =
    (n : ℕ) (ms : List ChatMessage) (bs : List Block) (stops : Bool)
    → b n ms ≡ answered bs stops
    → All Ok bs

pub record BrainsWrite {W : Type 0} (Ok : Block → Type 0) (h : Host W) : Type 0 where
  pub first : Writes Ok h.brain
  pub second : (b : Brain) → h.fallback_brain ≡ some b → Writes Ok b

ask-Writes :
    (Ok : Block → Type 0) (trim : String → String) (b : Brain) (n : ℕ) (ms : List ChatMessage)
    (bs : List Block) (stops : Bool)
    → Writes Ok b
    → ask trim b n ms ≡ answered bs stops
    → All Ok bs
unfolding ask
ask-Writes Ok trim b n ms bs stops w e =
    (elim (b n ms) as (λ a. b n ms ≡ a → All Ok bs) [
      | raised r ↦ λ e'. absurd (ground (arith, e', e))
      | answered bs' stops' ↦ λ e'.
          let same : bs' ≡ bs = ground (arith, e', e) in subst (All Ok) same (w n ms bs' stops' e')
    ])
      refl

-- What an ending leaves.
abbrev pub locals_of : {W : Type 0} → Ending W → Locals W
locals_of (replied r l) = l
locals_of (threw l) = l

module _ {W : Type 0} (Ok : Block → Type 0) (Says : String → Type 0)
    (redacted_ok : (b : Block) → IsRedactedBlock Says b → Ok b) (h : Host W)
    (speaks : Speaks Says h) (writes : BrainsWrite Ok h) (start : Option PendingConfirmation) where
  -- The same of an answer by the fallback brain.
  by_fallback :
      (who : Which) (n : ℕ) (ms : List ChatMessage) (bs : List Block) (stops : Bool)
      → ask_round h fallback n ms ≡ some (who, bs, stops)
      → All Ok bs
  unfolding ask_round
  by_fallback who n ms bs stops e =
      (elim h.fallback_brain as (λ o. h.fallback_brain ≡ o → All Ok bs) [
        | none ↦ λ e'. absurd (ground (arith, e', e))
        | some b ↦ λ e'.
            (elim (ask h.trim b n ms) as (λ a. ask h.trim b n ms ≡ a → All Ok bs) [
              | answered bs' stops' ↦ λ e''.
                  let same : bs' ≡ bs = ground (arith, e', e'', e) in
                  subst (All Ok) same
                    (ask-Writes Ok h.trim b n ms bs' stops' (writes.second b e') e'')
              | raised r ↦ λ e''. absurd (ground (arith, e', e'', e))
            ])
              refl
      ])
        refl

  ask_round-Writes :
      (which who : Which) (n : ℕ) (ms : List ChatMessage) (bs : List Block) (stops : Bool)
      → ask_round h which n ms ≡ some (who, bs, stops)
      → All Ok bs
  unfolding ask_round
  ask_round-Writes primary who n ms bs stops e =
      (elim (ask h.trim h.brain n ms) as (λ a. ask h.trim h.brain n ms ≡ a → All Ok bs) [
        | answered bs' stops' ↦ λ e'.
            let same : bs' ≡ bs = ground (arith, e', e) in
            subst (All Ok) same (ask-Writes Ok h.trim h.brain n ms bs' stops' writes.first e')
        | raised r ↦ λ e'. by_fallback who n ms bs stops (ground (arith, e', e))
      ])
        refl
  ask_round-Writes fallback who n ms bs stops e = by_fallback who n ms bs stops e

  pub rounds-IsSafe :
      (which : Which) (left done : ℕ) (l : Locals W)
      → IsSafe Ok h.affirmed start l
      → IsSafe Ok h.affirmed start (locals_of (rounds h start which left done l))
  unfolding rounds
  rounds-IsSafe which zero done l s = s
  rounds-IsSafe which (suc left) done l s =
      elim (Option-cases (ask_round h which done l.messages)) [
        | inl failed' ↦ rw (failed', rounds) s
        | inr ((who, bs, stops), e) ↦
            let s₁ =
              push-IsSafe Ok h start assistant bs l
                (ask_round-Writes which who done l.messages bs stops e) s in
            elim (Bool-cases (not stops || not (any is_tool_use bs))) [
              | inl over ↦ rw (e, rounds, over) s₁
              | inr more ↦
                  let (s₂, results) =
                    handle_uses-IsSafe Ok h start Says speaks bs (push assistant bs l) s₁ in
                  rw (e, rounds, more)
                    (rounds-IsSafe who left (suc done) _
                      (push-IsSafe Ok h start user _ _ (All-map redacted_ok _ results) s₂))
            ]
      ]
