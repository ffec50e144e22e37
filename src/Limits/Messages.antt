-- ===== src/Limits/Messages.antt =====
-- How many messages the notifier's limits let out (packages/common/src/notifier-rate-limit.ts).
use groceryclaw.Limits.{unit}
use groceryclaw.Base.Assoc.{lookup}
use groceryclaw.Limits.Allowance.{
  IsWithin, total-IsWithin, later-IsWithin, consume-IsWithin, consume-other,
}
use groceryclaw.Limits.Bucket.{consume, Buckets}
use groceryclaw.Limits.Notifier.{NotifierConfig, consume_message, Limiters, global_key, user_key}
use groceryclaw.Base.{
  ℕ, suc, ◌+◌, ◌-◌, ◌*◌, ◌≤◌, ◌⊎◌, String, Bool, true, false, ◌&&◌, List, [], ◌∷◌, Option, ◌≡◌,
  refl, ◌≢◌, inl, inr, if◌then◌else◌, Bool-cases, arith, sym, ap, subst, str_eq, str_eq_iff,
}

pub record Message : Type 0 where
  pub now : ℕ
  pub tenant : Option String
  pub user : String

abbrev pub AreOrdered : (start end : ℕ) → List Message → Type 0
AreOrdered start end [] = start ≤ end
AreOrdered start end (m ∷ ms) = (start ≤ m.now) × AreOrdered m.now end ms

module _ (cfg : NotifierConfig) where
  -- How many of the messages that `p` picks pass.
  unfoldable pub passed_of : (Message → Bool) → List Message → Limiters → ℕ
  passed_of p [] l = 0
  passed_of p (m ∷ ms) l =
      let (l', r) = consume_message cfg m.now m.tenant m.user l in
      let rest = passed_of p ms l' in if p m && r.passed then suc rest else rest

abbrev pub no_limiters : Limiters
no_limiters = record { globals = []; tenants = []; users = [] }

other_user : (v u : String) → user_key v ≢ user_key u → str_eq v u ≡ false
other_user v u ne = elim (Bool-cases (str_eq v u)) [
  | inl same ↦ absurd (ne (ap user_key ((str_eq_iff v u).0 same)))
  | inr other ↦ other
]

module _ (cfg : NotifierConfig) (on : cfg.enabled ≡ true) where
  -- Every message asks the global bucket, and passes only with its token.
  step_globals :
      (now : ℕ) (t : Option String) (u : String) (l : Limiters)
      → ((consume_message cfg now t u l).0.globals
          ≡ (consume cfg.global_per_minute cfg.global_per_minute now global_key 1 l.globals).0)
        × ((consume_message cfg now t u l).1.passed ≡ true
            → (consume cfg.global_per_minute cfg.global_per_minute now global_key 1
                l.globals).1.allowed
              ≡ true)
  unfolding consume_message
  step_globals now t u l = (ground (arith, on), λ e. ground (arith, on, e))

  -- A message asks the bucket of its user last: it then passes where that has a token.
  step_users :
      (now : ℕ) (t : Option String) (u : String) (l : Limiters)
      → (((consume_message cfg now t u l).0.users ≡ l.users)
          × ((consume_message cfg now t u l).1.passed ≡ false))
        ⊎ (((consume_message cfg now t u l).0.users
              ≡ (consume cfg.per_user_burst cfg.per_user_burst now (user_key u) 1 l.users).0)
            × ((consume_message cfg now t u l).1.passed
                ≡ (consume cfg.per_user_burst cfg.per_user_burst now
                    (user_key u)
                    1
                    l.users).1.allowed))
  unfolding consume_message
  step_users now t u l = ground (arith, on)

  globals-bound :
      (start last end total : ℕ) (ms : List Message) (l : Limiters)
      → AreOrdered last end ms
      → IsWithin cfg.global_per_minute cfg.global_per_minute start last total
          (lookup global_key l.globals)
      → (total + passed_of cfg (λ _. true) ms l) * unit
        ≤ cfg.global_per_minute * unit + (end - start) * cfg.global_per_minute
  unfolding passed_of
  globals-bound start last end total [] l o w =
      let e =
        total-IsWithin cfg.global_per_minute cfg.global_per_minute start end total
          (lookup global_key l.globals)
          (later-IsWithin cfg.global_per_minute cfg.global_per_minute start last end total
            (lookup global_key l.globals) o w) in
      ground (arith, e)
  globals-bound start last end total (m ∷ ms) l o w =
      let l' = (consume_message cfg m.now m.tenant m.user l).0 in
      let d = consume cfg.global_per_minute cfg.global_per_minute m.now global_key 1 l.globals in
      let (same, pays) = step_globals m.now m.tenant m.user l in
      let w₁ =
        consume-IsWithin cfg.global_per_minute cfg.global_per_minute global_key start last m.now 1
          total l.globals o.0 w in
      let rest =
        globals-bound start m.now end (if d.1.allowed then 1 + total else total) ms l' o.1 (
          subst
            (λ gs.
              IsWithin cfg.global_per_minute cfg.global_per_minute start m.now
                (if d.1.allowed then 1 + total else total) (lookup global_key gs))
            (sym same) w₁) in
      elim (Bool-cases d.1.allowed) [
        | inl yes' ↦ ground (arith, yes', rest)
        | inr no' ↦ ground (arith, no', rest, pays)
      ]

  users-bound :
      (u : String) (start last end total : ℕ) (ms : List Message) (l : Limiters)
      → AreOrdered last end ms
      → IsWithin cfg.per_user_burst cfg.per_user_burst start last total
          (lookup (user_key u) l.users)
      → (total + passed_of cfg (λ m. str_eq m.user u) ms l) * unit
        ≤ cfg.per_user_burst * unit + (end - start) * cfg.per_user_burst
  unfolding passed_of
  users-bound u start last end total [] l o w =
      let e =
        total-IsWithin cfg.per_user_burst cfg.per_user_burst start end total
          (lookup (user_key u) l.users)
          (later-IsWithin cfg.per_user_burst cfg.per_user_burst start last end total
            (lookup (user_key u) l.users) o w) in
      ground (arith, e)
  users-bound u start last end total (m ∷ ms) l o w =
      let Holds : ℕ → Buckets → Type 0 = (λ k us.
        IsWithin cfg.per_user_burst cfg.per_user_burst start m.now k (lookup (user_key u) us)) in
      let d = consume cfg.per_user_burst cfg.per_user_burst m.now (user_key m.user) 1 l.users in
      let l' = (consume_message cfg m.now m.tenant m.user l).0 in
      let idle : Holds total l.users =
        later-IsWithin cfg.per_user_burst cfg.per_user_burst start last m.now total
          (lookup (user_key u) l.users) o.0 w in
      elim (step_users m.now m.tenant m.user l) [
        | inl (same, refused) ↦
            let rest =
              users-bound u start m.now end total ms l' o.1 (subst (Holds total) (sym same) idle) in
            ground (arith, refused, rest)
        | inr (same, outcome) ↦ elim (Bool-cases (str_eq (user_key m.user) (user_key u))) [
          | inr other ↦
              let ne : user_key m.user ≢ user_key u =
                (λ e. cc (other, (str_eq_iff (user_key m.user) (user_key u)).1 e)) in
              let not_u : str_eq m.user u ≡ false = other_user m.user u ne in
              let kept : Holds total d.0 =
                subst (IsWithin cfg.per_user_burst cfg.per_user_burst start m.now total)
                  (sym (
                    consume-other cfg.per_user_burst cfg.per_user_burst (user_key u)
                      (user_key m.user) m.now 1 l.users ne))
                  idle in
              let rest =
                users-bound u start m.now end total ms l' o.1
                  (subst (Holds total) (sym same) kept) in
              ground (arith, not_u, rest)
          | inl eq ↦
              let k = (str_eq_iff (user_key m.user) (user_key u)).0 eq in
              let w₁ =
                consume-IsWithin cfg.per_user_burst cfg.per_user_burst (user_key m.user) start last
                  m.now 1 total l.users o.0
                  (subst
                    (λ j.
                      IsWithin cfg.per_user_burst cfg.per_user_burst start last total
                        (lookup j l.users))
                    (sym k) w) in
              let taken : Holds (if d.1.allowed then 1 + total else total) d.0 =
                subst
                  (λ j.
                    IsWithin cfg.per_user_burst cfg.per_user_burst start m.now
                      (if d.1.allowed then 1 + total else total) (lookup j d.0))
                  k w₁ in
              let rest =
                users-bound u start m.now end (if d.1.allowed then 1 + total else total) ms l' o.1
                  (subst (Holds (if d.1.allowed then 1 + total else total)) (sym same) taken) in
              elim (Bool-cases d.1.allowed) [
                | inl yes' ↦ ground (arith, yes', rest)
                | inr no' ↦ ground (arith, no', rest, outcome)
              ]
        ]
      ]

  -- From empty limiters on, with a clock that does not go back, the limits hold over any messages: between
  -- two times, the messages that pass are at most the global burst and what the time brings, and those of
  -- one user at most the user's burst and what the time brings (each counted in 60 000ths).
  pub messages_within_limits :
      (u : String) (start end : ℕ) (ms : List Message)
      → AreOrdered start end ms
      → (passed_of cfg (λ _. true) ms no_limiters * unit
          ≤ cfg.global_per_minute * unit + (end - start) * cfg.global_per_minute)
        × (passed_of cfg (λ m. str_eq m.user u) ms no_limiters * unit
            ≤ cfg.per_user_burst * unit + (end - start) * cfg.per_user_burst)
  unfolding lookup
  messages_within_limits u start end ms o =
      let all = globals-bound start start end 0 ms no_limiters o (refl, omega arith) in
      let one = users-bound u start start end 0 ms no_limiters o (refl, omega arith) in
      (ground (arith, all), ground (arith, one))
