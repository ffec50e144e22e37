-- ===== src/Queue.antt =====
-- packages/common/src/bullmq-lite.ts: a job of the queue, and what the worker does with it when its
-- processor failed. The Redis lists that hold the jobs are not part of the model.
pub mod Attempts
pub mod Examples
use groceryclaw.Base.{
  ◌^◌, ℕ, zero, suc, ◌+◌, ◌-◌, ◌*◌, ◌/◌, ◌%◌, ◌≤◌, ◌<◌, ◌↔◌, ◌⊎◌, String, Bool, true, false, not,
  ◌&&◌, ◌||◌, List, [], ◌∷◌, ◌++◌, map, Option, none, some, ◌≡◌, refl, ◌≢◌, inl, inr, if◌then◌else◌,
  Option-cases, Bool-cases, arith, leb, ltb, ◌==◌, sym, ◌∙◌, ap, subst, str_eq, str_eq_iff,
  str_eq_refl, is_some, any, find, keep_if, length, length-append, guard, ◌>>=◌, ◌>>◌, includes,
  get_or_else, All, max, min, drop,
}

-- `BackoffOption`: a number of milliseconds, or a policy with its delay.
pub data Backoff : Type 0 where
  milliseconds : ℕ → Backoff
  fixed exponential : (delay : Option ℕ) → Backoff

pub record StoredJob : Type 0 where
  pub id : String
  pub name : String
  pub data_text : String
  pub attempts_made : ℕ
  pub attempts : ℕ
  pub backoff : Option Backoff

-- `Queue.add`: the job that is pushed.
unfoldable pub new_job :
    (id name data_text : String) → (attempts : Option ℕ) → Option Backoff → StoredJob
new_job id name data_text attempts backoff = record {
  id = id;
  name = name;
  data_text = data_text;
  attempts_made = 0;
  attempts = max 1 (get_or_else attempts 1);
  backoff = backoff;
}

unfoldable pub compute_backoff_ms : Option Backoff → (attempts_made : ℕ) → ℕ
compute_backoff_ms none made = 0
compute_backoff_ms (some (milliseconds n)) made = n
compute_backoff_ms (some (fixed delay)) made = get_or_else delay 0
compute_backoff_ms (some (exponential delay)) made = get_or_else delay 0 * 2 ^ (made - 1)

-- What becomes of a job after its processor ran.
pub data Next : Type 0 where
  done : Next
  wait_again : StoredJob → Next
  delay_until : ℕ → StoredJob → Next
  failed_for_good : (attempts_made : ℕ) → Next

unfoldable pub after_run : (now : ℕ) → StoredJob → (threw : Bool) → Next
unfolding compute_backoff_ms
after_run now job false = done
after_run now job true =
    let made = suc job.attempts_made in
    let next = record job { attempts_made = made } in
    let delay = compute_backoff_ms job.backoff made in
    if ltb made job.attempts
    then if ltb 0 delay then delay_until (now + delay) next else wait_again next
    else failed_for_good made
