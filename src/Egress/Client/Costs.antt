-- ===== src/Egress/Client/Costs.antt =====
-- How many requests the calls of the Sarvam client send at most.
use janasunani.Base.{
  ℕ, zero, suc, ◌+◌, ◌≤◌, Bool, true, false, Option, none, some, List, Text, length, Bool-cases,
  inl, inr, arith, ◌==◌,
}
use janasunani.Egress.Http.{Payload, Reply, raised, responded, Result, ok, err}
use janasunani.Egress.Audit.{Label}
use janasunani.Egress.Client.{
  wait_for_submission_slot, accept_submission, audit_rate_limit, on_reply, post_json, get_json,
  get_binary,
}
use janasunani.Egress.Client.State.{
  Adapter, Outside, World, Fault, Call, M, ◌>>=◌, raise, rescue, audit,
}

-- A step that sends at most `n` requests.
abbrev pub Costs : {A : Type 0} → ℕ → M A → Type 0
Costs n m = (w : World) → length (m w).1.requests ≤ length w.requests + n

cost_next :
    {A B : Type 0} (n k : ℕ) (w : World) (f : A → M B) (r : Result Fault A) (v : World)
    → length v.requests ≤ length w.requests + n
    → ((a : A) → Costs k (f a))
    → length
        (elim r as (λ _. Result Fault B × World) [ ok a ↦ f a v | err e ↦ (err e, v) ]).1.requests
      ≤ length w.requests + (n + k)
cost_next n k w f (ok a) v h hf = omega (arith, hf a v)
cost_next n k w f (err e) v h hf = omega arith

pub Costs->>= :
    {A B : Type 0} (n k : ℕ) (m : M A) (f : A → M B)
    → Costs n m
    → ((a : A) → Costs k (f a))
    → Costs (n + k) (m >>= f)
unfolding ◌>>=◌
Costs->>= n k m f hm hf w = cost_next n k w f (m w).0 (m w).1 (hm w) hf

-- The same under a larger bound.
pub Costs-within :
    {A B : Type 0} (n k total : ℕ) (m : M A) (f : A → M B)
    → n + k ≤ total
    → Costs n m
    → ((a : A) → Costs k (f a))
    → Costs total (m >>= f)
Costs-within n k total m f h hm hf w = omega (arith, Costs->>= n k m f hm hf w)

pub Costs-Bool :
    {A : Type 0} (n : ℕ) (b : Bool) (x y : M A)
    → Costs n x
    → Costs n y
    → Costs n (elim b [ true ↦ x | false ↦ y ])
Costs-Bool n true x y hx hy = hx
Costs-Bool n false x y hx hy = hy

pub Costs-Option :
    {A B : Type 0} (n : ℕ) (o : Option B) (x : M A) (f : B → M A)
    → Costs n x
    → ((b : B) → Costs n (f b))
    → Costs n (elim o [ none ↦ x | some b ↦ f b ])
Costs-Option n none x f hx hf = hx
Costs-Option n (some b) x f hx hf = hf b

pub Costs-raise : (A : Type 0) (n : ℕ) (e : Fault) → Costs {A = A} n (raise e)
Costs-raise A n e w = omega arith

cost_rescue :
    {A : Type 0} (n k total : ℕ) (w : World) (f : Fault → M A) (r : Result Fault A) (v : World)
    → n + k ≤ total
    → length v.requests ≤ length w.requests + n
    → ((e : Fault) → Costs k (f e))
    → length
        (elim r as (λ _. Result Fault A × World) [ ok a ↦ (ok a, v) | err e ↦ f e v ]).1.requests
      ≤ length w.requests + total
cost_rescue n k total w f (ok a) v h sent hf = omega arith
cost_rescue n k total w f (err e) v h sent hf = omega (arith, hf e v)

pub Costs-rescue :
    {A : Type 0} (n k total : ℕ) (m : M A) (f : Fault → M A)
    → n + k ≤ total
    → Costs n m
    → ((e : Fault) → Costs k (f e))
    → Costs total (rescue m f)
unfolding rescue
Costs-rescue n k total m f h hm hf w = cost_rescue n k total w f (m w).0 (m w).1 h (hm w) hf

module _ (env : Outside) (adapter : Adapter) where
  pub wait-Costs : Costs 0 (wait_for_submission_slot env adapter)
  unfolding wait_for_submission_slot
  wait-Costs w = omega arith

  pub get_json-Costs :
      (url : Text) (label : Label) (call : Call) (job : Text)
      → Costs 1 (get_json env adapter url label call job)
  unfolding get_json ◌>>=◌ audit
  get_json-Costs url label call job w = ground arith

  pub get_binary-Costs :
      (url : Text) (label : Label) (call : Call) (job : Text)
      → Costs 1 (get_binary env adapter url label call job)
  unfolding get_binary ◌>>=◌ audit
  get_binary-Costs url label call job w = ground arith

  on_reply-Costs :
      (n : ℕ) (again : M Payload) (attempt : ℕ) (call : Call) (document : List ℕ) (reply : Reply)
      → Costs n again
      → Costs n (on_reply env adapter again attempt call document reply)
  unfolding on_reply accept_submission audit_rate_limit ◌>>=◌ audit
  on_reply-Costs n again attempt call document (raised name) h w = ground arith
  on_reply-Costs n again attempt call document (responded response) h w =
      elim (Bool-cases (response.status_code == 429)) [
        | inl limited ↦
            rw (limited, on_reply)
              (elim (Bool-cases (attempt == adapter.max_submission_attempts)) [
                | inl last ↦ rw last (omega arith)
                | inr more ↦ rw more (h _)
              ])
        | inr free ↦ rw (free, on_reply) (ground arith)
      ]

  pub post_json-Costs :
      (left attempt : ℕ) (url : Text) (call : Call) (document : List ℕ)
      → Costs left (post_json env adapter left attempt url call document)
  unfolding post_json ◌>>=◌ wait_for_submission_slot
  post_json-Costs zero attempt url call document w = omega arith
  post_json-Costs (suc left) attempt url call document w = omega (
    arith,
    on_reply-Costs left (post_json env adapter left (suc attempt) url call document) attempt call
        document _ (post_json-Costs left (suc attempt) url call document) _,
  )
