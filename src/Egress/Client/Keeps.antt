-- ===== src/Egress/Client/Keeps.antt =====
-- Invariants of the Sarvam client's steps: what a step keeps, a chain of such steps keeps.
use janasunani.Base.{Bool, true, false, Option, none, some}
use janasunani.Egress.Http.{Result, ok, err}
use janasunani.Egress.Client.State.{World, Fault, M, ◌>>=◌, rescue, return, raise}

module _ (P : World → Type 0) where
  abbrev pub Keeps : {A : Type 0} → M A → Type 0
  Keeps m = (w : World) → P w → P (m w).1

  after :
      {A B : Type 0} (f : A → M B) (r : Result Fault A) (v : World)
      → P v
      → ((a : A) → Keeps (f a))
      → P (elim r as (λ _. Result Fault B × World) [ ok a ↦ f a v | err e ↦ (err e, v) ]).1
  after f (ok a) v h hf = hf a v h
  after f (err e) v h hf = h

  pub Keeps->>= :
      {A B : Type 0} (m : M A) (f : A → M B) → Keeps m → ((a : A) → Keeps (f a)) → Keeps (m >>= f)
  unfolding ◌>>=◌
  Keeps->>= m f hm hf w h = after f (m w).0 (m w).1 (hm w h) hf

  recovered :
      {A : Type 0} (f : Fault → M A) (r : Result Fault A) (v : World)
      → P v
      → ((e : Fault) → Keeps (f e))
      → P (elim r as (λ _. Result Fault A × World) [ ok a ↦ (ok a, v) | err e ↦ f e v ]).1
  recovered f (ok a) v h hf = h
  recovered f (err e) v h hf = hf e v h

  pub Keeps-rescue :
      {A : Type 0} (m : M A) (f : Fault → M A)
      → Keeps m
      → ((e : Fault) → Keeps (f e))
      → Keeps (rescue m f)
  unfolding rescue
  Keeps-rescue m f hm hf w h = recovered f (m w).0 (m w).1 (hm w h) hf

  pub Keeps-return : {A : Type 0} (a : A) → Keeps (return a)
  Keeps-return a w h = h

  pub Keeps-raise : (A : Type 0) (e : Fault) → Keeps {A = A} (raise e)
  Keeps-raise A e w h = h

  pub Keeps-Bool :
      {A : Type 0} (b : Bool) (x y : M A)
      → Keeps x
      → Keeps y
      → Keeps (elim b [ true ↦ x | false ↦ y ])
  Keeps-Bool true x y hx hy = hx
  Keeps-Bool false x y hx hy = hy

  pub Keeps-Option :
      {A B : Type 0} (o : Option B) (x : M A) (f : B → M A)
      → Keeps x
      → ((b : B) → Keeps (f b))
      → Keeps (elim o [ none ↦ x | some b ↦ f b ])
  Keeps-Option none x f hx hf = hx
  Keeps-Option (some b) x f hx hf = hf b
