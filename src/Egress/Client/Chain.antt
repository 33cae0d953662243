-- ===== src/Egress/Client/Chain.antt =====
-- The equations of a chain of steps of the Sarvam client.
use janasunani.Base.{◌≡◌, refl, sym, subst}
use janasunani.Egress.Http.{Result, ok, err}
use janasunani.Egress.Client.State.{World, Fault, M, ◌>>=◌, rescue}

module _ {A B : Type 0} (m : M A) (f : A → M B) (w v : World) where
  pub >>=-ok : (a : A) → m w ≡ (ok a, v) → (m >>= f) w ≡ f a v
  unfolding ◌>>=◌
  >>=-ok a e =
      subst
        (λ t.
          (elim t.0 as (λ _. Result Fault B × World) [ ok b ↦ f b t.1 | err x ↦ (err x, t.1) ])
          ≡ f a v)
        (sym e) refl

  pub >>=-err : (x : Fault) → m w ≡ (err x, v) → (m >>= f) w ≡ (err x, v)
  unfolding ◌>>=◌
  >>=-err x e =
      subst
        (λ t.
          (elim t.0 as (λ _. Result Fault B × World) [ ok b ↦ f b t.1 | err y ↦ (err y, t.1) ])
          ≡ (err x, v))
        (sym e) refl

module _ {A : Type 0} (m : M A) (f : Fault → M A) (w v : World) where
  pub rescue-ok : (a : A) → m w ≡ (ok a, v) → rescue m f w ≡ (ok a, v)
  unfolding rescue
  rescue-ok a e =
      subst
        (λ t.
          (elim t.0 as (λ _. Result Fault A × World) [ ok b ↦ (ok b, t.1) | err x ↦ f x t.1 ])
          ≡ (ok a, v))
        (sym e) refl

  pub rescue-err : (x : Fault) → m w ≡ (err x, v) → rescue m f w ≡ f x v
  unfolding rescue
  rescue-err x e =
      subst
        (λ t.
          (elim t.0 as (λ _. Result Fault A × World) [ ok b ↦ (ok b, t.1) | err y ↦ f y t.1 ])
          ≡ f x v)
        (sym e) refl

-- The same where only the value of the first step is known.
pub >>=-value :
    {A B : Type 0} (m : M A) (f : A → M B) (w : World) (a : A)
    → (m w).0 ≡ ok a
    → (m >>= f) w ≡ f a (m w).1
>>=-value m f w a e = >>=-ok m f w (m w).1 a (λ i. (e i, (m w).1))
