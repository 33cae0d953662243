-- ===== src/Dedup/UnionFind/Groups.antt =====
-- `union_find_groups` returns the partition that the pairs generate, each group under its least
-- member.
use janasunani.Base.{
  Returns, Returns-some, ◌≡◌, ◌↔◌, refl, Bool, false, some, List, [], ◌∷◌, lookup, inl, inr, sym,
  subst, All, Elem,
}
use janasunani.Dedup.UnionFind.{union_find_groups}
use janasunani.Dedup.UnionFind.Roots.{Root, Joined, root_unique}
use janasunani.Dedup.UnionFind.Find.{Chain-rel}
use janasunani.Dedup.UnionFind.Total.{Justifies}
use janasunani.Dedup.UnionFind.Finished.{groups_total}

-- The least equivalence that holds of the pairs.
pub data Connected {K : Type 0} (pairs : List (K × K)) : K → K → Type 0 where
  pair : (a b : K) → Elem (a, b) pairs → Connected pairs a b
  same : (a : K) → Connected pairs a a
  flip : (a b : K) → Connected pairs a b → Connected pairs b a
  step : (a b c : K) → Connected pairs a b → Connected pairs b c → Connected pairs a c

module _ {K : Type 0} (dec : Discrete K) where
  -- `g` gives each item and each end of a pair a group, and two of them the same one exactly when
  -- the pairs connect them.
  pub record IsPartition (pairs : List (K × K)) (items : List K) (g : List (K × K)) : Type 0 where
    pub seeded : (x : K) → Elem x items → (r : K) × (lookup dec x g ≡ some r)
    pub paired :
        (a b : K)
        → Elem (a, b) pairs
        → (r : K) × (lookup dec a g ≡ some r) × (lookup dec b g ≡ some r)
    pub groups :
        (a b ga gb : K)
        → lookup dec a g ≡ some ga
        → lookup dec b g ≡ some gb
        → (ga ≡ gb) ↔ Connected pairs a b

  -- Each group goes by a member of its own, and no member comes before it.
  pub record IsLeast (less : K → K → Bool) (g : List (K × K)) : Type 0 where
    pub member : (a ga : K) → lookup dec a g ≡ some ga → lookup dec ga g ≡ some ga
    pub least : (a ga : K) → lookup dec a g ≡ some ga → less a ga ≡ false

pub All-of_Elem :
    {A : Type 0} (P : A → Type 0) (xs : List A) → ((x : A) → Elem x xs → P x) → All P xs
All-of_Elem P [] h = tt
All-of_Elem P (x ∷ xs) h = (h x (inl refl), All-of_Elem P xs (λ y e. h y (inr e)))

pub Elem-of_All : {A : Type 0} (P : A → Type 0) (xs : List A) (x : A) → All P xs → Elem x xs → P x
Elem-of_All P [] x h e = absurd e
Elem-of_All P (y ∷ xs) x h (inl e) = subst P (sym e) h.0
Elem-of_All P (y ∷ xs) x h (inr e) = Elem-of_All P xs x h.1 e

module _ {K : Type 0} (dec : Discrete K) (less : K → K → Bool) (pairs : List (K × K)) where
  pub Connected-trans :
      (x y z : K) → Connected pairs x y → Connected pairs y z → Connected pairs x z
  Connected-trans x y z h k = step x y z h k

  pub Connected-Justifies : (e : K × K) → Elem e pairs → Justifies dec (Connected pairs) less e
  Connected-Justifies (a, b) e = record {
    first_stays = λ ra rb h k _. step rb b ra (flip b rb k) (step b a ra (flip a b (pair a b e)) h);
    second_stays = λ ra rb h k _. step ra a rb (flip a ra h) (step a b rb (pair a b e) k);
  }

  -- Connected items have the same roots.
  pub Connected-root :
      (p : List (K × K))
      → All (λ e. Joined dec p e.0 e.1) pairs
      → (a b : K) → Connected pairs a b
      → (r : K) → Root dec p a r ↔ Root dec p b r
  Connected-root p js a b (pair _ _ e) r =
      let (s, ja, jb) = Elem-of_All (λ t. Joined dec p t.0 t.1) pairs (a, b) js e in
      (
        λ h. subst (Root dec p b) (root_unique dec ja.0 h.0 p a s r ja.1 h.1) jb,
        λ h. subst (Root dec p a) (root_unique dec jb.0 h.0 p b s r jb.1 h.1) ja,
      )
  Connected-root p js a b (same _) r = (λ h. h, λ h. h)
  Connected-root p js a b (flip _ _ c) r = let (f, g) = Connected-root p js b a c r in (g, f)
  Connected-root p js a b (step _ c _ h k) r =
      let (f, g) = Connected-root p js a c h r in
      let (f', g') = Connected-root p js c b k r in (λ t. f' (f t), λ t. g (g' t))

  -- For every list of pairs, every list of items and every comparison, `union_find_groups`
  -- returns, and the result gives each item and each end of a pair a group, where two of them
  -- have the same group exactly when the pairs connect them.
  pub union_find_groups-connected :
      (items : List K)
      → Returns (union_find_groups dec less pairs items) (IsPartition dec pairs items)
  union_find_groups-connected items =
      let (g, made, o) =
        groups_total dec (Connected pairs) same Connected-trans less pairs items
          (All-of_Elem _ pairs Connected-Justifies) in
      let joins = Connected-root o.parent o.paired in
      let down : (x r : K) → Root dec o.parent x r → Connected pairs x r = λ x r h.
        Chain-rel dec (Connected pairs) same Connected-trans h.0 o.parent x r o.bonded h.1 in
      Returns-some _ (IsPartition dec pairs items) g made (record {
        seeded = λ x e. let (r, h) = o.seeded x e in (r, o.listed x r h);
        paired = λ a b e.
            let (r, ja, jb) =
              Elem-of_All (λ t. Joined dec o.parent t.0 t.1) pairs (a, b) o.paired e in
            (r, o.listed a r ja, o.listed b r jb);
        groups = λ a b ga gb at at'.
            let ra = o.read a ga at in
            let rb = o.read b gb at' in
            (
              λ e.
                  step a ga b (down a ga ra)
                    (subst (λ t. Connected pairs t b) (sym e) (flip b gb (down b gb rb))),
              λ c.
                  let rb' = (joins a b c ga).0 ra in
                  root_unique dec rb'.0 rb.0 o.parent b ga gb rb'.1 rb.1,
            );
      })
